-- ===== src/Retry.antt =====
-- `retry_with_backoff` of src/utils/retry.rs. The operation gives a result for each call, and the delay
-- in front of each retry, a floating-point number times a jitter cast to u64, is a parameter.
use oxidrive.Base.{
  ℕ, zero, suc, ◌+◌, ◌-◌, ◌≤◌, ◌<◌, ◌≡◌, refl, sym, ap, ◌∙◌, ◌==◌, Option, none, some, min, max,
  arith, List, [], ◌∷◌, leb, if◌then◌else◌, length, All, Bool-cases, ◌⊎◌, inl, inr, Result, ok, err,
  Result-cases,
}

pub record RetryConfig : Type 0 where
  pub max_retries : ℕ
  pub max_delay_ms : ℕ

-- The result, the number of calls and the delays that were slept.
pub record Retried (E T : Type 0) : Type 0 where
  pub result : Result E T
  pub calls : ℕ
  pub delays : List ℕ

abbrev slept : {E T : Type 0} → ℕ → Option (Retried E T) → Option (Retried E T)
slept delay none = none
slept delay (some r) =
    some (record { result = r.result; calls = r.calls + 1; delays = delay ∷ r.delays })

-- The last call.
abbrev once : {E T : Type 0} → Result E T → Retried E T
once r = record { result = r; calls = 1; delays = [] }

module _ {E T : Type 0} (config : RetryConfig) (operation : ℕ → Result E T) (delay : ℕ → ℕ) where
  abbrev after_call : ℕ → Option (Retried E T) → Result E T → Option (Retried E T)
  after_call attempt again (ok v) = some (once (ok v))
  after_call attempt again (err e) =
      if leb config.max_retries attempt
      then some (once (err e))
      else slept (min (max (delay attempt) 1) config.max_delay_ms) again

  -- The loop, or none if the fuel runs out.
  unfoldable pub attempts : ℕ → ℕ → Option (Retried E T)
  attempts zero attempt = none
  attempts (suc fuel) attempt = after_call attempt (attempts fuel (attempt + 1)) (operation attempt)

  unfoldable pub retry_with_backoff : Option (Retried E T)
  unfolding attempts
  retry_with_backoff = attempts (suc config.max_retries) 0

  -- The calls from `attempt` on end with the first success, or else with the error of the last retry.
  -- There is a delay between two calls, and none is longer than the configured one.
  abbrev pub IsSettledBy : ℕ → Retried E T → Type 0
  IsSettledBy attempt r =
      (last : ℕ) × (attempt ≤ last)
      × (last ≤ config.max_retries)
      × (r.calls + attempt ≡ last + 1)
      × (r.result ≡ operation last)
      × (((v : T) × (operation last ≡ ok v)) ⊎ (last ≡ config.max_retries))
      × ((i : ℕ) → attempt ≤ i → i < last → (e : E) × (operation i ≡ err e))
      × (length r.delays + 1 ≡ r.calls)
      × All (λ d. d ≤ config.max_delay_ms) r.delays

  once-IsSettledBy :
      (attempt : ℕ) (r : Result E T)
      → attempt ≤ config.max_retries
      → operation attempt ≡ r
      → ((v : T) × (operation attempt ≡ ok v)) ⊎ (attempt ≡ config.max_retries)
      → IsSettledBy attempt (once r)
  once-IsSettledBy attempt r h e why = (
    attempt,
    omega arith,
    h,
    omega arith,
    sym e,
    why,
    λ i low high. absurd (omega (arith, low, high)),
    omega arith,
    tt,
  )

  attempts-IsSettledBy :
      (fuel attempt : ℕ)
      → config.max_retries - attempt < fuel
      → attempt ≤ config.max_retries
      → (r : Retried E T) × (attempts fuel attempt ≡ some r) × IsSettledBy attempt r
  unfolding attempts
  attempts-IsSettledBy zero attempt f h = absurd (omega (arith, f))
  attempts-IsSettledBy (suc fuel) attempt f h = elim (Result-cases (operation attempt)) [
    | inl (v, e) ↦ (once (ok v), rw e refl, once-IsSettledBy attempt (ok v) h e (inl (v, e)))
    | inr (x, e) ↦ elim (Bool-cases (leb config.max_retries attempt)) [
      | inl b ↦
          let why : attempt ≡ config.max_retries = ground (arith, b, h) in
          (once (err x), rw (e, b) refl, once-IsSettledBy attempt (err x) h e (inr why))
      | inr b ↦
          let below : attempt < config.max_retries = ground (arith, b) in
          let (r, g, settled) =
            attempts-IsSettledBy fuel (attempt + 1) (omega (arith, f, below))
              (omega (arith, below)) in
          let (last, low, high, n, same, why, failed, lens, bound) = settled in
          let failed' : (i : ℕ) → attempt ≤ i → i < last → (y : E) × (operation i ≡ err y) =
            λ i l k. elim (Bool-cases (i == attempt)) [
              | inl q ↦ (x, ap operation (ground (arith, q)) ∙ e)
              | inr q ↦ failed i (ground (arith, q, l)) k
            ] in
          (
            record {
              result = r.result;
              calls = r.calls + 1;
              delays = min (max (delay attempt) 1) config.max_delay_ms ∷ r.delays;
            },
            rw (e, b, g) refl,
            (
              last,
              omega (arith, low),
              high,
              omega (arith, n),
              same,
              why,
              failed',
              omega (arith, lens),
              (omega arith, bound),
            ),
          )
    ]
  ]

  -- The loop ends within `max_retries + 1` calls: its result is that of the first call that succeeds,
  -- or, if each of them fails, the error of the last. One delay lies between two
  -- calls, and none is longer than `max_delay_ms`.
  pub retry_settles : (r : Retried E T) × (retry_with_backoff ≡ some r) × IsSettledBy 0 r
  unfolding retry_with_backoff
  retry_settles = attempts-IsSettledBy (suc config.max_retries) 0 (omega arith) (omega arith)
