-- ===== src/Executor/Effects/Hoare.antt =====
-- What an action ensures, one rule for each way to build an action.
use oxidrive.Base.{◌≡◌, refl, Bool, true, false, if◌then◌else◌, Result, ok, err}
use oxidrive.Executor.Effects.{ExecError, Exec, pure, raise, continue, ◌>>=◌}

-- `Q` of a result and the state it comes with, `R` of the state behind an error.
abbrev pub Post : {W A : Type 0} → (A → W → Type 0) → (W → Type 0) → Result ExecError A × W → Type 0
Post Q R (ok a, w) = Q a w
Post Q R (err e, w) = R w

-- From a state with `P`, `m` ends in one with `Q`, or with `R` behind an error.
pub record Ensures {W A : Type 0} (P : W → Type 0) (m : Exec W A) (Q : A → W → Type 0)
    (R : W → Type 0) : Type 0 where
  pub at : (w : W) → P w → Post Q R (m w)

module _ {W A : Type 0} {P : W → Type 0} {Q : A → W → Type 0} {R : W → Type 0} where
  pub Ensures-pure : (a : A) → ((w : W) → P w → Q a w) → Ensures P (pure a) Q R
  Ensures-pure a h = record { at = h }

  pub Ensures-raise : (e : ExecError) → ((w : W) → P w → R w) → Ensures P (raise e) Q R
  Ensures-raise e h = record { at = h }

  pub Ensures-if :
      (b : Bool) (m n : Exec W A)
      → (b ≡ true → Ensures P m Q R)
      → (b ≡ false → Ensures P n Q R)
      → Ensures P (if b then m else n) Q R
  Ensures-if true m n h k = h refl
  Ensures-if false m n h k = k refl

  -- A stronger state before, weaker ones behind.
  pub Ensures-mono :
      {P' : W → Type 0} {Q' : A → W → Type 0} {R' : W → Type 0} (m : Exec W A)
      → ((w : W) → P w → P' w)
      → ((a : A) (w : W) → Q' a w → Q a w)
      → ((w : W) → R' w → R w)
      → Ensures P' m Q' R'
      → Ensures P m Q R
  Ensures-mono {P'} {Q'} {R'} m p q r h = record { at = λ w x. go (m w) (h.at w (p w x)) }
    where
      go : (o : Result ExecError A × W) → Post Q' R' o → Post Q R o
      go (ok a, w) x = q a w x
      go (err e, w) x = r w x

module _ {W A B : Type 0} {P : W → Type 0} {Q : B → W → Type 0} {R : W → Type 0} where
  pub Ensures-bind :
      {M : A → W → Type 0} (m : Exec W A) (f : A → Exec W B)
      → Ensures P m M R
      → ((a : A) → Ensures (M a) (f a) Q R)
      → Ensures P (m >>= f) Q R
  unfolding ◌>>=◌
  Ensures-bind {M} m f h k = record { at = λ w x. go (m w) (h.at w x) }
    where
      go : (o : Result ExecError A × W) → Post M R o → Post Q R (continue o.0 f o.1)
      go (ok a, w) x = (k a).at w x
      go (err e, w) x = x

module _ {W A B : Type 0} {P : W → Type 0} {Q : B → W → Type 0} {R : W → Type 0} where
  -- The first part keeps the state's property.
  pub Ensures-then :
      (m : Exec W A) (f : A → Exec W B)
      → Ensures P m (λ _. P) R
      → ((a : A) → Ensures P (f a) Q R)
      → Ensures P (m >>= f) Q R
  Ensures-then m f h k = Ensures-bind {M = λ _. P} m f h k

  -- The first part keeps the state's property and finds a fact out.
  pub Ensures-learn :
      {X : A → Type 0} (m : Exec W A) (f : A → Exec W B)
      → Ensures P m (λ a w. P w × X a) R
      → ((a : A) → X a → Ensures P (f a) Q R)
      → Ensures P (m >>= f) Q R
  Ensures-learn {X} m f h k =
      Ensures-bind {M = λ a w. P w × X a} m f h (λ a. record { at = λ w x. (k a x.1).at w x.0 })
