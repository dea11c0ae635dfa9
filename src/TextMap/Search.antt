-- ===== src/TextMap/Search.antt =====
-- The search for a name that a map does not have, `{stem} ({index}){ext}` counting up. A map of `n`
-- entries leaves one of `n + 1` different names free, so that many rounds are enough fuel.
use oxidrive.Base.{
  ℕ, zero, suc, ◌+◌, ◌≤◌, ◌<◌, ◌≡◌, ◌≢◌, refl, sym, ap, ◌∙◌, true, false, Option, none, some, [],
  ◌∷◌, ◌==◌, arith, if◌then◌else◌, length, Bool-cases, Option-cases, inl, inr,
}
use oxidrive.Text.{Text, text_eq}
use oxidrive.Text.Order.{text_eq_iff}
use oxidrive.TextMap.{TextMap, lookup, remove, contains_key}
use oxidrive.TextMap.Laws.{lookup-remove}

-- The loop from an index on, or none if the fuel runs out.
unfoldable pub first_free : {V : Type 0} → (ℕ → Text) → TextMap V → ℕ → ℕ → Option Text
unfolding lookup
first_free c m zero index = none
first_free c m (suc fuel) index =
    let rest = first_free c m fuel (index + 1) in
    if contains_key (c index) m then rest else some (c index)

length-remove : {V : Type 0} (k : Text) (m : TextMap V) → length (remove k m) ≤ length m
unfolding remove
length-remove k [] = omega arith
length-remove k ((j, v) ∷ m) = ground (arith, length-remove k m)

length-remove_present :
    {V : Type 0} (k : Text) (m : TextMap V)
    → contains_key k m ≡ true
    → length (remove k m) < length m
unfolding remove lookup
length-remove_present k [] h = cc
length-remove_present k ((j, v) ∷ m) h =
    ground (arith, length-remove k m, length-remove_present k m)

present-remove :
    {V : Type 0} (k j : Text) (m : TextMap V)
    → j ≢ k
    → contains_key j (remove k m) ≡ false
    → contains_key j m ≡ false
present-remove k j m d h = elim (Bool-cases (text_eq j k)) [
  | inl e ↦ absurd (d ((text_eq_iff j k).0 e))
  | inr e ↦ ground (arith, e, h, lookup-remove j k m)
]

-- Among `n + 1` different names in a row one is free, if the map has `n` entries at most.
pub free_index :
    {V : Type 0} (c : ℕ → Text)
    → ((i j : ℕ) → c i ≡ c j → i ≡ j)
    → (n : ℕ) (m : TextMap V) (i : ℕ) → length m ≤ n
    → (j : ℕ) × (i ≤ j) × (j ≤ i + n) × (contains_key (c j) m ≡ false)
unfolding lookup
free_index c inj zero [] i h = (i, omega arith, omega arith, refl)
free_index c inj zero (e ∷ m) i h = absurd (omega arith)
free_index c inj (suc n) m i h = elim (Bool-cases (contains_key (c i) m)) [
  | inr free ↦ (i, omega arith, omega arith, free)
  | inl taken ↦
      let (j, low, high, free) =
        free_index c inj n (remove (c i) m) (suc i)
          (omega (arith, length-remove_present (c i) m taken)) in
      let other : c j ≢ c i = λ e. omega (arith, inj j i e) in
      (j, omega arith, omega arith, present-remove (c i) (c j) m other free)
]

absent-lookup :
    {V : Type 0} (k : Text) (m : TextMap V) → contains_key k m ≡ false → lookup k m ≡ none
absent-lookup k m h = elim (Option-cases (lookup k m)) [
  | inl e ↦ e
  | inr (v, e) ↦ ground (arith, e, h)
]

true-ne-false : true ≢ false
true-ne-false h = cc

-- The loop finds a free name if one lies within its reach.
pub first_free-found :
    {V : Type 0} (c : ℕ → Text) (m : TextMap V) (fuel i j : ℕ)
    → i ≤ j
    → j < i + fuel
    → contains_key (c j) m ≡ false
    → (p : Text) × (first_free c m fuel i ≡ some p) × (contains_key p m ≡ false)
unfolding first_free
first_free-found c m zero i j low high free = absurd (omega (arith, low, high))
first_free-found c m (suc fuel) i j low high free = elim (Bool-cases (contains_key (c i) m)) [
  | inr e ↦ (c i, rw e refl, e)
  | inl e ↦ elim (Bool-cases (i == j)) [
    | inl same ↦
        let q : i ≡ j = ground (arith, same) in
        let t : true ≡ false = sym e ∙ ap (λ k. contains_key (c k) m) q ∙ free in
        absurd (true-ne-false t)
    | inr other ↦
        let (p, f, g) =
          first_free-found c m fuel (i + 1) j (ground (arith, low, other)) (omega (arith, high))
            free in
        (p, rw e f, g)
  ]
]

-- With one round more than the map has entries the loop ends, at a name that is not in the map.
pub first_free-total :
    {V : Type 0} (c : ℕ → Text) (m : TextMap V) (i : ℕ)
    → ((i j : ℕ) → c i ≡ c j → i ≡ j)
    → (p : Text) × (first_free c m (suc (length m)) i ≡ some p) × (lookup p m ≡ none)
first_free-total c m i inj =
    let (j, low, high, free) = free_index c inj (length m) m i (omega arith) in
    let (p, g, absent) = first_free-found c m (suc (length m)) i j low (omega (arith, high)) free in
    (p, g, absent-lookup p m absent)
