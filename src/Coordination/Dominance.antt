-- ===== src/Coordination/Dominance.antt =====
-- `VersionVector::dominance` against the pointwise order of the counters.
use mathlib.Core.Path.{subst}
use oxidrive.Base.{
  ℕ, ◌≤◌, ◌<◌, ◌≡◌, refl, sym, ◌↔◌, ◌⊎◌, inl, inr, Bool, true, false, not, none, List, [], ◌∷◌,
  ◌++◌, arith, ltb, ltb→lt, All, Bool-cases,
}
use oxidrive.Text.{Text, text_eq}
use oxidrive.Text.Order.{eq_of_text_cmp}
use oxidrive.TextMap.{TextMap, lookup, keys}
use oxidrive.Coordination.{
  Ordering3, equal, dominates, dominated_by, concurrent, VersionVector, count, Flags, compare_lower,
  compare_greater, dominance_loop, all_flags, judge, dominance,
}

-- No counter of `a` exceeds that of `b`.
abbrev pub Le : VersionVector → VersionVector → Type 0
Le a b = (k : Text) → count k a ≤ count k b

-- Some counter of `a` exceeds that of `b`.
abbrev pub Exceeds : VersionVector → VersionVector → Type 0
Exceeds a b = (k : Text) × (count k b < count k a)

-- What each answer says of the two vectors. The four are exclusive.
abbrev pub Meaning : Ordering3 → VersionVector → VersionVector → Type 0
Meaning equal a b = Le a b × Le b a
Meaning dominates a b = Le b a × Exceeds a b
Meaning dominated_by a b = Le a b × Exceeds b a
Meaning concurrent a b = Exceeds a b × Exceeds b a

-- A key that is in no map counts for nothing, so the listed keys decide.
lookup_of_keys :
    (P : Text → Type 0) (m : TextMap ℕ) (k : Text) → All P (keys m) → (lookup k m ≡ none) ⊎ P k
unfolding lookup
lookup_of_keys P [] k a = inl refl
lookup_of_keys P ((j, v) ∷ m) k a = elim (Bool-cases (text_eq k j)) [
  | inl same ↦ inr (subst P (sym (eq_of_text_cmp k j (ground arith))) a.0)
  | inr other ↦ rw other (lookup_of_keys P m k a.1)
]

module _ (a b : VersionVector) where
  -- The flags agree: each order flag is the negation of the opposite strict flag.
  abbrev Agree : Flags → Type 0
  Agree f = (f.self_ge_other ≡ not f.strictly_lower) × (f.self_le_other ≡ not f.strictly_greater)

  loop_agrees : (ks : List Text) (f : Flags) → Agree f → Agree (dominance_loop a b ks f)
  unfolding dominance_loop
  loop_agrees [] f h = h
  loop_agrees (k ∷ ks) f h = loop_agrees ks _ (ground arith)

  loop_not_lower :
      (ks : List Text) (f : Flags)
      → (dominance_loop a b ks f).strictly_lower ≡ false
      → (f.strictly_lower ≡ false) × All (λ k. count k b ≤ count k a) ks
  unfolding dominance_loop
  loop_not_lower [] f h = (h, tt)
  loop_not_lower (k ∷ ks) f h = ground (
    arith,
    loop_not_lower ks
        (compare_greater (count k a) (count k b) (compare_lower (count k a) (count k b) f)) h,
  )

  loop_not_greater :
      (ks : List Text) (f : Flags)
      → (dominance_loop a b ks f).strictly_greater ≡ false
      → (f.strictly_greater ≡ false) × All (λ k. count k a ≤ count k b) ks
  unfolding dominance_loop
  loop_not_greater [] f h = (h, tt)
  loop_not_greater (k ∷ ks) f h = ground (
    arith,
    loop_not_greater ks
        (compare_greater (count k a) (count k b) (compare_lower (count k a) (count k b) f)) h,
  )

  loop_lower :
      (ks : List Text) (f : Flags)
      → f.strictly_lower ≡ false
      → (dominance_loop a b ks f).strictly_lower ≡ true
      → Exceeds b a
  unfolding dominance_loop
  loop_lower [] f s h = cc
  loop_lower (k ∷ ks) f s h = elim (Bool-cases (ltb (count k a) (count k b))) [
    | inl lower ↦ (k, ltb→lt _ _ lower)
    | inr other ↦ loop_lower ks _ (ground arith) h
  ]

  loop_greater :
      (ks : List Text) (f : Flags)
      → f.strictly_greater ≡ false
      → (dominance_loop a b ks f).strictly_greater ≡ true
      → Exceeds a b
  unfolding dominance_loop
  loop_greater [] f s h = cc
  loop_greater (k ∷ ks) f s h = elim (Bool-cases (ltb (count k b) (count k a))) [
    | inl greater ↦ (k, ltb→lt _ _ greater)
    | inr other ↦ loop_greater ks _ (ground arith) h
  ]

  abbrev both_keys : List Text
  both_keys = keys a.entries ++ keys b.entries

All-append-left {ℓ κ} :
    {A : Type ℓ} (P : A → Type κ) (xs ys : List A) → All P (xs ++ ys) → All P xs × All P ys
All-append-left P [] ys h = (tt, h)
All-append-left P (x ∷ xs) ys h = let (l, r) = All-append-left P xs ys h.1 in ((h.0, l), r)

-- An order on all listed keys holds at every key.
everywhere :
    (P : ℕ → ℕ → Type 0) (a b : VersionVector)
    → P 0 0
    → All (λ k. P (count k a) (count k b)) (both_keys a b)
    → (k : Text) → P (count k a) (count k b)
unfolding count
everywhere P a b z h k =
    let (l, r) = All-append-left _ (keys a.entries) (keys b.entries) h in
    elim (lookup_of_keys (λ k. P (count k a) (count k b)) a.entries k l) [
      | inr p ↦ p
      | inl na ↦ elim (lookup_of_keys (λ k. P (count k a) (count k b)) b.entries k r) [
        | inr p ↦ p
        | inl nb ↦ rw (na, nb) z
      ]
    ]

not_lower-Le :
    (a b : VersionVector)
    → (dominance_loop a b (both_keys a b) all_flags).strictly_lower ≡ false
    → Le b a
not_lower-Le a b h =
    everywhere (λ x y. y ≤ x) a b (omega arith) (loop_not_lower a b (both_keys a b) all_flags h).1

not_greater-Le :
    (a b : VersionVector)
    → (dominance_loop a b (both_keys a b) all_flags).strictly_greater ≡ false
    → Le a b
not_greater-Le a b h =
    everywhere (λ x y. x ≤ y) a b (omega arith) (loop_not_greater a b (both_keys a b) all_flags h).1

-- The answer read off the two strict flags.
abbrev answer : Bool → Bool → Ordering3
answer false false = equal
answer true false = dominates
answer false true = dominated_by
answer true true = concurrent

judge-answer :
    (f : Flags)
    → (f.self_ge_other ≡ not f.strictly_lower)
    → (f.self_le_other ≡ not f.strictly_greater)
    → judge f ≡ answer f.strictly_greater f.strictly_lower
judge-answer f h k = ground arith

answer-Meaning :
    (a b : VersionVector) (greater lower : Bool)
    → (dominance_loop a b (both_keys a b) all_flags).strictly_greater ≡ greater
    → (dominance_loop a b (both_keys a b) all_flags).strictly_lower ≡ lower
    → Meaning (answer greater lower) a b
answer-Meaning a b false false g l = (not_greater-Le a b g, not_lower-Le a b l)
answer-Meaning a b true false g l =
    (not_lower-Le a b l, loop_greater a b (both_keys a b) all_flags refl g)
answer-Meaning a b false true g l =
    (not_greater-Le a b g, loop_lower a b (both_keys a b) all_flags refl l)
answer-Meaning a b true true g l = (
  loop_greater a b (both_keys a b) all_flags refl g,
  loop_lower a b (both_keys a b) all_flags refl l,
)

dominance-Meaning : (a b : VersionVector) → Meaning (dominance a b) a b
unfolding dominance
dominance-Meaning a b =
    let f = dominance_loop a b (both_keys a b) all_flags in
    let (ge, le) = loop_agrees a b (both_keys a b) all_flags (refl, refl) in
    rw (judge-answer f ge le) (answer-Meaning a b f.strictly_greater f.strictly_lower refl refl)

not-Exceeds : (a b : VersionVector) → Le a b → Exceeds a b → ⊥
not-Exceeds a b le (k, h) = omega (arith, le k)

Meaning-unique : (o p : Ordering3) (a b : VersionVector) → Meaning o a b → Meaning p a b → o ≡ p
Meaning-unique equal equal a b h k = refl
Meaning-unique equal dominates a b h k = absurd (not-Exceeds _ _ h.0 k.1)
Meaning-unique equal dominated_by a b h k = absurd (not-Exceeds _ _ h.1 k.1)
Meaning-unique equal concurrent a b h k = absurd (not-Exceeds _ _ h.0 k.0)
Meaning-unique dominates equal a b h k = absurd (not-Exceeds _ _ k.0 h.1)
Meaning-unique dominates dominates a b h k = refl
Meaning-unique dominates dominated_by a b h k = absurd (not-Exceeds _ _ k.0 h.1)
Meaning-unique dominates concurrent a b h k = absurd (not-Exceeds _ _ h.0 k.1)
Meaning-unique dominated_by equal a b h k = absurd (not-Exceeds _ _ k.1 h.1)
Meaning-unique dominated_by dominates a b h k = absurd (not-Exceeds _ _ h.0 k.1)
Meaning-unique dominated_by dominated_by a b h k = refl
Meaning-unique dominated_by concurrent a b h k = absurd (not-Exceeds _ _ h.0 k.0)
Meaning-unique concurrent equal a b h k = absurd (not-Exceeds _ _ k.0 h.0)
Meaning-unique concurrent dominates a b h k = absurd (not-Exceeds _ _ k.0 h.1)
Meaning-unique concurrent dominated_by a b h k = absurd (not-Exceeds _ _ k.0 h.0)
Meaning-unique concurrent concurrent a b h k = refl

-- `dominance` gives an answer exactly when that answer's meaning holds of the counters: `equal` if
-- no counter differs, `dominates` if none of the other vector exceeds and one of this one does,
-- `dominated_by` the other way round, `concurrent` if each vector exceeds the other somewhere.
pub dominance_iff : (a b : VersionVector) (o : Ordering3) → (dominance a b ≡ o) ↔ Meaning o a b
dominance_iff a b o = (
  λ e. subst (λ p. Meaning p a b) e (dominance-Meaning a b),
  λ m. Meaning-unique (dominance a b) o a b (dominance-Meaning a b) m,
)

abbrev pub flip : Ordering3 → Ordering3
flip equal = equal
flip dominates = dominated_by
flip dominated_by = dominates
flip concurrent = concurrent

Meaning-flip : (o : Ordering3) (a b : VersionVector) → Meaning o a b → Meaning (flip o) b a
Meaning-flip equal a b h = (h.1, h.0)
Meaning-flip dominates a b h = h
Meaning-flip dominated_by a b h = h
Meaning-flip concurrent a b h = (h.1, h.0)

-- Swapping the vectors swaps `dominates` and `dominated_by` and leaves the other answers.
pub dominance-flip : (a b : VersionVector) → dominance b a ≡ flip (dominance a b)
dominance-flip a b =
    (dominance_iff b a (flip (dominance a b))).1
      (Meaning-flip (dominance a b) a b (dominance-Meaning a b))

-- Whether an answer says that the first vector exceeds the second somewhere.
abbrev pub advanced : Ordering3 → Bool
advanced equal = false
advanced dominates = true
advanced dominated_by = false
advanced concurrent = true

advanced-of_Meaning :
    (o : Ordering3) (a b : VersionVector)
    → Meaning o a b
    → ((advanced o ≡ true) ↔ Exceeds a b) × ((advanced o ≡ false) ↔ Le a b)
advanced-of_Meaning equal a b h =
    ((λ e. cc, λ x. absurd (not-Exceeds a b h.0 x)), (λ e. h.0, λ x. refl))
advanced-of_Meaning dominates a b h =
    ((λ e. h.1, λ x. refl), (λ e. cc, λ x. absurd (not-Exceeds a b x h.1)))
advanced-of_Meaning dominated_by a b h =
    ((λ e. cc, λ x. absurd (not-Exceeds a b h.0 x)), (λ e. h.0, λ x. refl))
advanced-of_Meaning concurrent a b h =
    ((λ e. h.0, λ x. refl), (λ e. cc, λ x. absurd (not-Exceeds a b x h.0)))

pub advanced-dominance :
    (a b : VersionVector)
    → ((advanced (dominance a b) ≡ true) ↔ Exceeds a b)
      × ((advanced (dominance a b) ≡ false) ↔ Le a b)
advanced-dominance a b = advanced-of_Meaning (dominance a b) a b (dominance-Meaning a b)
