-- ===== src/TextMap/Laws.antt =====
-- What a lookup sees after each operation on a map.
use oxidrive.Base.{
  ◌≡◌, refl, sym, inl, inr, Ordering-cases, Option-cases, Bool, Option, none, some, [], ◌∷◌, arith,
  if◌then◌else◌,
}
use mathlib.Core.Path.{subst}
use oxidrive.Text.{Text, text_cmp, text_eq}
use oxidrive.Text.Order.{text_eq_refl, text_cmp_refl, eq_of_text_cmp, lt_of_gt}
use oxidrive.TextMap.{TextMap, lookup, upsert, insert, remove, retain}
use oxidrive.TextMap.Order.{Above, Above-trans, IsOrdered, lookup-Above}

abbrev pub modified {ℓ} : {V : Type ℓ} → (V → V) → V → Option V → V
modified f v none = v
modified f v (some w) = f w

module _ {ℓ} {V : Type ℓ} where
  pub lookup-upsert :
      (f : V → V) (j k : Text) (v : V) (m : TextMap V)
      → IsOrdered m
      → lookup j (upsert f k v m)
        ≡ (if text_eq j k then some (modified f v (lookup k m)) else lookup j m)
  unfolding lookup upsert
  lookup-upsert f j k v [] o = refl
  lookup-upsert f j k v ((i, w) ∷ m) o = elim (Ordering-cases (text_cmp k i)) [
    | inl before ↦
        rw (before, upsert)
          (rw (lookup-Above k m (Above-trans k i m before o.0))
            (ground (arith, eq_of_text_cmp j k)))
    | inr (inl same) ↦
        rw (same, upsert)
          (ground (arith, eq_of_text_cmp k i same, eq_of_text_cmp j k, text_cmp_refl k))
    | inr (inr behind) ↦
        rw (behind, upsert)
          (ground (arith, lookup-upsert f j k v m o.1, eq_of_text_cmp j k, eq_of_text_cmp j i))
  ]

  pub lookup-insert :
      (k : Text) (v : V) (m : TextMap V) → IsOrdered m → lookup k (insert k v m) ≡ some v
  lookup-insert k v m o = elim (Option-cases (lookup k m)) [
    | inl e ↦ ground (arith, e, lookup-upsert (λ _. v) k k v m o, text_eq_refl k)
    | inr (w, e) ↦ ground (arith, e, lookup-upsert (λ _. v) k k v m o, text_eq_refl k)
  ]

  -- What any lookup sees after an insertion.
  pub lookup-insert_at :
      (j k : Text) (v : V) (m : TextMap V)
      → IsOrdered m
      → lookup j (insert k v m) ≡ (if text_eq j k then some v else lookup j m)
  lookup-insert_at j k v m o = elim (Option-cases (lookup k m)) [
    | inl e ↦ ground (arith, e, lookup-upsert (λ _. v) j k v m o)
    | inr (w, e) ↦ ground (arith, e, lookup-upsert (λ _. v) j k v m o)
  ]

  pub lookup-remove :
      (j k : Text) (m : TextMap V)
      → lookup j (remove k m) ≡ (if text_eq j k then none else lookup j m)
  unfolding lookup remove
  lookup-remove j k [] = ground arith
  lookup-remove j k ((i, w) ∷ m) = ground (
    arith,
    lookup-remove j k m,
    eq_of_text_cmp j k,
    eq_of_text_cmp k i,
    eq_of_text_cmp j i,
    text_cmp_refl k,
  )

  abbrev pub kept : (Text → V → Bool) → Text → Option V → Option V
  kept f k none = none
  kept f k (some v) = if f k v then some v else none

  pub lookup-retain :
      (k : Text) (f : Text → V → Bool) (m : TextMap V)
      → IsOrdered m
      → lookup k (retain f m) ≡ kept f k (lookup k m)
  unfolding lookup retain
  lookup-retain k f [] o = refl
  lookup-retain k f ((i, w) ∷ m) o =
      ground
        (arith, eq_of_text_cmp k i, text_cmp_refl k, lookup-retain k f m o.1, lookup-Above i m o.0)

  same_tail :
      (k : Text) (v w : V) (m n : TextMap V)
      → Above k m
      → Above k n
      → ((i : Text) → lookup i ((k, v) ∷ m) ≡ lookup i ((k, w) ∷ n))
      → (i : Text) → lookup i m ≡ lookup i n
  unfolding lookup
  same_tail k v w m n p q h i =
      ground (arith, h i, eq_of_text_cmp i k, lookup-Above k m p, lookup-Above k n q)

  -- Two maps with the same entries are equal.
  pub map_ext :
      (m n : TextMap V) → IsOrdered m → IsOrdered n → ((k : Text) → lookup k m ≡ lookup k n) → m ≡ n
  unfolding lookup
  map_ext [] [] p q h = refl
  map_ext [] ((j, w) ∷ n) p q h = ground (arith, h j, text_cmp_refl j)
  map_ext ((k, v) ∷ m) [] p q h = ground (arith, h k, text_cmp_refl k)
  map_ext ((k, v) ∷ m) ((j, w) ∷ n) p q h = elim (Ordering-cases (text_cmp k j)) [
    | inl before ↦
        ground (arith, h k, text_cmp_refl k, lookup-Above k n (Above-trans k j n before q.0))
    | inr (inl same) ↦
        let e : j ≡ k = sym (eq_of_text_cmp k j same) in
        let tails =
          same_tail k v w m n p.0 (subst (λ x. Above x n) e q.0)
            (λ i. subst (λ x. lookup i ((k, v) ∷ m) ≡ lookup i ((x, w) ∷ n)) e (h i)) in
        ground (arith, h k, e, text_cmp_refl k, map_ext m n p.1 q.1 tails)
    | inr (inr behind) ↦ ground (
      arith,
      h j,
      text_cmp_refl j,
      lt_of_gt k j behind,
      lookup-Above j m (Above-trans j k m (lt_of_gt k j behind) p.0),
    )
  ]
