-- ===== src/Coordination/Merge.antt =====
-- `VersionVector::merge` and `increment`: the merge is a join of the order that `dominance` decides,
-- and an increment moves a vector strictly up.
use oxidrive.Base.{
  ℕ, suc, ◌<◌, max, ◌≡◌, ◌↔◌, refl, ap, ◌∙◌, sym, false, Option, none, some, [], ◌∷◌, arith,
  if◌then◌else◌,
}
use oxidrive.Text.{Text, text_eq, is_empty, trim, u64_max}
use oxidrive.Text.Order.{eq_of_text_cmp, text_cmp_refl}
use oxidrive.TextMap.{TextMap, lookup}
use oxidrive.TextMap.Order.{IsOrdered, upsert-IsOrdered, lookup-Above}
use oxidrive.TextMap.Laws.{lookup-upsert, map_ext}
use oxidrive.Coordination.{
  dominates, VersionVector, raise, from_map, merge_loop, merge, increment, saturating_add, count,
  count_or_zero, dominance,
}
use oxidrive.Coordination.Dominance.{Le, dominance_iff}

-- The entries are a map.
abbrev pub IsValid : VersionVector → Type 0
IsValid v = IsOrdered v.entries

-- The larger of two counters, either of which may be missing.
abbrev pub join : Option ℕ → Option ℕ → Option ℕ
join none y = y
join (some a) none = some a
join (some a) (some b) = some (max a b)

merge_loop-IsOrdered : (other m : TextMap ℕ) → IsOrdered m → IsOrdered (merge_loop other m)
unfolding merge_loop
merge_loop-IsOrdered [] m o = o
merge_loop-IsOrdered ((d, c) ∷ other) m o =
    merge_loop-IsOrdered other _ (upsert-IsOrdered _ d c m o)

lookup-merge_loop :
    (k : Text) (other m : TextMap ℕ)
    → IsOrdered other
    → IsOrdered m
    → lookup k (merge_loop other m) ≡ join (lookup k m) (lookup k other)
unfolding merge_loop lookup
lookup-merge_loop k [] m p o = ground arith
lookup-merge_loop k ((d, c) ∷ other) m p o = ground (
  arith,
  lookup-merge_loop k other (raise d c m) p.1 (upsert-IsOrdered _ d c m o),
  lookup-upsert (λ existing. max existing c) k d c m o,
  lookup-Above d other p.0,
  eq_of_text_cmp k d,
)

-- Merging into no entries gives the entries.
pub merge_loop-nil : (m : TextMap ℕ) → IsOrdered m → merge_loop m [] ≡ m
unfolding lookup
merge_loop-nil m o =
    map_ext (merge_loop m []) m (merge_loop-IsOrdered m [] tt) o
      (λ k. lookup-merge_loop k m [] o tt)

pub merge-IsValid : (a b : VersionVector) → IsValid a → IsValid (merge a b)
unfolding merge
merge-IsValid a b o = merge_loop-IsOrdered b.entries a.entries o

lookup-merge :
    (k : Text) (a b : VersionVector)
    → IsValid a
    → IsValid b
    → lookup k (merge a b).entries ≡ join (lookup k a.entries) (lookup k b.entries)
unfolding merge
lookup-merge k a b o p = lookup-merge_loop k b.entries a.entries p o

same_lookups :
    (a b : VersionVector)
    → IsValid a
    → IsValid b
    → ((k : Text) → lookup k a.entries ≡ lookup k b.entries)
    → a ≡ b
same_lookups a b o p h = ap from_map (map_ext a.entries b.entries o p h)

join_comm : (x y : Option ℕ) → join x y ≡ join y x
join_comm none none = refl
join_comm none (some b) = refl
join_comm (some a) none = refl
join_comm (some a) (some b) = ap {B = Option ℕ} some (omega arith)

join_assoc : (x y z : Option ℕ) → join (join x y) z ≡ join x (join y z)
join_assoc none y z = refl
join_assoc (some a) none z = refl
join_assoc (some a) (some b) none = refl
join_assoc (some a) (some b) (some c) = ap {B = Option ℕ} some (omega arith)

join_idem : (x : Option ℕ) → join x x ≡ x
join_idem none = refl
join_idem (some a) = ap {B = Option ℕ} some (omega arith)

-- Merging is commutative, associative and idempotent on vectors whose entries are maps.
pub merge_semilattice :
    (a b c : VersionVector)
    → IsValid a
    → IsValid b
    → IsValid c
    → (merge a b ≡ merge b a) × (merge (merge a b) c ≡ merge a (merge b c)) × (merge a a ≡ a)
merge_semilattice a b c o p q = (
  same_lookups _ _ (merge-IsValid a b o) (merge-IsValid b a p) (λ k.
      lookup-merge k a b o p
      ∙ join_comm (lookup k a.entries) (lookup k b.entries)
      ∙ sym (lookup-merge k b a p o)),
  same_lookups _ _ (merge-IsValid (merge a b) c (merge-IsValid a b o))
      (merge-IsValid a (merge b c) o)
      (λ k.
        rw
          (
            lookup-merge k (merge a b) c (merge-IsValid a b o) q,
            lookup-merge k a (merge b c) o (merge-IsValid b c p),
            lookup-merge k a b o p,
            lookup-merge k b c p q,
          )
          (join_assoc (lookup k a.entries) (lookup k b.entries) (lookup k c.entries))),
  same_lookups _ _ (merge-IsValid a a o) o
      (λ k. lookup-merge k a a o o ∙ join_idem (lookup k a.entries)),
)

count_or_zero-join :
    (x y : Option ℕ) → count_or_zero (join x y) ≡ max (count_or_zero x) (count_or_zero y)
count_or_zero-join none y = omega arith
count_or_zero-join (some a) none = omega arith
count_or_zero-join (some a) (some b) = refl

pub count-merge :
    (k : Text) (a b : VersionVector)
    → IsValid a
    → IsValid b
    → count k (merge a b) ≡ max (count k a) (count k b)
unfolding count
count-merge k a b o p =
    ap count_or_zero (lookup-merge k a b o p)
    ∙ count_or_zero-join (lookup k a.entries) (lookup k b.entries)

-- The merge of two vectors whose entries are maps is their least upper bound: a vector is above the
-- merge exactly when it is above both.
pub merge_least :
    (a b c : VersionVector) → IsValid a → IsValid b → Le (merge a b) c ↔ (Le a c × Le b c)
merge_least a b c o p = (
  λ h. (
    λ k. omega (arith, count-merge k a b o p, h k),
    λ k. omega (arith, count-merge k a b o p, h k),
  ),
  λ h k. omega (arith, count-merge k a b o p, h.0 k, h.1 k),
)

count-increment :
    (k device : Text) (v : VersionVector)
    → IsValid v
    → is_empty (trim device) ≡ false
    → count k (increment device v)
      ≡ (if text_eq k device then saturating_add (count device v) 1 else count k v)
unfolding count increment
count-increment k device v o t = rw t (
    ground (
      arith,
      lookup-upsert (λ c. saturating_add c 1) k device 1 v.entries o,
      eq_of_text_cmp k device,
    ))

-- An increment for a device whose id is not blank and whose counter is below u64::MAX moves a vector
-- whose entries are a map strictly up, and that counter by one.
pub increment_advances :
    (device : Text) (v : VersionVector)
    → IsValid v
    → is_empty (trim device) ≡ false
    → count device v < u64_max
    → (dominance (increment device v) v ≡ dominates)
      × (count device (increment device v) ≡ suc (count device v))
increment_advances device v o t h = (
  (dominance_iff (increment device v) v dominates).1 (
    λ k. ground (arith, count-increment k device v o t, eq_of_text_cmp k device),
    (device, ground (arith, count-increment device device v o t, text_cmp_refl device)),
  ),
  ground (arith, count-increment device device v o t, text_cmp_refl device),
)
