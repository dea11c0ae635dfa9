-- ===== src/Drive/FoldersRooted.antt =====
-- The needed folders hold the parent of each of them.
use oxidrive.Base.{
  ℕ, ◌+◌, ◌≤◌, ◌<◌, ◌≡◌, refl, ◌⊎◌, inl, inr, true, false, List, [], ◌∷◌, ◌++◌, ◌==◌, All, IsIn,
  length, arith, Bool-cases,
}
use oxidrive.Text.{Text, text_eq, is_empty, split, rsplit_once, contains_char, cons_head}
use oxidrive.Text.Order.{text_eq_iff}
use oxidrive.Drive.Names.{rsplit_once-append, rsplit_once-none}
use oxidrive.Drive.Folders.{
  parent_or_empty, set_contains, set_insert, joined, add_prefixes, add_parents, parent_folder,
  unique_parents, depth,
}

length-cons_head : (c : ℕ) (l : List Text) → 1 ≤ length l → length (cons_head c l) ≡ length l
length-cons_head c [] h = absurd (omega (arith, h))
length-cons_head c (s ∷ l) h = refl

pub split-nonempty : (d : ℕ) (s : Text) → 1 ≤ length (split d s)
unfolding split
split-nonempty d [] = omega arith
split-nonempty d (c ∷ s) = ground (arith, split-nonempty d s, length-cons_head c (split d s))

length-split-append :
    (d : ℕ) (s t : Text) → length (split d (s ++ d ∷ t)) ≡ length (split d s) + length (split d t)
unfolding split
length-split-append d [] t = ground arith
length-split-append d (c ∷ s) t = ground (
  arith,
  length-split-append d s t,
  split-nonempty d s,
  split-nonempty d (s ++ d ∷ t),
  length-cons_head c (split d s),
  length-cons_head c (split d (s ++ d ∷ t)),
)

abbrev HasNoSlash : Text → Type 0
HasNoSlash s = contains_char b'/' s ≡ false

cons_head-All :
    (c : ℕ) (l : List Text)
    → contains_char b'/' (c ∷ []) ≡ false
    → All HasNoSlash l
    → All HasNoSlash (cons_head c l)
unfolding contains_char
cons_head-All c [] h a = (h, tt)
cons_head-All c (s ∷ l) h a = (ground (arith, h, a.0), a.1)

split-All : (s : Text) → All HasNoSlash (split b'/' s)
unfolding split contains_char
split-All [] = (refl, tt)
split-All (c ∷ s) = elim (Bool-cases (c == b'/')) [
  | inl e ↦ rw e (refl, split-All s)
  | inr e ↦ rw e (cons_head-All c (split b'/' s) (ground (arith, e)) (split-All s))
]

abbrev pub parent_of : Text → Text
parent_of rel = parent_or_empty (rsplit_once b'/' rel)

-- The parent is the root, or in the set and less deep.
abbrev pub IsRooted : List Text → Text → Type 0
IsRooted set rel =
    (is_empty (parent_of rel) ≡ true)
    ⊎ (IsIn (parent_of rel) set × (depth (parent_of rel) < depth rel))

joined-IsRooted :
    (current segment : Text) (set : List Text)
    → HasNoSlash segment
    → (is_empty current ≡ true) ⊎ IsIn current set
    → IsRooted set (joined current segment)
unfolding depth
joined-IsRooted current segment set h c = elim (Bool-cases (is_empty current)) [
  | inl e ↦ rw (e, rsplit_once-none b'/' segment h) (inl refl)
  | inr e ↦
      let deeper : length (split b'/' current) < length (split b'/' (current ++ b'/' ∷ segment)) =
        omega (arith, length-split-append b'/' current segment, split-nonempty b'/' segment) in
      elim c [
        | inl empty ↦ absurd (ground (arith, e, empty))
        | inr known ↦ rw (e, rsplit_once-append b'/' current segment h) (inr (known, deeper))
      ]
]

pub set_contains-IsIn : (k : Text) (set : List Text) → set_contains k set ≡ true → IsIn k set
set_contains-IsIn k [] h = cc
set_contains-IsIn k (j ∷ set) h = elim (Bool-cases (text_eq k j)) [
  | inl e ↦ inl ((text_eq_iff k j).0 e)
  | inr e ↦ inr (set_contains-IsIn k set (ground (arith, e, h)))
]

IsRooted-grow :
    (k : Text) (set : List Text) (rel : Text) → IsRooted set rel → IsRooted (k ∷ set) rel
IsRooted-grow k set rel (inl e) = inl e
IsRooted-grow k set rel (inr (i, d)) = inr (inr i, d)

IsRooted-grow-All :
    (k : Text) (set rels : List Text) → All (IsRooted set) rels → All (IsRooted (k ∷ set)) rels
IsRooted-grow-All k set [] a = tt
IsRooted-grow-All k set (rel ∷ rels) a =
    (IsRooted-grow k set rel a.0, IsRooted-grow-All k set rels a.1)

-- Each path of the set has its parent there.
abbrev pub AreRooted : List Text → Type 0
AreRooted set = All (IsRooted set) set

set_insert-AreRooted :
    (k : Text) (set : List Text)
    → AreRooted set
    → IsRooted set k
    → AreRooted (set_insert k set) × IsIn k (set_insert k set)
set_insert-AreRooted k set a r = elim (Bool-cases (set_contains k set)) [
  | inl e ↦ rw e (a, set_contains-IsIn k set e)
  | inr e ↦ rw e ((IsRooted-grow k set k r, IsRooted-grow-All k set set a), inl refl)
]

add_prefixes-AreRooted :
    (current : Text) (segments set : List Text)
    → All HasNoSlash segments
    → (is_empty current ≡ true) ⊎ IsIn current set
    → AreRooted set
    → AreRooted (add_prefixes current segments set)
unfolding add_prefixes
add_prefixes-AreRooted current [] set h c a = a
add_prefixes-AreRooted current (s ∷ segments) set h c a = elim (Bool-cases (is_empty s)) [
  | inl e ↦ rw e (add_prefixes-AreRooted current segments set h.1 c a)
  | inr e ↦
      let next =
        set_insert-AreRooted (joined current s) set a (joined-IsRooted current s set h.0 c) in
      rw e (
        add_prefixes-AreRooted (joined current s) segments (set_insert (joined current s) set) h.1
          (inr next.1) next.0)
]

add_parents-AreRooted :
    (parent : Text) (set : List Text) → AreRooted set → AreRooted (add_parents parent set)
add_parents-AreRooted parent set a = elim (Bool-cases (is_empty parent)) [
  | inl e ↦ rw e a
  | inr e ↦ rw e (add_prefixes-AreRooted [] (split b'/' parent) set (split-All parent) (inl refl) a)
]

pub unique_parents-AreRooted :
    (paths set : List Text) → AreRooted set → AreRooted (unique_parents paths set)
unfolding unique_parents
unique_parents-AreRooted [] set a = a
unique_parents-AreRooted (raw ∷ paths) set a =
    unique_parents-AreRooted paths (add_parents (parent_folder raw) set)
      (add_parents-AreRooted (parent_folder raw) set a)
