-- ===== src/Drive/FoldersNeeded.antt =====
-- Every directory of a new file's path is one of the needed folders.
use mathlib.Core.Path.{subst}
use oxidrive.Base.{
  ℕ, ◌≡◌, refl, sym, ap, ◌∙◌, ◌⊎◌, inl, inr, false, some, List, [], ◌∷◌, ◌++◌, ◌==◌, All, IsIn,
  arith, if◌then◌else◌, Bool-cases, Option-cases,
}
use oxidrive.Text.{
  Text, is_empty, split, cons_head, rsplit_once, trim_start_char, trim_end_char, trim_cons_char,
}
use oxidrive.Drive.Folders.{
  normalize_relative_path, parent_or_empty, set_contains, set_insert, joined, add_prefixes,
  add_parents, parent_folder, unique_parents, collect_parent_folders, trim_slashes,
}
use oxidrive.Drive.FoldersLaws.{sort_paths-IsIn}
use oxidrive.Drive.FoldersRooted.{set_contains-IsIn}

abbrev pub nonempty : List Text → List Text
nonempty [] = []
nonempty (s ∷ l) = if is_empty s then nonempty l else s ∷ nonempty l

abbrev pub join_onto : Text → List Text → Text
join_onto current [] = current
join_onto current (s ∷ l) = join_onto (current ++ b'/' ∷ s) l

abbrev pub join : List Text → Text
join [] = []
join (s ∷ l) = join_onto s l

-- The directory that a text names: its segments that are not empty, with a slash between any two.
abbrev pub directory : Text → Text
directory k = join (nonempty (split b'/' k))

append_nil : {A : Type 0} (l : List A) → l ++ [] ≡ l
append_nil [] = refl
append_nil (x ∷ l) = ap (λ r. x ∷ r) (append_nil l)

nonempty-append : (a b : List Text) → nonempty (a ++ b) ≡ nonempty a ++ nonempty b
nonempty-append [] b = refl
nonempty-append (s ∷ a) b = ground (arith, nonempty-append a b)

split-cons : (d : ℕ) (s : Text) → (h : Text) × (t : List Text) × (split d s ≡ h ∷ t)
unfolding split
split-cons d [] = ([], [], refl)
split-cons d (c ∷ s) = elim (Bool-cases (c == d)) [
  | inl e ↦ ([], split d s, rw e refl)
  | inr e ↦ let (h, t, f) = split-cons d s in (c ∷ h, t, rw (e, f) refl)
]

cons_head-append :
    (d c : ℕ) (s : Text) (r : List Text)
    → cons_head c (split d s ++ r) ≡ cons_head c (split d s) ++ r
cons_head-append d c s r = let (h, t, f) = split-cons d s in rw f refl

split-append : (d : ℕ) (s t : Text) → split d (s ++ d ∷ t) ≡ split d s ++ split d t
unfolding split
split-append d [] t = ground arith
split-append d (c ∷ s) t = elim (Bool-cases (c == d)) [
  | inl e ↦ rw e (ap (λ l. [] ∷ l) (split-append d s t))
  | inr e ↦ rw e (ap (cons_head c) (split-append d s t) ∙ cons_head-append d c s (split d t))
]

trim_start-segments :
    (s : Text) → nonempty (split b'/' (trim_start_char b'/' s)) ≡ nonempty (split b'/' s)
unfolding trim_start_char split
trim_start-segments [] = refl
trim_start-segments (c ∷ s) = elim (Bool-cases (c == b'/')) [
  | inl e ↦ rw e (trim_start-segments s)
  | inr e ↦ ground (arith, e)
]

-- Slashes at the end are empty segments.
trim_end-split :
    (s : Text)
    → (es : List Text) × (split b'/' s ≡ split b'/' (trim_end_char b'/' s) ++ es)
      × (nonempty es ≡ [])
unfolding trim_end_char split
trim_end-split [] = ([], refl, refl)
trim_end-split (c ∷ s) = go (trim_end_char b'/' s) (trim_end-split s)
  where
    go :
        (t : Text)
        → ((es : List Text) × (split b'/' s ≡ split b'/' t ++ es) × (nonempty es ≡ []))
        → (es : List Text) × (split b'/' (c ∷ s) ≡ split b'/' (trim_cons_char b'/' c t) ++ es)
          × (nonempty es ≡ [])
    go [] (es, e, n) = elim (Bool-cases (c == b'/')) [
      | inl q ↦ ([] ∷ es, rw (q, e) refl, n)
      | inr q ↦ (es, ground (arith, q, e), n)
    ]
    go (b ∷ t) (es, e, n) = elim (Bool-cases (c == b'/')) [
      | inl q ↦ (es, rw (q, e) refl, n)
      | inr q ↦ (es, rw (q, e) (cons_head-append b'/' c (b ∷ t) es), n)
    ]

trim_end-segments :
    (s : Text) → nonempty (split b'/' (trim_end_char b'/' s)) ≡ nonempty (split b'/' s)
trim_end-segments s =
    let (es, e, n) = trim_end-split s in
    sym (
      ap nonempty e
      ∙ nonempty-append (split b'/' (trim_end_char b'/' s)) es
      ∙ ap (λ l. nonempty (split b'/' (trim_end_char b'/' s)) ++ l) n
      ∙ append_nil (nonempty (split b'/' (trim_end_char b'/' s))))

trim_slashes-segments :
    (s : Text) → nonempty (split b'/' (trim_slashes s)) ≡ nonempty (split b'/' s)
trim_slashes-segments s = trim_end-segments (trim_start_char b'/' s) ∙ trim_start-segments s

rsplit_once-grow :
    (d : ℕ) (s t u v : Text)
    → rsplit_once d t ≡ some (u, v)
    → rsplit_once d (s ++ t) ≡ some (s ++ u, v)
unfolding rsplit_once
rsplit_once-grow d [] t u v h = h
rsplit_once-grow d (c ∷ s) t u v h = rw (rsplit_once-grow d s t u v h) refl

rsplit_once-here :
    (d : ℕ) (t : Text)
    → (rsplit_once d (d ∷ t) ≡ some ([], t))
      ⊎ ((u : Text) × (v : Text) × (rsplit_once d (d ∷ t) ≡ some (d ∷ u, v)))
unfolding rsplit_once
rsplit_once-here d t = elim (Option-cases (rsplit_once d t)) [
  | inl e ↦ inl (ground (arith, e))
  | inr ((u, v), e) ↦ inr (u, v, rw e refl)
]

-- The last slash stands behind every other one.
rsplit_once-behind :
    (k rest : Text)
    → (more : List Text) × (nonempty
          (split b'/' (parent_or_empty (rsplit_once b'/' (k ++ b'/' ∷ rest))))
        ≡ nonempty (split b'/' k) ++ more)
rsplit_once-behind k rest = elim (rsplit_once-here b'/' rest) [
  | inl e ↦ (
    [],
    rw (rsplit_once-grow b'/' k (b'/' ∷ rest) [] rest e) (
        ap (λ t. nonempty (split b'/' t)) (append_nil k)
        ∙ sym (append_nil (nonempty (split b'/' k)))),
  )
  | inr (u, v, e) ↦ (
    nonempty (split b'/' u),
    rw (rsplit_once-grow b'/' k (b'/' ∷ rest) (b'/' ∷ u) v e)
        (ap nonempty (split-append b'/' k u) ∙ nonempty-append (split b'/' k) (split b'/' u)),
  )
]

parent_folder-segments :
    (raw k rest : Text)
    → normalize_relative_path raw ≡ k ++ b'/' ∷ rest
    → (more : List Text) × (nonempty (split b'/' (parent_folder raw))
        ≡ nonempty (split b'/' k) ++ more)
unfolding parent_folder
parent_folder-segments raw k rest h =
    let (more, e) = rsplit_once-behind k rest in
    (
      more,
      trim_slashes-segments (parent_or_empty (rsplit_once b'/' (normalize_relative_path raw)))
          ∙ ap (λ t. nonempty (split b'/' (parent_or_empty (rsplit_once b'/' t)))) h
          ∙ e,
    )

-- What is in the set stays there.
set_insert-keeps : (x k : Text) (set : List Text) → IsIn x set → IsIn x (set_insert k set)
set_insert-keeps x k set i = elim (Bool-cases (set_contains k set)) [
  | inl e ↦ rw e i
  | inr e ↦ rw e (inr i)
]

set_insert-IsIn : (k : Text) (set : List Text) → IsIn k (set_insert k set)
set_insert-IsIn k set = elim (Bool-cases (set_contains k set)) [
  | inl e ↦ rw e (set_contains-IsIn k set e)
  | inr e ↦ rw e (inl refl)
]

add_prefixes-keeps :
    (x current : Text) (segments set : List Text)
    → IsIn x set
    → IsIn x (add_prefixes current segments set)
unfolding add_prefixes
add_prefixes-keeps x current [] set i = i
add_prefixes-keeps x current (s ∷ segments) set i = elim (Bool-cases (is_empty s)) [
  | inl e ↦ rw e (add_prefixes-keeps x current segments set i)
  | inr e ↦ rw e (
      add_prefixes-keeps x (joined current s) segments (set_insert (joined current s) set)
        (set_insert-keeps x (joined current s) set i))
]

add_prefixes-nonempty :
    (current : Text) (segments set : List Text)
    → add_prefixes current segments set ≡ add_prefixes current (nonempty segments) set
unfolding add_prefixes
add_prefixes-nonempty current [] set = refl
add_prefixes-nonempty current (s ∷ segments) set = elim (Bool-cases (is_empty s)) [
  | inl e ↦ rw e (add_prefixes-nonempty current segments set)
  | inr e ↦
      rw (e, e)
        (add_prefixes-nonempty (joined current s) segments (set_insert (joined current s) set))
]

abbrev AreFilled : List Text → Type 0
AreFilled l = All (λ s. is_empty s ≡ false) l

nonempty-AreFilled : (l : List Text) → AreFilled (nonempty l)
nonempty-AreFilled [] = tt
nonempty-AreFilled (s ∷ l) = elim (Bool-cases (is_empty s)) [
  | inl e ↦ rw e (nonempty-AreFilled l)
  | inr e ↦ rw e (e, nonempty-AreFilled l)
]

is_empty-append : (s t : Text) (c : ℕ) → is_empty (s ++ c ∷ t) ≡ false
is_empty-append [] t c = refl
is_empty-append (b ∷ s) t c = refl

add_prefixes-join_onto :
    (current : Text) (front back set : List Text)
    → is_empty current ≡ false
    → AreFilled front
    → IsIn current set
    → IsIn (join_onto current front) (add_prefixes current (front ++ back) set)
unfolding add_prefixes
add_prefixes-join_onto current [] back set f a i = add_prefixes-keeps current current back set i
add_prefixes-join_onto current (s ∷ front) back set f (g, a) i =
    let next : Text = current ++ b'/' ∷ s in
    rw (f, g)
      (add_prefixes-join_onto next front back (set_insert next set) (is_empty-append current s b'/')
        a (set_insert-IsIn next set))

add_prefixes-join :
    (front back set : List Text)
    → AreFilled front
    → is_empty (join front) ≡ false
    → IsIn (join front) (add_prefixes [] (front ++ back) set)
unfolding add_prefixes
add_prefixes-join [] back set a h = cc
add_prefixes-join (s ∷ front) back set (g, a) h =
    rw g (add_prefixes-join_onto s front back (set_insert s set) g a (set_insert-IsIn s set))

add_parents-keeps :
    (x parent : Text) (set : List Text) → IsIn x set → IsIn x (add_parents parent set)
add_parents-keeps x parent set i = elim (Bool-cases (is_empty parent)) [
  | inl e ↦ rw e i
  | inr e ↦ rw e (add_prefixes-keeps x [] (split b'/' parent) set i)
]

unique_parents-keeps :
    (x : Text) (paths set : List Text) → IsIn x set → IsIn x (unique_parents paths set)
unfolding unique_parents
unique_parents-keeps x [] set i = i
unique_parents-keeps x (raw ∷ paths) set i =
    unique_parents-keeps x paths (add_parents (parent_folder raw) set)
      (add_parents-keeps x (parent_folder raw) set i)

add_parents-directory :
    (raw k rest : Text) (set : List Text)
    → normalize_relative_path raw ≡ k ++ b'/' ∷ rest
    → is_empty (directory k) ≡ false
    → IsIn (directory k) (add_parents (parent_folder raw) set)
unfolding split
add_parents-directory raw k rest set h f =
    go (parent_folder raw) (parent_folder-segments raw k rest h)
  where
    front : List Text
    front = nonempty (split b'/' k)

    go :
        (parent : Text)
        → ((more : List Text) × (nonempty (split b'/' parent) ≡ front ++ more))
        → IsIn (directory k) (add_parents parent set)
    go [] (more, e) = absurd (none_left front more e f)
      where
        none_left : (l more : List Text) → [] ≡ l ++ more → is_empty (join l) ≡ false → ⊥
        none_left [] more e f = cc
        none_left (s ∷ l) more e f = cc
    go (c ∷ parent) (more, e) =
        subst (λ l. IsIn (directory k) l)
          (sym (
            add_prefixes-nonempty [] (split b'/' (c ∷ parent)) set
            ∙ ap (λ l. add_prefixes [] l set) e))
          (add_prefixes-join front more set (nonempty-AreFilled (split b'/' k)) f)

unique_parents-directory :
    (raw k rest : Text) (paths set : List Text)
    → IsIn raw paths
    → normalize_relative_path raw ≡ k ++ b'/' ∷ rest
    → is_empty (directory k) ≡ false
    → IsIn (directory k) (unique_parents paths set)
unfolding unique_parents
unique_parents-directory raw k rest [] set i h f = absurd i
unique_parents-directory raw k rest (p ∷ paths) set (inl e) h f =
    unique_parents-keeps (directory k) paths (add_parents (parent_folder p) set) (
      subst (λ q. IsIn (directory k) (add_parents (parent_folder q) set)) e
        (add_parents-directory raw k rest set h f))
unique_parents-directory raw k rest (p ∷ paths) set (inr i) h f =
    unique_parents-directory raw k rest paths (add_parents (parent_folder p) set) i h f

-- A directory of one of the paths is among the needed folders.
pub collect-directory :
    (raw k rest : Text) (paths : List Text)
    → IsIn raw paths
    → normalize_relative_path raw ≡ k ++ b'/' ∷ rest
    → is_empty (directory k) ≡ false
    → IsIn (directory k) (collect_parent_folders paths)
unfolding collect_parent_folders
collect-directory raw k rest paths i h f =
    sort_paths-IsIn (directory k) (unique_parents paths [])
      (unique_parents-directory raw k rest paths [] i h f)
