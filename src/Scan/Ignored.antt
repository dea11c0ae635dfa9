-- ===== src/Scan/Ignored.antt =====
-- What every configuration ignores: `effective_ignore_patterns` of src/config.rs in src/sync/scan.rs.
use oxidrive.Base.{
  ℕ, ◌≡◌, refl, sym, ap, ◌∙◌, ◌⊎◌, inl, inr, Bool, true, false, ◌||◌, Option, none, some, List, [],
  ◌∷◌, ◌++◌, ◌==◌, arith, Bool-cases, Option-cases,
}
use oxidrive.Text.{Text, text, text_eq, starts_with, contains_char, rsplit_once, text_cmp}
use oxidrive.Text.Order.{text_eq_iff, text_eq_refl}
use oxidrive.Decision.{contains}
use oxidrive.Engine.Stub.{name_part}
use oxidrive.Scan.{
  base_name, pattern_matches, is_ignored, ensure_pattern, ensure_patterns, mandatory_patterns,
  effective_ignore_patterns, or_false,
}
use oxidrive.Scan.Meaning.{some_rest, means}
use oxidrive.Scan.GlobLaws.{glob_match-means}

-- The directory itself, and all that lies below it.
abbrev pub is_under : Text → Text → Bool
is_under directory path = text_eq path directory || starts_with path (directory ++ text "/")

-- The places of the program's own files.
abbrev pub is_internal : Text → Bool
is_internal path =
    is_under (text ".oxidrive") path
    || is_under (text ".index") path
    || is_under (text ".trash") path

contains-append :
    (xs ys : List Text) (x : Text) → contains xs x ≡ true → contains (xs ++ ys) x ≡ true
unfolding contains
contains-append [] ys x h = cc
contains-append (y ∷ xs) ys x h = ground (arith, h, contains-append xs ys x)

contains-last : (xs : List Text) (x : Text) → contains (xs ++ x ∷ []) x ≡ true
unfolding contains
contains-last [] x = ground (arith, text_eq_refl x)
contains-last (y ∷ xs) x = ground (arith, contains-last xs x)

ensure-keeps :
    (xs : List Text) (p x : Text) → contains xs x ≡ true → contains (ensure_pattern xs p) x ≡ true
unfolding ensure_pattern
ensure-keeps xs p x h = ground (arith, h, contains-append xs (p ∷ []) x)

ensure-has : (xs : List Text) (p : Text) → contains (ensure_pattern xs p) p ≡ true
unfolding ensure_pattern
ensure-has xs p = elim (Bool-cases (contains xs p)) [
  | inl e ↦ rw (e) e
  | inr e ↦ rw (e) (contains-last xs p)
]

ensure_patterns-keeps :
    (xs more : List Text) (x : Text)
    → contains xs x ≡ true
    → contains (ensure_patterns xs more) x ≡ true
ensure_patterns-keeps xs [] x h = h
ensure_patterns-keeps xs (p ∷ more) x h =
    ensure_patterns-keeps (ensure_pattern xs p) more x (ensure-keeps xs p x h)

ensure_patterns-has :
    (xs more : List Text) (x : Text)
    → contains more x ≡ true
    → contains (ensure_patterns xs more) x ≡ true
unfolding contains
ensure_patterns-has xs [] x h = cc
ensure_patterns-has xs (p ∷ more) x h = elim (Bool-cases (text_eq p x)) [
  | inl e ↦
      ensure_patterns-keeps (ensure_pattern xs p) more x
        (ap (contains (ensure_pattern xs p)) (sym ((text_eq_iff p x).0 e)) ∙ ensure-has xs p)
  | inr e ↦ ensure_patterns-has (ensure_pattern xs p) more x (ground (arith, e, h))
]

-- The mandatory patterns are among those in effect.
effective-has :
    (patterns : List Text) (token : Option Text) (x : Text)
    → contains mandatory_patterns x ≡ true
    → contains (effective_ignore_patterns patterns token) x ≡ true
unfolding effective_ignore_patterns
effective-has patterns none x h = ensure_patterns-has patterns mandatory_patterns x h
effective-has patterns (some t) x h =
    ensure-keeps (ensure_patterns patterns mandatory_patterns) t x
      (ensure_patterns-has patterns mandatory_patterns x h)

ignored-by :
    (path x : Text) (patterns : List Text)
    → contains patterns x ≡ true
    → pattern_matches path x ≡ true
    → is_ignored path patterns ≡ true
unfolding contains is_ignored
ignored-by path x [] h m = cc
ignored-by path x (p ∷ patterns) h m = elim (Bool-cases (text_eq p x)) [
  | inl e ↦ rw (ap (pattern_matches path) ((text_eq_iff p x).0 e) ∙ m) refl
  | inr e ↦ ground (arith, ignored-by path x patterns (ground (arith, e, h)) m)
]

part_pattern :
    (path : Text) → pattern_matches path (text "*.part") ≡ means (text "*.part") (base_name path)
unfolding pattern_matches text_cmp
part_pattern path = ap or_false (glob_match-means (base_name path) (text "*.part"))

-- A path below an internal directory matches the pattern of that directory.
internal_pattern :
    (path : Text)
    → is_internal path ≡ true
    → (x : Text) × (contains mandatory_patterns x ≡ true) × (pattern_matches path x ≡ true)
unfolding pattern_matches text_cmp contains
internal_pattern path h = elim (Bool-cases (is_under (text ".oxidrive") path)) [
  | inl a ↦ (text ".oxidrive/**", refl, a)
  | inr a ↦ elim (Bool-cases (is_under (text ".index") path)) [
    | inl b ↦ (text ".index/**", refl, b)
    | inr b ↦ (text ".trash/**", refl, ground (arith, h, a, b))
  ]
]

last-no_slash : (d : ℕ) (s : Text) → contains_char d (name_part s (rsplit_once d s)) ≡ false
unfolding contains_char rsplit_once
last-no_slash d [] = refl
last-no_slash d (c ∷ s) = elim (Option-cases (rsplit_once d s)) [
  | inr (parts, e) ↦ rw e (ap (λ o. contains_char d (name_part s o)) (sym e) ∙ last-no_slash d s)
  | inl e ↦
      let whole : contains_char d s ≡ false =
        ap (λ o. contains_char d (name_part s o)) (sym e) ∙ last-no_slash d s in
      elim (Bool-cases (c == d)) [
        | inl f ↦ rw (e, f) whole
        | inr f ↦ rw (e, f) (rw (f, whole) refl)
      ]
]

rest_after :
    (k : Text → Bool) (s t : Text)
    → contains_char b'/' s ≡ false
    → k t ≡ true
    → some_rest k (s ++ t) ≡ true
unfolding some_rest contains_char
rest_after k [] [] h g = g
rest_after k [] (c ∷ t) h g = ground (arith, g)
rest_after k (c ∷ s) t h g = ground (arith, h, rest_after k s t)

front-lacks : (d : ℕ) (s t : Text) → contains_char d (s ++ t) ≡ false → contains_char d s ≡ false
unfolding contains_char
front-lacks d [] t h = refl
front-lacks d (c ∷ s) t h = ground (arith, h, front-lacks d s t)

stem-no_slash :
    (path stem ending : Text) → base_name path ≡ stem ++ ending → contains_char b'/' stem ≡ false
stem-no_slash path stem ending e =
    let all : contains_char b'/' (stem ++ ending) ≡ false =
      ap (contains_char b'/') (sym e) ∙ last-no_slash b'/' path in
    front-lacks b'/' stem ending all

part_matches :
    (path stem : Text)
    → base_name path ≡ stem ++ text ".part"
    → pattern_matches path (text "*.part") ≡ true
unfolding means text_cmp
part_matches path stem e =
    part_pattern path
    ∙ ap (means (text "*.part")) e
    ∙ rest_after (means (text ".part")) stem (text ".part")
        (stem-no_slash path stem (text ".part") e) refl

-- Whatever patterns are configured, and wherever the token file lies, each path of `.oxidrive`, `.index` and
-- `.trash`, and each file whose name ends in `.part`, matches an ignore pattern in effect.
pub internal_is_ignored :
    (path : Text) (patterns : List Text) (token : Option Text)
    → (is_internal path ≡ true) ⊎ ((stem : Text) × (base_name path ≡ stem ++ text ".part"))
    → is_ignored path (effective_ignore_patterns patterns token) ≡ true
unfolding contains text_cmp
internal_is_ignored path patterns token (inl h) =
    let (x, mandatory, m) = internal_pattern path h in
    ignored-by path x _ (effective-has patterns token x mandatory) m
internal_is_ignored path patterns token (inr (stem, e)) =
    ignored-by path (text "*.part") _ (effective-has patterns token (text "*.part") refl)
      (part_matches path stem e)
