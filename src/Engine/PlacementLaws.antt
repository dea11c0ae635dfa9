-- ===== src/Engine/PlacementLaws.antt =====
-- A place is always found, and it never hides another Drive file.
use oxidrive.Base.{
  ℕ, ◌≡◌, refl, sym, ap, ◌∙◌, ◌⊎◌, inl, inr, false, none, some, [], ◌∷◌, ◌++◌, ◌==◌, arith,
  if◌then◌else◌, Bool-cases, Option-cases,
}
use oxidrive.Text.{Text, text, text_eq, rsplit_once, contains_char}
use oxidrive.Text.Order.{text_eq_iff}
use oxidrive.Text.Decimal.{show_u64, show_u64-inj, contains_char-show_u64}
use oxidrive.TextMap.{TextMap, lookup}
use oxidrive.TextMap.Search.{first_free-total}
use oxidrive.Types.Path.{RelativePath, normalize_relative}
use oxidrive.Drive.{DriveFile}
use oxidrive.Engine.Placement.{dir_and_name, stem_and_ext, candidate, place_without_clobber}

append_cancel_left : (a b c : Text) → a ++ b ≡ a ++ c → b ≡ c
append_cancel_left [] b c h = h
append_cancel_left (x ∷ a) b c h = append_cancel_left a b c (ap tail h)
  where
    tail : Text → Text
    tail [] = []
    tail (y ∷ s) = s

normalize-append :
    (a b : Text) → normalize_relative (a ++ b) ≡ normalize_relative a ++ normalize_relative b
unfolding normalize_relative
normalize-append [] b = refl
normalize-append (x ∷ a) b = ap (λ s. (if x == b'\\' then b'/' else x) ∷ s) (normalize-append a b)

-- The text in front of the first closing parenthesis.
up_to_paren : Text → Text
up_to_paren [] = []
up_to_paren (c ∷ s) = let rest = up_to_paren s in if c == b')' then [] else c ∷ rest

up_to_paren-append :
    (s t : Text)
    → contains_char b')' s ≡ false
    → contains_char b'\\' s ≡ false
    → up_to_paren (normalize_relative (s ++ b')' ∷ t)) ≡ s
unfolding up_to_paren contains_char normalize_relative
up_to_paren-append [] t h g = refl
up_to_paren-append (c ∷ s) t h g = ground (arith, up_to_paren-append s t)

-- The number can be read off a candidate.
pub number-inj :
    (a b e : Text) (i j : ℕ)
    → normalize_relative (a ++ (b ++ (show_u64 i ++ b')' ∷ e)))
      ≡ normalize_relative (a ++ (b ++ (show_u64 j ++ b')' ∷ e)))
    → i ≡ j
number-inj a b e i j h =
    let si = show_u64 i ++ b')' ∷ e in
    let sj = show_u64 j ++ b')' ∷ e in
    let h1 =
      append_cancel_left (normalize_relative a) _ _
        (sym (normalize-append a (b ++ si)) ∙ h ∙ normalize-append a (b ++ sj)) in
    let h2 =
      append_cancel_left (normalize_relative b) _ _
        (sym (normalize-append b si) ∙ h1 ∙ normalize-append b sj) in
    let shown : show_u64 i ≡ show_u64 j =
      sym (
        up_to_paren-append (show_u64 i) e (contains_char-show_u64 b')' i refl)
          (contains_char-show_u64 b'\\' i refl))
      ∙ ap up_to_paren h2
      ∙ up_to_paren-append (show_u64 j) e (contains_char-show_u64 b')' j refl)
          (contains_char-show_u64 b'\\' j refl) in
    show_u64-inj i j shown

-- Two candidates of a path with different numbers differ.
candidate-inj : (path : RelativePath) (i j : ℕ) → candidate path i ≡ candidate path j → i ≡ j
unfolding candidate
candidate-inj path i j h =
    let parts = dir_and_name path (rsplit_once b'/' path) in
    let name = stem_and_ext parts.1 (rsplit_once b'.' parts.1) in
    number-inj parts.0 (name.0 ++ text " (") name.1 i j h

-- A Drive file is always given a path, and that path is free or is already this file's: no other Drive
-- file is hidden.
pub place_without_clobber_safe :
    (remote : TextMap DriveFile) (path : RelativePath) (file_id : Text)
    → (p : RelativePath) × (place_without_clobber remote path file_id ≡ some p)
      × ((lookup p remote ≡ none)
          ⊎ ((f : DriveFile) × (lookup p remote ≡ some f) × (f.id ≡ file_id)))
unfolding place_without_clobber
place_without_clobber_safe remote path file_id = elim (Option-cases (lookup path remote)) [
  | inl e ↦ (path, rw e refl, inl e)
  | inr (f, e) ↦ elim (Bool-cases (text_eq f.id file_id)) [
    | inl own ↦ (path, rw (e, own) refl, inr (f, e, (text_eq_iff f.id file_id).0 own))
    | inr foreign ↦
        let (p, g, absent) = first_free-total (candidate path) remote 2 (candidate-inj path) in
        (p, rw (e, foreign) g, inl absent)
  ]
]
