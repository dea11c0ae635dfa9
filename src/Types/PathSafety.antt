-- ===== src/Types/PathSafety.antt =====
-- A path that passes `is_safe_non_empty` stays below the directory that it is joined to.
use mathlib.Core.List.{reverse, append_assoc, reverse-append}
use oxidrive.Base.{◌≡◌, refl, ap, ◌∙◌, sym, true, List, [], ◌∷◌, ◌++◌, arith, if◌then◌else◌, ◌||◌}
use oxidrive.Text.{Text, text, text_eq, is_empty, split}
use oxidrive.Types.Path.{
  segments_safe, is_safe_normalized_relative, is_safe_non_empty, RelativePath,
}

abbrev parent : List Text → List Text
parent [] = []
parent (d ∷ ds) = ds

abbrev enter : Text → List Text → List Text
enter segment dir =
    if is_empty segment || text_eq segment (text ".")
    then dir
    else if text_eq segment (text "..")
    then parent dir
    else segment ∷ dir

-- Where the operating system ends up from the directory `dir`, the innermost name first.
abbrev pub walk : List Text → List Text → List Text
walk dir [] = dir
walk dir (segment ∷ rest) = walk (enter segment dir) rest

proper_segment :
    (s : Text) (segments : List Text)
    → segments_safe (s ∷ segments) ≡ true
    → ((dir : List Text) → enter s dir ≡ s ∷ dir) × (segments_safe segments ≡ true)
unfolding segments_safe
proper_segment s segments h = (λ dir. ground arith, ground arith)

walk-segments_safe :
    (segments dir : List Text)
    → segments_safe segments ≡ true
    → walk dir segments ≡ reverse segments ++ dir
unfolding segments_safe
walk-segments_safe [] dir h = refl
walk-segments_safe (s ∷ segments) dir h =
    let (proper, rest) = proper_segment s segments h in
    ap (λ (d : List Text). walk d segments) (proper dir)
    ∙ (walk-segments_safe segments (s ∷ dir) rest
        ∙ sym (append_assoc (reverse segments) (s ∷ []) dir)
        ∙ ap (λ (l : List Text). l ++ dir) (sym (reverse-append (s ∷ []) segments)))

-- A safe path that is not empty never leaves the directory that it is joined to: whatever that is, the walk over the
-- path's segments only descends, into exactly these segments.
pub safe_path_descends :
    (p : RelativePath) (dir : List Text)
    → is_safe_non_empty p ≡ true
    → walk dir (split b'/' p) ≡ reverse (split b'/' p) ++ dir
unfolding is_safe_normalized_relative
safe_path_descends p dir h = walk-segments_safe (split b'/' p) dir (ground arith)
