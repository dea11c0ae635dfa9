-- ===== src/Scan/Glob.antt =====
-- `glob_match` of src/sync/scan.rs: a matcher with one anchor to go back to. The indices into the
-- text and the pattern are the rests of both, and the anchor is the rests behind the last star.
use oxidrive.Base.{
  ℕ, zero, suc, ◌+◌, ◌*◌, Bool, true, false, not, ◌&&◌, ◌||◌, Option, none, some, [], ◌∷◌, ◌==◌,
  if◌then◌else◌, length,
}
use oxidrive.Text.{Text, is_empty, trim_start_char}

-- One pattern character that is no star, at one character of the text.
abbrev pub fits : ℕ → ℕ → Bool
fits q c = q == c || (q == b'?' && not (c == b'/'))

-- What an iteration does at a character of the text: a step, a new anchor, or back to the anchor.
pub data GlobStep : Type 0 where
  advance : Text → GlobStep
  anchor : Text → GlobStep
  backtrack : GlobStep

abbrev pub glob_step : ℕ → Text → GlobStep
glob_step c [] = backtrack
glob_step c (q ∷ p) = if q == b'*' then anchor p else if fits q c then advance p else backtrack

-- Back to the anchor, if there is one: the star takes one character more, unless that is a slash.
-- None for an index that lies outside of the text.
abbrev pub go_back : (Text → Text → Option Bool) → Option Text → Text → Option Bool
go_back next none star_t = some false
go_back next (some sp) [] = none
go_back next (some sp) (d ∷ rest) = elim (d == b'/') [ true ↦ some false | false ↦ next sp rest ]

-- The loops of `glob_match`, or none if the fuel runs out.
unfoldable pub glob_loop : ℕ → Text → Text → Option Text → Text → Option Bool
unfolding trim_start_char
glob_loop zero t p star_p star_t = none
glob_loop (suc fuel) [] p star_p star_t = some (is_empty (trim_start_char b'*' p))
glob_loop (suc fuel) (c ∷ t) p star_p star_t = elim (glob_step c p) [
  | advance p' ↦ glob_loop fuel t p' star_p star_t
  | anchor p' ↦ glob_loop fuel (c ∷ t) p' (some p') (c ∷ t)
  | backtrack ↦ go_back (λ sp rest. glob_loop fuel rest sp (some sp) rest) star_p star_t
]

-- A round at each pair of a position in the text and one in the pattern.
abbrev pub glob_fuel : Text → Text → ℕ
glob_fuel text pat = suc (length text * suc (length pat) + length pat)

unfoldable pub glob_match : Text → Text → Option Bool
unfolding glob_loop
glob_match text pat = glob_loop (glob_fuel text pat) text pat none text
