-- ===== src/Drive/Query.antt =====
-- `escape_drive_query_value` of src/drive/folders.rs, which puts names and ids into Drive's queries.
use oxidrive.Base.{
  ℕ, ◌≡◌, refl, sym, ◌∙◌, ap, false, Option, none, some, [], ◌∷◌, ◌++◌, ◌==◌, arith, if◌then◌else◌,
  Bool-cases, inl, inr,
}
use oxidrive.Text.{Text}

-- `str::replace` of one character by a text.
unfoldable pub replace_char : ℕ → Text → Text → Text
replace_char d by [] = []
replace_char d by (c ∷ s) =
    let rest = replace_char d by s in if c == d then by ++ rest else c ∷ rest

unfoldable pub escape_drive_query_value : Text → Text
unfolding replace_char
escape_drive_query_value value =
    replace_char b'\'' (b'\\' ∷ b'\'' ∷ []) (replace_char b'\\' (b'\\' ∷ b'\\' ∷ []) value)

abbrev also : ℕ → Option (Text × Text) → Option (Text × Text)
also c none = none
also c (some (value, rest)) = some (c ∷ value, rest)

-- How a query is read behind the quote that opens a literal: a backslash takes the next character as
-- it stands, and a quote ends the literal.
abbrev pub read_literal : Text → Option (Text × Text)
read_literal [] = none
read_literal (c ∷ []) = if c == b'\'' then some ([], []) else none
read_literal (c ∷ d ∷ s) =
    if c == b'\''
    then some ([], d ∷ s)
    else if c == b'\\'
    then also d (read_literal s)
    else also c (read_literal (d ∷ s))

read_plain :
    (c : ℕ) (s : Text)
    → (c == b'\'') ≡ false
    → (c == b'\\') ≡ false
    → read_literal (c ∷ s) ≡ also c (read_literal s)
read_plain c [] e f = rw e refl
read_plain c (d ∷ s) e f = rw (e, f) refl

-- A literal with an escaped value is read as that value, and ends where the escaped value does: no
-- name and no id can end the literal early or change the query behind it.
pub read_literal-escape_drive_query_value :
    (value rest : Text)
    → read_literal (escape_drive_query_value value ++ b'\'' ∷ rest) ≡ some (value, rest)
unfolding escape_drive_query_value
read_literal-escape_drive_query_value [] [] = refl
read_literal-escape_drive_query_value [] (c ∷ rest) = refl
read_literal-escape_drive_query_value (c ∷ value) rest =
    let back = read_literal-escape_drive_query_value value rest in
    elim (Bool-cases (c == b'\\')) [
      | inl e ↦
          let q : c ≡ b'\\' = ground (arith, e) in
          rw e (ap (also b'\\') back ∙ ap (λ k. some (k ∷ value, rest)) (sym q))
      | inr e ↦ elim (Bool-cases (c == b'\'')) [
        | inl f ↦
            let q : c ≡ b'\'' = ground (arith, f) in
            rw (e, replace_char, f)
              (ap (also b'\'') back ∙ ap (λ k. some (k ∷ value, rest)) (sym q))
        | inr f ↦ rw (e, replace_char, f) (read_plain c _ f e ∙ ap (also c) back)
      ]
    ]
