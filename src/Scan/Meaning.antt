-- ===== src/Scan/Meaning.antt =====
-- The meaning of the patterns of src/sync/scan.rs, and why one anchor is enough: a star can always
-- make up for a shorter run of the star in front of it.
use oxidrive.Base.{
  ℕ, zero, suc, ◌+◌, ◌≤◌, ◌≡◌, refl, sym, ap, ◌∙◌, Bool, true, false, not, ◌&&◌, ◌||◌, [], ◌∷◌,
  ◌++◌, ◌==◌, if◌then◌else◌, length, Bool-cases, &&-eq-true, inl, inr, arith,
}
use oxidrive.Text.{Text, is_empty}
use oxidrive.Scan.Glob.{fits}

-- Some rest of the text satisfies `k`, and no slash comes in front of it.
unfoldable pub some_rest : (Text → Bool) → Text → Bool
some_rest k [] = k []
some_rest k (c ∷ t) = k (c ∷ t) || (not (c == b'/') && some_rest k t)

-- The first character fits, and the rest satisfies `k`.
abbrev pub means_char : ℕ → (Text → Bool) → Text → Bool
means_char q k [] = false
means_char q k (c ∷ t) = fits q c && k t

-- The meaning of a pattern: a star stands for any text without a slash, `?` for any other character
-- than a slash, and any other character for itself.
unfoldable pub means : Text → Text → Bool
unfolding some_rest
means [] t = is_empty t
means (q ∷ p) t = if q == b'*' then some_rest (means p) t else means_char q (means p) t

slashes : Text → ℕ
slashes [] = 0
slashes (c ∷ t) = (if c == b'/' then 1 else 0) + slashes t

unfoldable pub skip_chars : ℕ → Text → Text
skip_chars zero t = t
skip_chars (suc n) [] = []
skip_chars (suc n) (c ∷ t) = skip_chars n t

-- The text starts with characters that these pattern characters stand for, one by one.
unfoldable pub literal : Text → Text → Bool
literal [] t = true
literal (q ∷ w) [] = false
literal (q ∷ w) (c ∷ t) = fits q c && literal w t

unfoldable pub starless : Text → Bool
starless [] = true
starless (q ∷ w) = not (q == b'*') && starless w

pub means-append :
    (w p t : Text)
    → starless w ≡ true
    → means (w ++ p) t ≡ (literal w t && means p (skip_chars (length w) t))
unfolding means literal starless skip_chars
means-append [] p t h = refl
means-append (q ∷ w) p [] h = ground arith
means-append (q ∷ w) p (c ∷ t) h = ground (arith, means-append w p t)

slashes-literal :
    (w t : Text)
    → literal w t ≡ true
    → (slashes t ≡ slashes w + slashes (skip_chars (length w) t)) × (length w ≤ length t)
unfolding slashes literal skip_chars
slashes-literal [] t h = (omega arith, omega arith)
slashes-literal (q ∷ w) [] h = cc
slashes-literal (q ∷ w) (c ∷ t) h = ground (arith, slashes-literal w t)

slashes-skip_chars : (n : ℕ) (t : Text) → slashes (skip_chars n t) ≤ slashes t
unfolding slashes skip_chars
slashes-skip_chars zero t = omega arith
slashes-skip_chars (suc n) [] = omega arith
slashes-skip_chars (suc n) (c ∷ t) = ground (arith, slashes-skip_chars n t)

-- Some rest satisfies `k` if and only if one does that is reached past no slash.
to-some_rest :
    (k : Text → Bool) (n : ℕ) (t : Text)
    → slashes t ≡ slashes (skip_chars n t)
    → k (skip_chars n t) ≡ true
    → some_rest k t ≡ true
unfolding some_rest skip_chars slashes
to-some_rest k zero [] s h = h
to-some_rest k zero (c ∷ t) s h = ground (arith, h)
to-some_rest k (suc n) [] s h = h
to-some_rest k (suc n) (c ∷ t) s h =
    let here = to-some_rest k n t in
    let low = slashes-skip_chars n t in
    elim (Bool-cases (c == b'/')) [
      | inl e ↦ absurd (ground (arith, e, s, low))
      | inr e ↦
          let s' : slashes t ≡ slashes (skip_chars n t) = ground (arith, e, s) in
          rw e (ground (arith, here s' h))
    ]

no_slash : (c : ℕ) (t : Text) → (c == b'/') ≡ false → slashes (c ∷ t) ≡ slashes t
unfolding slashes
no_slash c t d = ground (arith, d)

of-some_rest :
    (k : Text → Bool) (t : Text)
    → some_rest k t ≡ true
    → (n : ℕ) × (slashes t ≡ slashes (skip_chars n t)) × (k (skip_chars n t) ≡ true)
unfolding some_rest skip_chars slashes
of-some_rest k [] h = (0, refl, h)
of-some_rest k (c ∷ t) h = elim (Bool-cases (k (c ∷ t))) [
  | inl e ↦ (0, refl, e)
  | inr e ↦ elim (Bool-cases (c == b'/')) [
    | inl d ↦ ground (arith, e, d, h)
    | inr d ↦
        let (n, s, e') = of-some_rest k t (ground (arith, e, d, h)) in
        (suc n, no_slash c t d ∙ s, e')
  ]
]

pub skip_nil : (n : ℕ) → skip_chars n [] ≡ []
unfolding skip_chars
skip_nil zero = refl
skip_nil (suc n) = refl

zero_add : (m : ℕ) → m ≡ 0 + m
zero_add m = omega arith

suc_add : (n m : ℕ) → suc (n + m) ≡ suc n + m
suc_add n m = omega arith

skip_skip : (m n : ℕ) (t : Text) → skip_chars m (skip_chars n t) ≡ skip_chars (n + m) t
unfolding skip_chars
skip_skip m zero t = ap (λ i. skip_chars i t) (zero_add m)
skip_skip m (suc n) [] = skip_nil m ∙ sym (skip_nil (suc n + m))
skip_skip m (suc n) (c ∷ t) = skip_skip m n t ∙ ap (λ i. skip_chars i (c ∷ t)) (suc_add n m)

skip_swap : (m n : ℕ) (t : Text) → skip_chars m (skip_chars n t) ≡ skip_chars n (skip_chars m t)
skip_swap m n t =
    let swap : n + m ≡ m + n = omega arith in
    skip_skip m n t ∙ ap (λ i. skip_chars i t) swap ∙ sym (skip_skip n m t)

-- A later start can do no more than a star that follows the matched characters.
pub star_absorbs :
    (k : Text → Bool) (w t : Text)
    → starless w ≡ true
    → literal w t ≡ true
    → some_rest (λ s. literal w s && some_rest k (skip_chars (length w) s)) t ≡ true
    → some_rest k (skip_chars (length w) t) ≡ true
star_absorbs k w t q l h =
    let (n, s, e) = of-some_rest _ t h in
    let (lit, more) = &&-eq-true (literal w (skip_chars n t)) _ e in
    let (m, s', e') = of-some_rest k (skip_chars (length w) (skip_chars n t)) more in
    let here = (slashes-literal w t l).0 in
    let there = (slashes-literal w (skip_chars n t) lit).0 in
    let moved =
      ap (skip_chars m) (skip_swap (length w) n t) ∙ skip_skip m n (skip_chars (length w) t) in
    let same : slashes (skip_chars (length w) t)
        ≡ slashes (skip_chars (length w) (skip_chars n t)) =
      omega (arith, here, there, s) in
    to-some_rest k (n + m) (skip_chars (length w) t) (same ∙ s' ∙ ap slashes moved)
      (ap k (sym moved) ∙ e')
