-- ===== src/Scan/Anchor.antt =====
-- What the anchor of `glob_match` in src/sync/scan.rs means for the pattern, and that each kind of
-- iteration keeps it.
use oxidrive.Base.{
  ℕ, zero, suc, ◌+◌, ◌≤◌, ◌<◌, ◌≡◌, refl, sym, ap, ◌∙◌, Bool, true, false, not, ◌&&◌, Option, none,
  some, [], ◌∷◌, ◌++◌, ◌==◌, length, &&-eq-true, arith,
}
use oxidrive.Text.{Text, is_empty, trim_start_char}
use oxidrive.Scan.Glob.{fits, GlobStep, glob_step}
use oxidrive.Scan.Meaning.{
  some_rest, means, means-append, skip_chars, literal, starless, star_absorbs,
}

bool_ext : (a b : Bool) → (a ≡ true → b ≡ true) → (b ≡ true → a ≡ true) → a ≡ b
bool_ext a b f g = ground (arith, f, g)

pub here_first : (k : Text → Bool) (t : Text) → k t ≡ true → some_rest k t ≡ true
unfolding some_rest
here_first k [] h = h
here_first k (c ∷ t) h = ground (arith, h)

pub not_here :
    (k : Text → Bool) (d : ℕ) (t : Text)
    → k (d ∷ t) ≡ false
    → some_rest k (d ∷ t) ≡ (not (d == b'/') && some_rest k t)
unfolding some_rest
not_here k d t h = rw h refl

some_rest_cong :
    (k l : Text → Bool) (t : Text) → ((s : Text) → k s ≡ l s) → some_rest k t ≡ some_rest l t
some_rest_cong k l t e = ap (λ f. some_rest f t) (λ i s. e s i)

-- Only stars are left, if the pattern matches the empty text.
pub only_stars : (p : Text) → is_empty (trim_start_char b'*' p) ≡ means p []
unfolding means some_rest trim_start_char
only_stars [] = refl
only_stars (q ∷ p) = ground (arith, only_stars p)

-- No step is possible, so the rest of the pattern does not match.
pub stuck_fails :
    (c : ℕ) (t p : Text) → glob_step c p ≡ GlobStep.backtrack → means p (c ∷ t) ≡ false
unfolding means
stuck_fails c t [] h = refl
stuck_fails c t (q ∷ p) h = ground (arith, h)

literal-snoc :
    (w st : Text) (q c : ℕ) (t : Text)
    → literal w st ≡ true
    → skip_chars (length w) st ≡ c ∷ t
    → fits q c ≡ true
    → (literal (w ++ q ∷ []) st ≡ true) × (skip_chars (length (w ++ q ∷ [])) st ≡ t)
unfolding literal skip_chars
literal-snoc [] [] q c t l e f = cc
literal-snoc [] (b ∷ st) q c t l e f =
    let bc : b ≡ c = cc in let rest : st ≡ t = cc in (rw bc (ground (arith, f)), rest)
literal-snoc (x ∷ w) [] q c t l e f = cc
literal-snoc (x ∷ w) (b ∷ st) q c t l e f =
    let (lx, lw) = &&-eq-true (fits x b) (literal w st) l in
    let (a, r) = literal-snoc w st q c t lw e f in (rw (lx, a) refl, r)

starless-snoc :
    (w : Text) (q : ℕ) → starless w ≡ true → (q == b'*') ≡ false → starless (w ++ q ∷ []) ≡ true
unfolding starless
starless-snoc [] q h e = ground (arith, e)
starless-snoc (x ∷ w) q h e = ground (arith, h, starless-snoc w q)

short_literal : (w t : Text) → length t < length w → literal w t ≡ false
unfolding literal
short_literal [] t h = absurd (omega (arith, h))
short_literal (q ∷ w) [] h = refl
short_literal (q ∷ w) (c ∷ t) h = ground (arith, short_literal w t (omega (arith, h)))

short_means : (w p t : Text) → starless w ≡ true → length t < length w → means (w ++ p) t ≡ false
short_means w p t q h = rw (means-append w p t q, short_literal w t h) refl

-- A text that is shorter than the literal part does not match, and no rest of it does.
pub short_fails :
    (w p t : Text) → starless w ≡ true → length t < length w → some_rest (means (w ++ p)) t ≡ false
unfolding some_rest
short_fails w p [] q h = short_means w p [] q h
short_fails w p (c ∷ t) q h =
    ground (arith, short_means w p (c ∷ t) q h, short_fails w p t q (omega (arith, h)))

pub length-skip_chars : (n : ℕ) (t : Text) → length t ≤ n + length (skip_chars n t)
unfolding skip_chars
length-skip_chars zero t = omega arith
length-skip_chars (suc n) [] = omega arith
length-skip_chars (suc n) (c ∷ t) = omega (arith, length-skip_chars n t)

pub skip_chars_shortens : (n : ℕ) (t : Text) → length (skip_chars n t) ≤ length t
unfolding skip_chars
skip_chars_shortens zero t = omega arith
skip_chars_shortens (suc n) [] = omega arith
skip_chars_shortens (suc n) (c ∷ t) = omega (arith, skip_chars_shortens n t)

-- Where the loop stands: without an anchor it looks for the rest of the pattern, and with one the
-- pattern behind the star starts with characters that the text since the anchor fits.
abbrev pub Anchored : Option Text → Text → Text → Text → Type 0
Anchored none p t st = length t ≤ length st
Anchored (some sp) p t st =
    (w : Text) × (sp ≡ w ++ p)
    × (starless w ≡ true)
    × (literal w st ≡ true)
    × (skip_chars (length w) st ≡ t)

abbrev pub answer : Option Text → Text → Text → Text → Bool
answer none p t st = means p t
answer (some sp) p t st = some_rest (means sp) st

pub anchored-means :
    (w p t st : Text)
    → starless w ≡ true
    → literal w st ≡ true
    → skip_chars (length w) st ≡ t
    → means (w ++ p) st ≡ means p t
anchored-means w p t st q l e = rw (means-append w p st q, l, e) refl

append-snoc : (w : Text) (q : ℕ) (p : Text) → w ++ q ∷ p ≡ (w ++ q ∷ []) ++ p
append-snoc [] q p = refl
append-snoc (x ∷ w) q p = ap (λ r. x ∷ r) (append-snoc w q p)

pub advance-Anchored :
    (sp : Option Text) (q c : ℕ) (p t st : Text)
    → Anchored sp (q ∷ p) (c ∷ t) st
    → (q == b'*') ≡ false
    → fits q c ≡ true
    → Anchored sp p t st × (answer sp (q ∷ p) (c ∷ t) st ≡ answer sp p t st)
unfolding means
advance-Anchored none q c p t st h e f = (omega (arith, h), rw (e, f) refl)
advance-Anchored (some sp) q c p t st (w, s, o, l, k) e f =
    let (l', k') = literal-snoc w st q c t l k f in
    ((w ++ q ∷ [], s ∙ append-snoc w q p, starless-snoc w q o e, l', k'), refl)

pub anchor-Anchored :
    (sp : Option Text) (q : ℕ) (p t st : Text)
    → Anchored sp (q ∷ p) t st
    → (q == b'*') ≡ true
    → Anchored (some p) p t t × (answer sp (q ∷ p) t st ≡ some_rest (means p) t)
unfolding means literal starless skip_chars
anchor-Anchored none q p t st h e = (([], refl, refl, refl, refl), rw e refl)
anchor-Anchored (some sp) q p t st (w, s, o, l, k) e =
    let star : (u : Text) → means (q ∷ p) u ≡ some_rest (means p) u = λ u. rw e refl in
    let at : means sp st ≡ some_rest (means p) t =
      ap (λ x. means x st) s ∙ anchored-means w (q ∷ p) t st o l k ∙ star t in
    let all : (u : Text)
        → means sp u ≡ (literal w u && some_rest (means p) (skip_chars (length w) u)) =
      λ u.
        ap (λ x. means x u) s
        ∙ means-append w (q ∷ p) u o
        ∙ ap (λ b. literal w u && b) (star (skip_chars (length w) u)) in
    (
      ([], refl, refl, refl, refl),
      bool_ext _ _
          (λ h.
            ap (some_rest (means p)) (sym k)
            ∙ star_absorbs (means p) w st o l (sym (some_rest_cong _ _ st all) ∙ h))
          (λ h. here_first (means sp) st (at ∙ h)),
    )
