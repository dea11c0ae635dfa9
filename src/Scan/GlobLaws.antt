-- ===== src/Scan/GlobLaws.antt =====
-- `glob_match` of src/sync/scan.rs against the meaning of a pattern.
use mathlib.Core.Path.{subst}
use oxidrive.Base.{
  ℕ, zero, suc, ◌+◌, ◌*◌, ◌≤◌, ◌<◌, ◌≡◌, refl, sym, ap, ◌∙◌, Bool, false, Option, none, some, [],
  ◌∷◌, ◌==◌, length, Bool-cases, inl, inr, arith,
}
use oxidrive.Text.{Text, is_empty, trim_start_char}
use oxidrive.Scan.Glob.{fits, go_back, glob_loop, glob_fuel, glob_match}
use oxidrive.Scan.Meaning.{some_rest, means, skip_chars, skip_nil, literal, starless}
use oxidrive.Scan.Anchor.{
  only_stars, stuck_fails, Anchored, answer, advance-Anchored, anchor-Anchored, short_fails,
  not_here, length-skip_chars, anchored-means,
}

at_end :
    (sp : Option Text) (p st : Text)
    → Anchored sp p [] st
    → is_empty (trim_start_char b'*' p) ≡ answer sp p [] st
unfolding some_rest
at_end none p st h = only_stars p
at_end (some sp) p [] (w, s, o, l, k) =
    only_stars p ∙ sym (ap (λ x. means x []) s ∙ anchored-means w p [] [] o l k)
at_end (some sp) p (d ∷ rest) (w, s, o, l, k) =
    let at = ap (λ x. means x (d ∷ rest)) s ∙ anchored-means w p [] (d ∷ rest) o l k in
    let long = length-skip_chars (length w) (d ∷ rest) in
    let all : length (skip_chars (length w) (d ∷ rest)) ≡ 0 = ap length k in
    let later : some_rest (means sp) rest ≡ false =
      ap (λ x. some_rest (means x) rest) s ∙ short_fails w p rest o (omega (arith, long, all)) in
    ground (arith, only_stars p, at, later)

at_dead_end :
    (next : Text → Text → Option Bool) (sp : Option Text) (c : ℕ) (p t st : Text)
    → Anchored sp p (c ∷ t) st
    → means p (c ∷ t) ≡ false
    → ((q rest : Text)
        → sp ≡ some q
        → length st ≡ suc (length rest)
        → next q rest ≡ some (some_rest (means q) rest))
    → go_back next sp st ≡ some (answer sp p (c ∷ t) st)
at_dead_end next none c p t st h f next_lem = ap some (sym f)
at_dead_end next (some sp) c p t [] (w, s, o, l, k) f next_lem =
    let gone : [] ≡ c ∷ t = sym (skip_nil (length w)) ∙ k in cc
at_dead_end next (some sp) c p t (d ∷ rest) (w, s, o, l, k) f next_lem =
    let at : means sp (d ∷ rest) ≡ false =
      ap (λ x. means x (d ∷ rest)) s ∙ anchored-means w p (c ∷ t) (d ∷ rest) o l k ∙ f in
    let later = next_lem sp rest refl refl in
    elim (Bool-cases (d == b'/')) [
      | inl e ↦ rw (not_here (means sp) d rest at, go_back, e) refl
      | inr e ↦ rw (not_here (means sp) d rest at, go_back, e, later) refl
    ]

abbrev Within : ℕ → Option Text → Type 0
Within n none = Unit
Within n (some sp) = length sp ≤ n

times_mono : (a b n : ℕ) → a ≤ b → a * suc n ≤ b * suc n
times_mono zero b n h = omega arith
times_mono (suc a) zero n h = absurd (omega (arith, h))
times_mono (suc a) (suc b) n h = omega (arith, times_mono a b n (omega (arith, h)))

room : (a s n x l fuel : ℕ) → s ≡ suc a → s * suc n + x < suc fuel → l ≤ n → a * suc n + l < fuel
room a s n x l fuel e h g =
    let h' : suc a * suc n + x < suc fuel = subst (λ i. i * suc n + x < suc fuel) e h in
    omega (arith, h', g)

-- The fuel that is left is enough for a start at the next character.
again :
    (fuel n x : ℕ) (sp : Option Text) (st : Text)
    → Within n sp
    → length st * suc n + x < suc fuel
    → ((q rest : Text)
        → length q ≤ n
        → length rest * suc n + length q < fuel
        → glob_loop fuel rest q (some q) rest ≡ some (some_rest (means q) rest))
    → (q rest : Text) → sp ≡ some q
    → length st ≡ suc (length rest)
    → glob_loop fuel rest q (some q) rest ≡ some (some_rest (means q) rest)
again fuel n x sp st hs hf next q rest e le =
    let short : length q ≤ n = subst (Within n) e hs in
    next q rest short (room (length rest) (length st) n x (length q) fuel le hf short)

glob_loop-answer :
    (fuel n : ℕ) (sp : Option Text) (p t st : Text)
    → Anchored sp p t st
    → length p ≤ n
    → Within n sp
    → length t ≤ length st
    → length st * suc n + length p < fuel
    → glob_loop fuel t p sp st ≡ some (answer sp p t st)
unfolding glob_loop literal starless skip_chars
glob_loop-answer zero n sp p t st h hp hs ht hf = absurd (omega (arith, hf))
glob_loop-answer (suc fuel) n sp p [] st h hp hs ht hf = ap some (at_end sp p st h)
glob_loop-answer (suc fuel) n sp [] (c ∷ t) st h hp hs ht hf =
    at_dead_end (λ q rest. glob_loop fuel rest q (some q) rest) sp c [] t st h
      (stuck_fails c t [] refl)
      (again fuel n 0 sp st hs hf (λ x rest short left.
        glob_loop-answer fuel n (some x) x rest rest ([], refl, refl, refl, refl) short short
          (omega arith) left))
glob_loop-answer (suc fuel) n sp (q ∷ p) (c ∷ t) st h hp hs ht hf = elim (Bool-cases (q == b'*')) [
  | inl e ↦
      let (h', same) = anchor-Anchored sp q p (c ∷ t) st h e in
      rw (glob_loop, e)
        (glob_loop-answer fuel n (some p) p (c ∷ t) (c ∷ t) h' (omega (arith, hp))
            (omega (arith, hp)) (omega arith)
            (omega (arith, hf, times_mono (suc (length t)) (length st) n ht))
          ∙ ap some (sym same))
  | inr e ↦ elim (Bool-cases (fits q c)) [
    | inl f ↦
        let (h', same) = advance-Anchored sp q c p t st h e f in
        rw (glob_loop, e, f)
          (glob_loop-answer fuel n sp p t st h' (omega (arith, hp)) hs (omega (arith, ht))
              (omega (arith, hf))
            ∙ ap some (sym same))
    | inr f ↦
        rw (glob_loop, e, f)
          (at_dead_end (λ q' rest. glob_loop fuel rest q' (some q') rest) sp c (q ∷ p) t st h
            (stuck_fails c t (q ∷ p) (rw (e, f) refl))
            (again fuel n (suc (length p)) sp st hs hf (λ x rest short left.
              glob_loop-answer fuel n (some x) x rest rest ([], refl, refl, refl, refl) short short
                (omega arith) left)))
  ]
]

-- `glob_match` always ends, within the text's length times one more than the pattern's and a round for
-- each pattern character, and its answer is the meaning of the pattern: it matches
-- exactly when the characters of the pattern can stand for the text, a star for any run without a
-- slash, `?` for one character that is no slash, and any other character for itself. One anchor, for
-- the last star, is enough.
pub glob_match-means : (text pat : Text) → glob_match text pat ≡ some (means pat text)
unfolding glob_match
glob_match-means text pat =
    glob_loop-answer (glob_fuel text pat) (length pat) none pat text text (omega arith)
      (omega arith) tt (omega arith) (omega arith)
