-- ===== src/Text/Split.antt =====
-- Trimming and splitting of texts that are built from parts without the separator.
use oxidrive.Base.{ℕ, suc, ◌≤◌, ◌≡◌, refl, ap, false, some, [], ◌∷◌, ◌++◌, arith, length, All}
use oxidrive.Text.{
  Text, is_whitespace, trim_start, trim_end, trim_cons, trim, split, split_once, contains_char,
}

length-trim_start : (s : Text) → length (trim_start s) ≤ length s
unfolding trim_start
length-trim_start [] = omega arith
length-trim_start (c ∷ s) = ground (arith, length-trim_start s)

length-trim_cons : (c : ℕ) (s : Text) → length (trim_cons c s) ≤ suc (length s)
length-trim_cons c [] = ground arith
length-trim_cons c (d ∷ s) = omega arith

length-trim_end : (s : Text) → length (trim_end s) ≤ length s
unfolding trim_end
length-trim_end [] = omega arith
length-trim_end (c ∷ s) = omega (arith, length-trim_end s, length-trim_cons c (trim_end s))

-- A trimmed text does not begin with a white character.
pub not-white_of_trim : (c : ℕ) (s : Text) → trim (c ∷ s) ≡ c ∷ s → is_whitespace c ≡ false
unfolding trim trim_start
not-white_of_trim c s h =
    ground (arith, ap (length {A = ℕ}) h, length-trim_start s, length-trim_end (trim_start s))

pub trim_start_solid : (c : ℕ) (s : Text) → is_whitespace c ≡ false → trim_start (c ∷ s) ≡ c ∷ s
unfolding trim_start
trim_start_solid c s h = rw h

-- A text whose last part keeps its end keeps its end.
pub trim_end-append :
    (s : Text) (c : ℕ) (t : Text) → trim_end (c ∷ t) ≡ c ∷ t → trim_end (s ++ c ∷ t) ≡ s ++ c ∷ t
unfolding trim_end
trim_end-append [] c t h = h
trim_end-append (a ∷ []) c t h = rw h
trim_end-append (a ∷ b ∷ s) c t h = rw (trim_end-append (b ∷ s) c t h)

-- A text without white characters is its own trim.
pub trim_solid : (s : Text) → All (λ c. is_whitespace c ≡ false) s → trim_end s ≡ s
unfolding trim_end
trim_solid [] a = refl
trim_solid (c ∷ []) a = rw a.0
trim_solid (c ∷ d ∷ s) a = rw (trim_solid (d ∷ s) a.1)

pub split_none : (d : ℕ) (s : Text) → contains_char d s ≡ false → split d s ≡ s ∷ []
unfolding split contains_char
split_none d [] h = refl
split_none d (c ∷ s) h = ground (arith, split_none d s)

pub split-append :
    (d : ℕ) (s t : Text) → contains_char d s ≡ false → split d (s ++ d ∷ t) ≡ s ∷ split d t
unfolding split contains_char
split-append d [] t h = ground arith
split-append d (c ∷ s) t h = ground (arith, split-append d s t)

pub split_once-append :
    (d : ℕ) (s t : Text) → contains_char d s ≡ false → split_once d (s ++ d ∷ t) ≡ some (s, t)
unfolding split_once contains_char
split_once-append d [] t h = ground arith
split_once-append d (c ∷ s) t h = ground (arith, split_once-append d s t)

pub contains_char-append :
    (d : ℕ) (s t : Text)
    → contains_char d s ≡ false
    → contains_char d t ≡ false
    → contains_char d (s ++ t) ≡ false
unfolding contains_char
contains_char-append d [] t h k = k
contains_char-append d (c ∷ s) t h k = ground (arith, contains_char-append d s t)
