-- ===== src/Text/Decimal.antt =====
-- `Display` and `FromStr` of u64.
use oxidrive.Base.{
  ℕ, zero, suc, ◌+◌, ◌-◌, ◌*◌, ◌/◌, ◌%◌, ◌≤◌, ◌<◌, ◌≡◌, refl, sym, ap, ◌∙◌, inl, inr, Bool-cases,
  Option-cases, true, false, Option, none, some, List, [], ◌∷◌, ◌++◌, arith, ltb, leb, ◌==◌,
  if◌then◌else◌, All,
}
use oxidrive.Text.{Text, is_digit, is_empty, u64_max, is_whitespace, contains_char}

-- The digits of `n`; the fuel `n + 1` exceeds their number.
show_digits : ℕ → ℕ → Text
show_digits zero n = []
show_digits (suc f) n =
    let rest = show_digits f (n / 10) ++ (b'0' + n % 10) ∷ [] in
    if ltb n 10 then (b'0' + n) ∷ [] else rest

-- `u64::to_string`
unfoldable pub show_u64 : ℕ → Text
unfolding show_digits
show_u64 n = show_digits (suc n) n

-- One round of `from_str_radix`: `checked_mul` and `checked_add`.
push_digit : ℕ → ℕ → Option ℕ
push_digit acc c =
    if is_digit c
    then (let next = acc * 10 + (c - b'0') in if leb next u64_max then some next else none)
    else none

parse_digits : Text → ℕ → Option ℕ
parse_digits [] acc = some acc
parse_digits (c ∷ s) acc = elim (push_digit acc c) [ none ↦ none | some a ↦ parse_digits s a ]

-- `str::parse::<u64>`: an optional plus sign, then at least one digit.
unfoldable pub parse_u64 : Text → Option ℕ
unfolding parse_digits push_digit
parse_u64 [] = none
parse_u64 (c ∷ s) =
    if c == b'+' then (if is_empty s then none else parse_digits s 0) else parse_digits (c ∷ s) 0

parse_digits-append :
    (s : Text) (c acc a : ℕ)
    → parse_digits s acc ≡ some a
    → parse_digits (s ++ c ∷ []) acc ≡ push_digit a c
unfolding parse_digits
parse_digits-append [] c acc a h = ground arith
parse_digits-append (d ∷ s) c acc a h = elim (Option-cases (push_digit acc d)) [
  | inl e ↦ ground (arith, e)
  | inr (b, e) ↦ ground (arith, e, parse_digits-append s c b a)
]

push_digit_of_div : (n : ℕ) → n ≤ u64_max → push_digit (n / 10) (b'0' + n % 10) ≡ some n
unfolding push_digit
push_digit_of_div n h = ground arith

parse_digits-show_digits :
    (f n : ℕ) → n < f → n ≤ u64_max → parse_digits (show_digits f n) 0 ≡ some n
unfolding show_digits parse_digits push_digit
parse_digits-show_digits zero n h b = elim h [ ]
parse_digits-show_digits (suc f) n h b = elim (Bool-cases (ltb n 10)) [
  | inl small ↦ rw small (ground arith)
  | inr large ↦ rw large (
      parse_digits-append (show_digits f (n / 10)) (b'0' + n % 10) 0 (n / 10)
        (parse_digits-show_digits f (n / 10) (ground arith) (omega arith))
      ∙ push_digit_of_div n b)
]

IsDigits : Text → Type 0
IsDigits s = All (λ c. is_digit c ≡ true) s

All-append {ℓ κ} :
    {A : Type ℓ} (P : A → Type κ) (xs ys : List A) → All P xs → All P ys → All P (xs ++ ys)
All-append P [] ys hx hy = hy
All-append P (x ∷ xs) ys hx hy = (hx.0, All-append P xs ys hx.1 hy)

show_digits-IsDigits : (f n : ℕ) → IsDigits (show_digits f n)
unfolding show_digits IsDigits
show_digits-IsDigits zero n = tt
show_digits-IsDigits (suc f) n = elim (Bool-cases (ltb n 10)) [
  | inl small ↦ rw small (ground arith, tt)
  | inr large ↦ rw large (
      All-append (λ c. is_digit c ≡ true) (show_digits f (n / 10)) _
        (show_digits-IsDigits f (n / 10)) (ground arith, tt))
]

IsDigits-parse : (s : Text) → IsDigits s → is_empty s ≡ false → parse_u64 s ≡ parse_digits s 0
unfolding parse_u64 IsDigits
IsDigits-parse [] a e = cc
IsDigits-parse (c ∷ s) a e = ground arith

is_empty-append : (s : Text) (c : ℕ) → is_empty (s ++ c ∷ []) ≡ false
is_empty-append [] c = refl
is_empty-append (d ∷ s) c = refl

show_u64-non_empty : (n : ℕ) → is_empty (show_u64 n) ≡ false
unfolding show_u64
show_u64-non_empty n = ground (arith, is_empty-append (show_digits n (n / 10)) (b'0' + n % 10))

-- A printed u64 is read back.
pub parse_u64-show_u64 : (n : ℕ) → n ≤ u64_max → parse_u64 (show_u64 n) ≡ some n
unfolding show_u64
parse_u64-show_u64 n h =
    IsDigits-parse (show_digits (suc n) n) (show_digits-IsDigits (suc n) n) (show_u64-non_empty n)
    ∙ parse_digits-show_digits (suc n) n (omega arith) h

-- A printed number holds digits only: no white character and no separator.
pub digit-not-white : (c : ℕ) → is_digit c ≡ true → is_whitespace c ≡ false
unfolding is_whitespace
digit-not-white c h = ground arith

All-imp {ℓ κ μ} :
    {A : Type ℓ} {P : A → Type κ} {Q : A → Type μ}
    → ((a : A) → P a → Q a)
    → (xs : List A) → All P xs
    → All Q xs
All-imp f [] h = tt
All-imp f (x ∷ xs) h = (f x h.0, All-imp f xs h.1)

pub show_u64_solid : (n : ℕ) → All (λ c. is_whitespace c ≡ false) (show_u64 n)
unfolding show_u64 IsDigits
show_u64_solid n = All-imp digit-not-white (show_digits (suc n) n) (show_digits-IsDigits (suc n) n)

contains_char-IsDigits :
    (d : ℕ) (s : Text) → is_digit d ≡ false → IsDigits s → contains_char d s ≡ false
unfolding contains_char IsDigits
contains_char-IsDigits d [] h a = refl
contains_char-IsDigits d (c ∷ s) h a = ground (arith, contains_char-IsDigits d s h a.1)

pub contains_char-show_u64 : (d n : ℕ) → is_digit d ≡ false → contains_char d (show_u64 n) ≡ false
unfolding show_u64
contains_char-show_u64 d n h =
    contains_char-IsDigits d (show_digits (suc n) n) h (show_digits-IsDigits (suc n) n)

-- The number that a text of digits stands for.
digits_value : Text → ℕ → ℕ
digits_value [] acc = acc
digits_value (c ∷ s) acc = digits_value s (acc * 10 + (c - b'0'))

digits_value-append :
    (s : Text) (c acc : ℕ) → digits_value (s ++ c ∷ []) acc ≡ digits_value s acc * 10 + (c - b'0')
unfolding digits_value
digits_value-append [] c acc = refl
digits_value-append (d ∷ s) c acc = digits_value-append s c (acc * 10 + (d - b'0'))

digits_value-show_digits : (f n : ℕ) → n < f → digits_value (show_digits f n) 0 ≡ n
unfolding show_digits digits_value
digits_value-show_digits zero n h = elim h [ ]
digits_value-show_digits (suc f) n h = elim (Bool-cases (ltb n 10)) [
  | inl small ↦ rw small (omega arith)
  | inr large ↦ rw large (
      omega (
        arith,
        digits_value-append (show_digits f (n / 10)) (b'0' + n % 10) 0,
        digits_value-show_digits f (n / 10) (ground arith),
      ))
]

-- Two numbers with the same digits are equal, whatever their size.
pub show_u64-inj : (m n : ℕ) → show_u64 m ≡ show_u64 n → m ≡ n
unfolding show_u64
show_u64-inj m n h =
    sym (digits_value-show_digits (suc m) m (omega arith))
    ∙ ap (λ s. digits_value s 0) h
    ∙ digits_value-show_digits (suc n) n (omega arith)
