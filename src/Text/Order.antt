-- ===== src/Text/Order.antt =====
-- The order of `str::cmp` is a lawful total order, and `==` decides equality.
use oxidrive.Base.{◌≡◌, refl, ◌↔◌, true, Option, none, some, [], ◌∷◌, Ordering, arith}
use oxidrive.Text.{Text, text_cmp, text_eq, option_text_eq}

pub text_cmp_refl : (s : Text) → text_cmp s s ≡ Ordering.eq
unfolding text_cmp
text_cmp_refl [] = refl
text_cmp_refl (a ∷ s) = ground (arith, text_cmp_refl s)

pub eq_of_text_cmp : (s t : Text) → text_cmp s t ≡ Ordering.eq → s ≡ t
unfolding text_cmp
eq_of_text_cmp [] [] h = refl
eq_of_text_cmp [] (b ∷ t) h = cc
eq_of_text_cmp (a ∷ s) [] h = cc
eq_of_text_cmp (a ∷ s) (b ∷ t) h = ground (arith, eq_of_text_cmp s t)

pub lt_of_gt : (s t : Text) → text_cmp s t ≡ Ordering.gt → text_cmp t s ≡ Ordering.lt
unfolding text_cmp
lt_of_gt [] [] h = cc
lt_of_gt [] (b ∷ t) h = cc
lt_of_gt (a ∷ s) [] h = refl
lt_of_gt (a ∷ s) (b ∷ t) h = ground (arith, lt_of_gt s t)

pub gt_of_lt : (s t : Text) → text_cmp s t ≡ Ordering.lt → text_cmp t s ≡ Ordering.gt
unfolding text_cmp
gt_of_lt [] [] h = cc
gt_of_lt [] (b ∷ t) h = refl
gt_of_lt (a ∷ s) [] h = cc
gt_of_lt (a ∷ s) (b ∷ t) h = ground (arith, gt_of_lt s t)

pub text_lt_trans :
    (s t u : Text)
    → text_cmp s t ≡ Ordering.lt
    → text_cmp t u ≡ Ordering.lt
    → text_cmp s u ≡ Ordering.lt
unfolding text_cmp
text_lt_trans [] [] u p q = cc
text_lt_trans [] (b ∷ t) [] p q = cc
text_lt_trans [] (b ∷ t) (c ∷ u) p q = refl
text_lt_trans (a ∷ s) [] u p q = cc
text_lt_trans (a ∷ s) (b ∷ t) [] p q = cc
text_lt_trans (a ∷ s) (b ∷ t) (c ∷ u) p q = ground (arith, text_lt_trans s t u)

pub text_eq_iff : (s t : Text) → (text_eq s t ≡ true) ↔ (s ≡ t)
text_eq_iff s t = ground (arith, eq_of_text_cmp s t, text_cmp_refl s)

pub option_text_eq_iff : (s t : Option Text) → (option_text_eq s t ≡ true) ↔ (s ≡ t)
option_text_eq_iff none none = (λ h. refl, λ h. refl)
option_text_eq_iff none (some t) = (λ h. cc, λ h. cc)
option_text_eq_iff (some s) none = (λ h. cc, λ h. cc)
option_text_eq_iff (some s) (some t) = ground (arith, text_eq_iff s t)

pub text_eq_refl : (s : Text) → text_eq s s ≡ true
text_eq_refl s = ground (arith, text_cmp_refl s)
