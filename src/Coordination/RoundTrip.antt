-- ===== src/Coordination/RoundTrip.antt =====
-- `VersionVector::parse` and `Display`: what is printed is read back, and what is read is a map.
use mathlib.Core.List.{append-nil}
use oxidrive.Base.{
  ℕ, ◌≤◌, ◌≡◌, refl, ap, ◌∙◌, true, false, Option, none, some, List, [], ◌∷◌, ◌++◌, arith, All,
}
use oxidrive.Text.{
  Text, is_empty, is_whitespace, trim, trim_start, trim_end, split, split_once, contains_char,
  u64_max,
}
use oxidrive.Text.Decimal.{
  show_u64, parse_u64, parse_u64-show_u64, show_u64_solid, contains_char-show_u64,
}
use oxidrive.Text.Split.{
  not-white_of_trim, trim_start_solid, trim_end-append, trim_solid, split_none, split-append,
  split_once-append, contains_char-append,
}
use oxidrive.TextMap.{TextMap}
use oxidrive.TextMap.Order.{IsOrdered, upsert-IsOrdered}
use oxidrive.Coordination.{
  VersionVector, from_map, merge_loop, raise, parse_segments, parse_segment, parse, parse_pair,
  record_count, fmt, to_text,
}
use oxidrive.Coordination.Merge.{IsValid, merge_loop-nil}

-- A device id that the format can carry.
pub record IsDevice (k : Text) : Type 0 where
  pub filled : is_empty k ≡ false
  pub trimmed : trim k ≡ k
  pub no_colon : contains_char b':' k ≡ false
  pub no_semicolon : contains_char b';' k ≡ false

-- Every entry has such a device and a u64 counter.
abbrev pub IsPrintable : VersionVector → Type 0
IsPrintable v = All (λ e. IsDevice e.0 × (e.1 ≤ u64_max)) v.entries

record_count-IsOrdered :
    (d : Text) (o : Option ℕ) (m : TextMap ℕ) → IsOrdered m → IsOrdered (record_count d o m)
record_count-IsOrdered d none m h = h
record_count-IsOrdered d (some c) m h = upsert-IsOrdered _ d c m h

parse_pair-IsOrdered :
    (p : Option (Text × Text)) (m : TextMap ℕ) → IsOrdered m → IsOrdered (parse_pair p m)
parse_pair-IsOrdered none m h = h
parse_pair-IsOrdered (some (d, c)) m h =
    ground (arith, record_count-IsOrdered (trim d) (parse_u64 (trim c)) m h)

parse_segments-IsOrdered :
    (ss : List Text) (m : TextMap ℕ) → IsOrdered m → IsOrdered (parse_segments ss m)
unfolding parse_segments parse_segment
parse_segments-IsOrdered [] m h = h
parse_segments-IsOrdered (s ∷ ss) m h =
    parse_segments-IsOrdered ss _
      (ground (arith, parse_pair-IsOrdered (split_once b':' (trim s)) m h))

-- Whatever the input, the entries that `parse` collects are a map.
pub parse-IsValid : (input : Text) → IsValid (parse input)
unfolding parse
parse-IsValid input = parse_segments-IsOrdered (split b';' input) [] tt

-- One entry as it is printed.
abbrev entry_text : Text → ℕ → Text
entry_text k n = k ++ b':' ∷ show_u64 n

trim-entry_text : (k : Text) (n : ℕ) → IsDevice k → trim (entry_text k n) ≡ entry_text k n
unfolding trim
trim-entry_text [] n d = absurd (ground (arith, d.filled))
trim-entry_text (c ∷ k) n d =
    rw (trim_start_solid c (k ++ b':' ∷ show_u64 n) (not-white_of_trim c k d.trimmed)) (
      trim_end-append (c ∷ k) b':' (show_u64 n)
        (trim_solid (b':' ∷ show_u64 n) (refl, show_u64_solid n)))

trim-show_u64 : (n : ℕ) → trim (show_u64 n) ≡ show_u64 n
unfolding trim
trim-show_u64 n = solid (show_u64 n) (show_u64_solid n)
  where
    solid : (s : Text) → All (λ c. is_whitespace c ≡ false) s → trim_end (trim_start s) ≡ s
    solid [] a = trim_solid [] tt
    solid (c ∷ s) a = rw (trim_start_solid c s a.0) (trim_solid (c ∷ s) a)

is_empty-entry_text : (k : Text) (n : ℕ) → is_empty (entry_text k n) ≡ false
is_empty-entry_text [] n = refl
is_empty-entry_text (c ∷ k) n = refl

parse_segment-entry_text :
    (k : Text) (n : ℕ) (m : TextMap ℕ)
    → IsDevice k
    → n ≤ u64_max
    → parse_segment (entry_text k n) m ≡ raise k n m
unfolding parse_segment
parse_segment-entry_text k n m d h =
    rw (trim-entry_text k n d, is_empty-entry_text k n)
      (rw (
        split_once-append b':' k (show_u64 n) d.no_colon,
        d.trimmed,
        d.filled,
        trim-show_u64 n,
        parse_u64-show_u64 n h,
      ))

segments : TextMap ℕ → List Text
segments [] = []
segments ((k, n) ∷ m) = entry_text k n ∷ segments m

no_semicolon-entry_text :
    (k : Text) (n : ℕ) → IsDevice k → contains_char b';' (entry_text k n) ≡ false
unfolding contains_char
no_semicolon-entry_text k n d =
    contains_char-append b';' k (b':' ∷ show_u64 n) d.no_semicolon
      (contains_char-show_u64 b';' n refl)

AllPrintable : TextMap ℕ → Type 0
AllPrintable m = All (λ e. IsDevice e.0 × (e.1 ≤ u64_max)) m

split-fmt :
    (s : Text) (m : TextMap ℕ)
    → AllPrintable m
    → contains_char b';' s ≡ false
    → split b';' (s ++ fmt false m) ≡ s ∷ segments m
unfolding fmt segments AllPrintable
split-fmt s [] a h = rw append-nil (split_none b';' s h)
split-fmt s ((k, n) ∷ m) a h =
    split-append b';' s (entry_text k n ++ fmt false m) h
    ∙ ap {B = List Text} (λ t. s ∷ t)
        (split-fmt (entry_text k n) m a.1 (no_semicolon-entry_text k n a.0.0))

parse_segments-segments :
    (m acc : TextMap ℕ) → AllPrintable m → parse_segments (segments m) acc ≡ merge_loop m acc
unfolding parse_segments segments merge_loop AllPrintable
parse_segments-segments [] acc a = refl
parse_segments-segments ((k, n) ∷ m) acc a =
    ap (parse_segments (segments m)) (parse_segment-entry_text k n acc a.0.0 a.0.1)
    ∙ parse_segments-segments m (raise k n acc) a.1

parse-fmt :
    (m : TextMap ℕ) → AllPrintable m → parse_segments (split b';' (fmt true m)) [] ≡ merge_loop m []
unfolding fmt AllPrintable split trim segments parse_segments parse_segment merge_loop
parse-fmt [] a = refl
parse-fmt ((k, n) ∷ m) a =
    rw (split-fmt (entry_text k n) m a.1 (no_semicolon-entry_text k n a.0.0))
      (parse_segments-segments ((k, n) ∷ m) [] a)

-- A vector whose entries form a map, with printable devices and u64 counters, is read back from its
-- text exactly.
pub parse-to_text : (v : VersionVector) → IsValid v → IsPrintable v → parse (to_text v) ≡ v
unfolding parse to_text AllPrintable
parse-to_text v o a = ap from_map (parse-fmt v.entries a ∙ merge_loop-nil v.entries o)
