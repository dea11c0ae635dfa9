-- ===== src/Coordination.antt =====
-- src/sync/coordination.rs: version vectors, `device -> counter` maps kept in the Drive property
-- `ox_vv`. Counters are u64 values, `saturating_add` stops at `u64_max`.
pub mod Dominance
pub mod Merge
pub mod RoundTrip
pub mod Bounded
pub mod Published
use oxidrive.Base.{
  ℕ, ◌+◌, min, max, Bool, true, false, not, ◌&&◌, Option, none, some, List, [], ◌∷◌, ◌++◌, Ordering,
  compare, ltb, leb, if◌then◌else◌,
}
use oxidrive.Text.{Text, text, text_cmp, text_eq, is_empty, len, trim, split, split_once, u64_max}
use oxidrive.Text.Decimal.{show_u64, parse_u64}
use oxidrive.TextMap.{TextMap, lookup, contains_key, upsert, insert, remove, keys}

abbrev pub app_prop_version_vector : Text
app_prop_version_vector = text "ox_vv"

abbrev pub app_prop_origin : Text
app_prop_origin = text "ox_origin"

abbrev pub max_app_property_value_bytes : ℕ
max_app_property_value_bytes = 124

pub data Ordering3 : Type 0 where
  equal dominates dominated_by concurrent : Ordering3

pub record VersionVector : Type 0 where
  pub entries : TextMap ℕ

-- `and_modify(|existing| max(existing, count)).or_insert(count)`
abbrev pub raise : Text → ℕ → TextMap ℕ → TextMap ℕ
raise device count m = upsert (λ existing. max existing count) device count m

-- The body of the loop of `parse`; a `continue` leaves the entries alone.
abbrev record_count : Text → Option ℕ → TextMap ℕ → TextMap ℕ
record_count device none m = m
record_count device (some count) m = raise device count m

abbrev parse_pair : Option (Text × Text) → TextMap ℕ → TextMap ℕ
parse_pair none m = m
parse_pair (some (device_raw, count_raw)) m =
    if is_empty (trim device_raw)
    then m
    else record_count (trim device_raw) (parse_u64 (trim count_raw)) m

parse_segment : Text → TextMap ℕ → TextMap ℕ
parse_segment segment m =
    if is_empty (trim segment) then m else parse_pair (split_once b':' (trim segment)) m

parse_segments : List Text → TextMap ℕ → TextMap ℕ
parse_segments [] m = m
parse_segments (segment ∷ rest) m = parse_segments rest (parse_segment segment m)

unfoldable pub parse : Text → VersionVector
unfolding parse_segments parse_segment parse_u64 trim split split_once upsert
parse input = record { entries = parse_segments (split b';' input) [] }

abbrev pub from_map : TextMap ℕ → VersionVector
from_map entries = record { entries = entries }

abbrev pub no_entries : VersionVector → Bool
no_entries v = elim (v.entries) [ [] ↦ true | _ ∷ _ ↦ false ]

unfoldable pub from_app_properties : TextMap Text → VersionVector
unfolding lookup
from_app_properties props = elim (lookup app_prop_version_vector props) [
  | none ↦ record { entries = [] }
  | some raw ↦ parse raw
]

-- `impl Display`: the flag is `first`.
unfoldable pub fmt : Bool → TextMap ℕ → Text
unfolding show_u64
fmt first [] = []
fmt first ((device, counter) ∷ m) =
    (if first then [] else b';' ∷ []) ++ (device ++ b':' ∷ show_u64 counter) ++ fmt false m

unfoldable pub to_text : VersionVector → Text
unfolding fmt
to_text v = fmt true v.entries

abbrev pub saturating_add : ℕ → ℕ → ℕ
saturating_add a b = min (a + b) u64_max

unfoldable pub increment : Text → VersionVector → VersionVector
unfolding trim upsert
increment device v =
    if is_empty (trim device)
    then v
    else record { entries = upsert (λ counter. saturating_add counter 1) device 1 v.entries }

pub merge_loop : TextMap ℕ → TextMap ℕ → TextMap ℕ
merge_loop [] merged = merged
merge_loop ((device, counter) ∷ rest) merged = merge_loop rest (raise device counter merged)

unfoldable pub merge : VersionVector → VersionVector → VersionVector
unfolding merge_loop upsert
merge self other = record { entries = merge_loop other.entries self.entries }

-- `entries.get(key).copied().unwrap_or(0)`
abbrev pub count_or_zero : Option ℕ → ℕ
count_or_zero none = 0
count_or_zero (some c) = c

unfoldable pub count : Text → VersionVector → ℕ
unfolding lookup
count key v = count_or_zero (lookup key v.entries)

-- The four flags of `dominance`.
pub record Flags : Type 0 where
  pub self_ge_other : Bool
  pub self_le_other : Bool
  pub strictly_greater : Bool
  pub strictly_lower : Bool

-- The two tests of the loop's body, in turn.
abbrev pub compare_lower : ℕ → ℕ → Flags → Flags
compare_lower left right f =
    if ltb left right then record f { self_ge_other = false; strictly_lower = true } else f

abbrev pub compare_greater : ℕ → ℕ → Flags → Flags
compare_greater left right f =
    if ltb right left then record f { self_le_other = false; strictly_greater = true } else f

dominance_loop : VersionVector → VersionVector → List Text → Flags → Flags
dominance_loop self other [] f = f
dominance_loop self other (key ∷ rest) f =
    let left = count key self in
    let right = count key other in
    dominance_loop self other rest (compare_greater left right (compare_lower left right f))

abbrev pub all_flags : Flags
all_flags = record {
  self_ge_other = true;
  self_le_other = true;
  strictly_greater = false;
  strictly_lower = false;
}

abbrev pub judge : Flags → Ordering3
judge f =
    if not f.strictly_greater && not f.strictly_lower
    then equal
    else if f.self_ge_other
    then dominates
    else if f.self_le_other
    then dominated_by
    else concurrent

unfoldable pub dominance : VersionVector → VersionVector → Ordering3
unfolding dominance_loop count
dominance self other =
    judge (dominance_loop self other (keys self.entries ++ keys other.entries) all_flags)

-- The order of `removable`: by counter, then by device.
abbrev less_active : Text × ℕ → Text × ℕ → Ordering
less_active a b = elim (compare a.1 b.1) [
  | Ordering.lt ↦ Ordering.lt
  | Ordering.gt ↦ Ordering.gt
  | Ordering.eq ↦ text_cmp a.0 b.0
]

-- `sort_by` is stable, so any stable sort gives its result.
insert_sorted : Text × ℕ → TextMap ℕ → TextMap ℕ
insert_sorted a [] = a ∷ []
insert_sorted a (b ∷ m) = elim (less_active a b) [
  | Ordering.gt ↦ b ∷ insert_sorted a m
  | _ ↦ a ∷ b ∷ m
]

sort_by_activity : TextMap ℕ → TextMap ℕ
sort_by_activity [] = []
sort_by_activity (a ∷ m) = insert_sorted a (sort_by_activity m)

-- The entries that may be dropped: all but the origin's, if it is kept.
removable_entries : Bool → Text → TextMap ℕ → TextMap ℕ
removable_entries keep_origin origin [] = []
removable_entries keep_origin origin ((device, c) ∷ m) =
    let rest = removable_entries keep_origin origin m in
    if not (keep_origin && text_eq device origin) then (device, c) ∷ rest else rest

abbrev pub fits : TextMap ℕ → Bool
fits kept = leb (len (fmt true kept)) max_app_property_value_bytes

-- The loop over `removable`, and the last resort behind it.
drop_loop : TextMap ℕ → TextMap ℕ → Text
drop_loop [] kept = []
drop_loop ((device, c) ∷ rest) kept =
    let kept' = remove device kept in
    let later = drop_loop rest kept' in if fits kept' then fmt true kept' else later

unfoldable pub bounded_app_property_value : VersionVector → Text → Text
unfolding drop_loop removable_entries sort_by_activity insert_sorted remove lookup fmt len trim
bounded_app_property_value self origin_device =
    let origin = trim origin_device in
    let keep_origin = not (is_empty origin) && contains_key origin self.entries in
    let removable = sort_by_activity (removable_entries keep_origin origin self.entries) in
    let later = drop_loop removable self.entries in
    if fits self.entries then fmt true self.entries else later

unfoldable pub write_into_app_properties : VersionVector → TextMap Text → Text → TextMap Text
unfolding bounded_app_property_value upsert remove
write_into_app_properties self props origin_device =
    let bounded = bounded_app_property_value self origin_device in
    let props' =
      if is_empty bounded
      then remove app_prop_version_vector props
      else insert app_prop_version_vector bounded props in
    insert app_prop_origin origin_device props'
