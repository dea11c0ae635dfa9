-- ===== src/Coordination/Bounded.antt =====
-- The value written to `ox_vv`: `bounded_app_property_value` and `write_into_app_properties`.
use oxidrive.Base.{
  ℕ, ◌≤◌, ◌≡◌, refl, ap, ◌∙◌, ◌⊎◌, inl, inr, Bool, true, false, not, ◌&&◌, none, [], ◌∷◌, arith,
  leb→le, Bool-cases, All,
}
use oxidrive.Text.{Text, text_eq, is_empty, len, trim}
use oxidrive.Text.Order.{eq_of_text_cmp, text_cmp_refl}
use oxidrive.TextMap.{TextMap, lookup, contains_key, remove}
use oxidrive.TextMap.Order.{IsOrdered, remove-IsOrdered}
use oxidrive.TextMap.Laws.{lookup-remove}
use oxidrive.Coordination.{
  VersionVector, from_map, fits, fmt, to_text, parse, count, insert_sorted, sort_by_activity,
  removable_entries, drop_loop, bounded_app_property_value,
}
use oxidrive.Coordination.Dominance.{Le}
use oxidrive.Coordination.Merge.{IsValid}
use oxidrive.Coordination.RoundTrip.{IsPrintable, parse-to_text}

drop_loop_fits : (rs kept : TextMap ℕ) → len (drop_loop rs kept) ≤ 124
unfolding drop_loop len
drop_loop_fits [] kept = omega arith
drop_loop_fits ((d, c) ∷ rs) kept = elim (Bool-cases (fits (remove d kept))) [
  | inl short ↦ rw short (leb→le _ _ short)
  | inr long ↦ rw long (drop_loop_fits rs (remove d kept))
]

-- The value fits the 124 bytes of a Drive property, whatever the vector and the origin.
pub bounded_fits :
    (v : VersionVector) (origin : Text) → len (bounded_app_property_value v origin) ≤ 124
unfolding bounded_app_property_value
bounded_fits v origin = elim (Bool-cases (fits v.entries)) [
  | inl short ↦ rw short (leb→le _ _ short)
  | inr long ↦ rw long (drop_loop_fits _ v.entries)
]

-- No entry is the origin's, if that one is to be kept.
Spares : Bool → Text → TextMap ℕ → Type 0
Spares keep origin rs = All (λ e. (keep && text_eq e.0 origin) ≡ false) rs

removable_entries-Spares :
    (keep : Bool) (origin : Text) (m : TextMap ℕ)
    → Spares keep origin (removable_entries keep origin m)
unfolding removable_entries Spares
removable_entries-Spares keep origin [] = tt
removable_entries-Spares keep origin ((d, c) ∷ m) =
    ground (arith, removable_entries-Spares keep origin m)

insert_sorted-Spares :
    (keep : Bool) (origin : Text) (a : Text × ℕ) (m : TextMap ℕ)
    → (keep && text_eq a.0 origin) ≡ false
    → Spares keep origin m
    → Spares keep origin (insert_sorted a m)
unfolding insert_sorted Spares
insert_sorted-Spares keep origin a [] h s = (h, tt)
insert_sorted-Spares keep origin a (b ∷ m) h s =
    ground (arith, insert_sorted-Spares keep origin a m h s.1)

sort_by_activity-Spares :
    (keep : Bool) (origin : Text) (m : TextMap ℕ)
    → Spares keep origin m
    → Spares keep origin (sort_by_activity m)
unfolding sort_by_activity Spares
sort_by_activity-Spares keep origin [] s = tt
sort_by_activity-Spares keep origin (a ∷ m) s =
    insert_sorted-Spares keep origin a (sort_by_activity m) s.0
      (sort_by_activity-Spares keep origin m s.1)

-- `kept` is `m` without some entries, the origin's not among them if `keep` holds.
pub record IsTrimOf (keep : Bool) (origin : Text) (m kept : TextMap ℕ) : Type 0 where
  pub ordered : IsOrdered kept
  pub printable : IsPrintable (from_map kept)
  pub subset : (k : Text) → (lookup k kept ≡ none) ⊎ (lookup k kept ≡ lookup k m)
  pub origin_kept : keep ≡ true → lookup origin kept ≡ lookup origin m

remove-IsPrintable :
    (k : Text) (m : TextMap ℕ) → IsPrintable (from_map m) → IsPrintable (from_map (remove k m))
unfolding remove
remove-IsPrintable k [] a = tt
remove-IsPrintable k ((j, c) ∷ m) a = elim (Bool-cases (text_eq k j)) [
  | inl same ↦ rw same (remove-IsPrintable k m a.1)
  | inr other ↦ rw other (a.0, remove-IsPrintable k m a.1)
]

remove-IsTrimOf :
    (keep : Bool) (origin d : Text) (m kept : TextMap ℕ)
    → (keep && text_eq d origin) ≡ false
    → IsTrimOf keep origin m kept
    → IsTrimOf keep origin m (remove d kept)
remove-IsTrimOf keep origin d m kept s t = record {
  ordered = remove-IsOrdered d kept t.ordered;
  printable = remove-IsPrintable d kept t.printable;
  subset = λ k. ground (arith, t.subset k, lookup-remove k d kept);
  origin_kept = λ h. ground (
    arith,
    t.origin_kept h,
    lookup-remove origin d kept,
    eq_of_text_cmp origin d,
    text_cmp_refl origin,
  );
}

-- Nothing is written, or the text of such a part of `m`.
Outcome : Bool → Text → TextMap ℕ → Text → Type 0
Outcome keep origin m result =
    (result ≡ []) ⊎ ((kept : TextMap ℕ) × (result ≡ fmt true kept) × IsTrimOf keep origin m kept)

drop_loop-Outcome :
    (keep : Bool) (origin : Text) (m rs kept : TextMap ℕ)
    → Spares keep origin rs
    → IsTrimOf keep origin m kept
    → Outcome keep origin m (drop_loop rs kept)
unfolding drop_loop Spares Outcome
drop_loop-Outcome keep origin m [] kept s t = inl refl
drop_loop-Outcome keep origin m ((d, c) ∷ rs) kept s t =
    let t' = remove-IsTrimOf keep origin d m kept s.0 t in
    elim (Bool-cases (fits (remove d kept))) [
      | inl short ↦ rw short (inr (remove d kept, refl, t'))
      | inr long ↦ rw long (drop_loop-Outcome keep origin m rs (remove d kept) s.1 t')
    ]

-- Whether the origin has an entry to preserve.
abbrev keeps_origin : VersionVector → Text → Bool
keeps_origin v origin = not (is_empty (trim origin)) && contains_key (trim origin) v.entries

bounded-Outcome :
    (v : VersionVector) (origin : Text)
    → IsValid v
    → IsPrintable v
    → Outcome (keeps_origin v origin) (trim origin) v.entries (bounded_app_property_value v origin)
unfolding bounded_app_property_value Outcome
bounded-Outcome v origin o a =
    let keep = keeps_origin v origin in
    let whole : IsTrimOf keep (trim origin) v.entries v.entries = record {
      ordered = o;
      printable = a;
      subset = λ k. inr refl;
      origin_kept = λ h. refl;
    } in
    elim (Bool-cases (fits v.entries)) [
      | inl short ↦ rw short (inr (v.entries, refl, whole))
      | inr long ↦ rw long (
          drop_loop-Outcome keep (trim origin) v.entries _ v.entries
            (sort_by_activity-Spares keep (trim origin) _
              (removable_entries-Spares keep (trim origin) v.entries))
            whole)
    ]

parse-nil : parse [] ≡ from_map []
unfolding parse
parse-nil = refl

pub count-nil : (k : Text) → count k (from_map []) ≡ 0
unfolding count lookup
count-nil k = refl

subset-Le :
    (v : VersionVector) (kept : TextMap ℕ) (k : Text)
    → (lookup k kept ≡ none) ⊎ (lookup k kept ≡ lookup k v.entries)
    → count k (from_map kept) ≤ count k v
unfolding count
subset-Le v kept k (inl e) = rw e (omega arith)
subset-Le v kept k (inr e) = rw e (omega arith)

count-origin :
    (v : VersionVector) (origin : Text) (kept : TextMap ℕ)
    → is_empty (trim origin) ≡ false
    → IsTrimOf (keeps_origin v origin) (trim origin) v.entries kept
    → count (trim origin) (from_map kept) ≡ count (trim origin) v
unfolding count
count-origin v origin kept f t = ground (arith, f, t.origin_kept, t.subset (trim origin))

-- Let the entries of a vector be a map from device ids that the format can carry to u64 counters, and
-- the origin not blank. What another device parses from the bounded value then exceeds the vector in
-- no counter, and the value is empty or the parsed counter of the trimmed origin is the vector's.
pub bounded_understates :
    (v : VersionVector) (origin : Text)
    → IsValid v
    → IsPrintable v
    → is_empty (trim origin) ≡ false
    → Le (parse (bounded_app_property_value v origin)) v
      × ((bounded_app_property_value v origin ≡ [])
          ⊎ (count (trim origin) (parse (bounded_app_property_value v origin))
              ≡ count (trim origin) v))
unfolding Outcome to_text
bounded_understates v origin o a f = elim (bounded-Outcome v origin o a) [
  | inl e ↦ (λ k. rw (e, parse-nil, count-nil k) (omega arith), inl e)
  | inr (kept, e, t) ↦
      let back : parse (bounded_app_property_value v origin) ≡ from_map kept =
        ap parse e ∙ parse-to_text (from_map kept) t.ordered t.printable in
      (
        λ k. rw back (subset-Le v kept k (t.subset k)),
        inr (rw back (count-origin v origin kept f t)),
      )
]
