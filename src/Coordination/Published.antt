-- ===== src/Coordination/Published.antt =====
-- What a PATCH of a Drive file's appProperties carries, and what other devices read from it.
use oxidrive.Base.{
  ◌≡◌, ◌≢◌, ◌⊎◌, refl, ap, inl, inr, true, false, none, some, [], ◌∷◌, arith, if◌then◌else◌,
  Bool-cases,
}
use oxidrive.Text.{Text, text_cmp, text_eq, is_empty, trim}
use oxidrive.TextMap.{TextMap, lookup, insert, remove}
use oxidrive.TextMap.Order.{IsOrdered, remove-IsOrdered, upsert-IsOrdered}
use oxidrive.TextMap.Laws.{lookup-remove, lookup-upsert}
use oxidrive.Coordination.{
  VersionVector, count, bounded_app_property_value, write_into_app_properties,
  app_prop_version_vector, app_prop_origin, from_app_properties,
}
use oxidrive.Coordination.Dominance.{Le}
use oxidrive.Coordination.Merge.{IsValid}
use oxidrive.Coordination.RoundTrip.{IsPrintable}
use oxidrive.Coordination.Bounded.{count-nil, bounded_understates}

-- What properties with one value per key hold after `write_into_app_properties`: the origin device,
-- the bounded value unless that is empty (then the key `ox_vv` is absent), and every other property
-- as it was.
pub lookup-write_into_app_properties :
    (v : VersionVector) (props : TextMap Text) (origin k : Text)
    → IsOrdered props
    → lookup k (write_into_app_properties v props origin) ≡ (
        if text_eq k app_prop_origin
        then some origin
        else if text_eq k app_prop_version_vector
        then (let b = bounded_app_property_value v origin in if is_empty b then none else some b)
        else lookup k props)
unfolding write_into_app_properties
lookup-write_into_app_properties v props origin k o =
    elim (Bool-cases (is_empty (bounded_app_property_value v origin))) [
      | inl e ↦ rw e (
          ground (
            arith,
            lookup-upsert (λ _. origin) k app_prop_origin origin
                (remove app_prop_version_vector props)
                (remove-IsOrdered app_prop_version_vector props o),
            lookup-remove k app_prop_version_vector props,
          ))
      | inr e ↦
          let value = bounded_app_property_value v origin in
          rw e (
            ground (
              arith,
              lookup-upsert (λ _. origin) k app_prop_origin origin
                  (insert app_prop_version_vector value props)
                  (upsert-IsOrdered (λ _. value) app_prop_version_vector value props o),
              lookup-upsert (λ _. value) k app_prop_version_vector value props o,
            ))
    ]

is_empty-eq : (s : Text) → is_empty s ≡ true → s ≡ []
is_empty-eq [] h = refl
is_empty-eq (c ∷ s) h = cc

-- Let the properties hold one value per key, the entries of the vector be a map from device ids that
-- the format can carry to u64 counters, and the origin not blank. A vector read back from the
-- properties that `write_into_app_properties` prepared then exceeds the written vector in no counter,
-- and its counter of the trimmed origin is the written one, unless the bounded value is empty. The
-- properties name the origin, and hold no empty `ox_vv`: for an empty value they have no such key.
pub published_understates :
    (v : VersionVector) (props : TextMap Text) (origin : Text)
    → IsOrdered props
    → IsValid v
    → IsPrintable v
    → is_empty (trim origin) ≡ false
    → Le (from_app_properties (write_into_app_properties v props origin)) v
      × ((bounded_app_property_value v origin ≡ [])
            × (lookup app_prop_version_vector (write_into_app_properties v props origin) ≡ none)
          ⊎ (count (trim origin) (from_app_properties (write_into_app_properties v props origin))
              ≡ count (trim origin) v)
            × (lookup app_prop_version_vector (write_into_app_properties v props origin) ≢ some []))
      × (lookup app_prop_origin (write_into_app_properties v props origin) ≡ some origin)
unfolding from_app_properties text_cmp
published_understates v props origin po o a f =
    let e = lookup-write_into_app_properties v props origin app_prop_version_vector po in
    let named = lookup-write_into_app_properties v props origin app_prop_origin po in
    elim (Bool-cases (is_empty (bounded_app_property_value v origin))) [
      | inl empty ↦ (
        λ k. rw (e, from_app_properties, empty) (rw (count-nil k) (omega arith)),
        inl (is_empty-eq (bounded_app_property_value v origin) empty, ground (arith, e, empty)),
        named,
      )
      | inr filled ↦
          let (below, kept) = bounded_understates v origin o a f in
          (
            λ k. rw (e, from_app_properties, filled) (below k),
            inr (
              elim kept [
                | inl none_left ↦ absurd (ground (arith, filled, ap is_empty none_left))
                | inr same ↦ rw (e, from_app_properties, filled) same
              ],
              ground (arith, e, filled),
            ),
            named,
          )
    ]
