-- ===== src/Examples/Vectors.antt =====
-- The version vectors of two devices.
use oxidrive.Base.{◌≡◌, ◌≢◌, ◌↔◌, ◌⊎◌, refl, none, some, [], ◌∷◌, arith}
use oxidrive.Text.{text, text_cmp, trim, contains_char}
use oxidrive.TextMap.{lookup}
use oxidrive.Coordination.{
  VersionVector, from_map, from_app_properties, parse, to_text, merge, dominance, concurrent,
  write_into_app_properties, bounded_app_property_value, app_prop_version_vector, app_prop_origin,
  count,
}
use oxidrive.Coordination.Dominance.{Le, Meaning, dominance_iff}
use oxidrive.Coordination.Merge.{merge_semilattice}
use oxidrive.Coordination.RoundTrip.{parse-to_text}
use oxidrive.Coordination.Bounded.{bounded_understates}
use oxidrive.Coordination.Published.{published_understates}

abbrev laptop : VersionVector
laptop = from_map ((text "laptop", 3) ∷ (text "phone", 1) ∷ [])

abbrev phone : VersionVector
phone = from_map ((text "laptop", 2) ∷ (text "phone", 4) ∷ [])

dominance_iff_example : (dominance laptop phone ≡ concurrent) ↔ Meaning concurrent laptop phone
dominance_iff_example = dominance_iff laptop phone concurrent

merge_semilattice_example :
    (merge laptop phone ≡ merge phone laptop)
    × (merge (merge laptop phone) laptop ≡ merge laptop (merge phone laptop))
    × (merge laptop laptop ≡ laptop)
unfolding text_cmp
merge_semilattice_example =
    merge_semilattice laptop phone laptop ((refl, tt), (tt, tt)) ((refl, tt), (tt, tt))
      ((refl, tt), (tt, tt))

parse-to_text_example : parse (to_text laptop) ≡ laptop
unfolding text_cmp trim contains_char
parse-to_text_example =
    parse-to_text laptop ((refl, tt), (tt, tt))
      (
        (
          record { filled = refl; trimmed = refl; no_colon = refl; no_semicolon = refl },
          omega arith,
        ),
        (
          (
            record { filled = refl; trimmed = refl; no_colon = refl; no_semicolon = refl },
            omega arith,
          ),
          tt,
        ),
      )

bounded_understates_example :
    Le (parse (bounded_app_property_value laptop (text "phone"))) laptop
    × ((bounded_app_property_value laptop (text "phone") ≡ [])
        ⊎ (count (trim (text "phone")) (parse (bounded_app_property_value laptop (text "phone")))
            ≡ count (trim (text "phone")) laptop))
unfolding text_cmp trim contains_char
bounded_understates_example =
    bounded_understates laptop (text "phone") ((refl, tt), (tt, tt))
      (
        (
          record { filled = refl; trimmed = refl; no_colon = refl; no_semicolon = refl },
          omega arith,
        ),
        (
          (
            record { filled = refl; trimmed = refl; no_colon = refl; no_semicolon = refl },
            omega arith,
          ),
          tt,
        ),
      )
      refl

published_understates_example :
    Le
      (from_app_properties
        (write_into_app_properties laptop ((text "ox_lease", text "x") ∷ []) (text "phone")))
      laptop
    × ((bounded_app_property_value laptop (text "phone") ≡ [])
          × (lookup app_prop_version_vector
                (write_into_app_properties laptop ((text "ox_lease", text "x") ∷ []) (text "phone"))
              ≡ none)
        ⊎ (count (trim (text "phone")) (
              from_app_properties (
                write_into_app_properties laptop ((text "ox_lease", text "x") ∷ []) (text "phone")))
            ≡ count (trim (text "phone")) laptop)
          × (lookup app_prop_version_vector
                (write_into_app_properties laptop ((text "ox_lease", text "x") ∷ []) (text "phone"))
              ≢ some []))
    × (lookup app_prop_origin
          (write_into_app_properties laptop ((text "ox_lease", text "x") ∷ []) (text "phone"))
        ≡ some (text "phone"))
unfolding text_cmp trim contains_char
published_understates_example =
    published_understates laptop ((text "ox_lease", text "x") ∷ []) (text "phone") (tt, tt)
      ((refl, tt), (tt, tt))
      (
        (
          record { filled = refl; trimmed = refl; no_colon = refl; no_semicolon = refl },
          omega arith,
        ),
        (
          (
            record { filled = refl; trimmed = refl; no_colon = refl; no_semicolon = refl },
            omega arith,
          ),
          tt,
        ),
      )
      refl
