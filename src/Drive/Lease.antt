-- ===== src/Drive/Lease.antt =====
-- src/drive/locks.rs: the advisory lease in a Drive file's appProperties.
use oxidrive.Base.{◌≡◌, Bool, false, Option, none, some, ◌∷◌, ◌++◌, ltb, if◌then◌else◌}
use oxidrive.Text.{Text, text, is_empty, trim, split_once, contains_char}
use oxidrive.Text.Split.{split_once-append}
use oxidrive.TextMap.{TextMap, lookup, insert}
use oxidrive.TextMap.Order.{IsOrdered}
use oxidrive.TextMap.Laws.{lookup-insert}
use oxidrive.Types.{Timestamp, Lease}

abbrev pub lease_property_key : Text
lease_property_key = text "ox_lease"

abbrev lease_until : Text → Option Timestamp → Option Lease
lease_until owner none = none
lease_until owner (some t) =
    some (record { drive_file_id = text ""; owner_device = owner; expires_at = t })

module _ (parse_from_rfc3339 : Text → Option Timestamp) where
  abbrev lease_parts : Option (Text × Text) → Option Lease
  lease_parts none = none
  lease_parts (some (owner, expires)) =
      if is_empty (trim owner) then none else lease_until owner (parse_from_rfc3339 expires)

  abbrev lease_value : Option Text → Option Lease
  lease_value none = none
  lease_value (some raw) = lease_parts (split_once b';' raw)

  unfoldable pub parse_lease : TextMap Text → Option Lease
  unfolding lookup split_once
  parse_lease props = lease_value (lookup lease_property_key props)

abbrev pub lease_is_active : Lease → Timestamp → Bool
lease_is_active lease now = ltb now lease.expires_at

-- The properties that `acquire_lease` writes.
unfoldable pub leased : (Timestamp → Text) → Text → Timestamp → TextMap Text → TextMap Text
leased to_rfc3339 device expires_at props =
    insert lease_property_key (device ++ b';' ∷ to_rfc3339 expires_at) props

pub parse_lease-leased :
    (to_rfc3339 : Timestamp → Text) (parse_from_rfc3339 : Text → Option Timestamp) (device : Text)
    (t : Timestamp) (props : TextMap Text)
    → parse_from_rfc3339 (to_rfc3339 t) ≡ some t
    → IsOrdered props
    → is_empty (trim device) ≡ false
    → contains_char b';' device ≡ false
    → parse_lease parse_from_rfc3339 (leased to_rfc3339 device t props)
      ≡ some (record { drive_file_id = text ""; owner_device = device; expires_at = t })
unfolding parse_lease leased
parse_lease-leased to_rfc3339 parse_from_rfc3339 device t props r o f n = rw (
  lookup-insert lease_property_key (device ++ b';' ∷ to_rfc3339 t) props o,
  split_once-append b';' device (to_rfc3339 t) n,
  f,
  r,
)
