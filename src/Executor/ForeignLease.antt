-- ===== src/Executor/ForeignLease.antt =====
-- `skip_upload_for_active_foreign_lease` of src/sync/executor.rs. Its writes to the lease table have
-- no influence on the answer, and nothing else reads that table: they are left out.
use oxidrive.Base.{◌≡◌, refl, Bool, false, not, ◌&&◌, Option, none, some, ltb}
use oxidrive.Text.{Text, text_eq, is_empty, trim, contains_char}
use oxidrive.TextMap.Order.{IsOrdered}
use oxidrive.Types.{Timestamp, Lease}
use oxidrive.Drive.{DriveFile}
use oxidrive.Drive.Lease.{parse_lease, lease_is_active, leased, parse_lease-leased}

abbrev foreign : Text → Timestamp → Option Lease → Bool
foreign device_id now none = false
foreign device_id now (some lease) =
    lease_is_active lease now && not (text_eq lease.owner_device device_id)

unfoldable pub skip_upload_for_active_foreign_lease :
    (Text → Option Timestamp) → DriveFile → Text → Timestamp → Bool
unfolding parse_lease
skip_upload_for_active_foreign_lease parse_from_rfc3339 remote device_id now =
    foreign device_id now (parse_lease parse_from_rfc3339 remote.app_properties)

-- Once a device has written its lease to a Drive file's properties, an upload of that file is skipped
-- exactly on the other devices and only before the lease expires. The device id must hold a character
-- that is not white and no `;`.
pub skip_upload-leased :
    (to_rfc3339 : Timestamp → Text) (parse_from_rfc3339 : Text → Option Timestamp)
    (owner device : Text) (t now : Timestamp) (remote : DriveFile)
    → parse_from_rfc3339 (to_rfc3339 t) ≡ some t
    → IsOrdered remote.app_properties
    → is_empty (trim owner) ≡ false
    → contains_char b';' owner ≡ false
    → skip_upload_for_active_foreign_lease parse_from_rfc3339
        (record remote { app_properties = leased to_rfc3339 owner t remote.app_properties })
        device
        now
      ≡ (ltb now t && not (text_eq owner device))
unfolding skip_upload_for_active_foreign_lease
skip_upload-leased to_rfc3339 parse_from_rfc3339 owner device t now remote r o f n =
    rw (parse_lease-leased to_rfc3339 parse_from_rfc3339 owner t remote.app_properties r o f n) refl
