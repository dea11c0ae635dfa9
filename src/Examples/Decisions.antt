-- ===== src/Examples/Decisions.antt =====
-- The decisions at a local file and a Drive file of the shared world.
use oxidrive.Base.{◌≡◌, ◌≢◌, ◌↔◌, ◌⊎◌, refl, true, false, none, some, [], ◌∷◌}
use oxidrive.Text.{text}
use oxidrive.Types.{SyncAction, LocalFile}
use oxidrive.Decision.{ConflictPolicy, remote_changed, upload_id}
use oxidrive.Decision.Safety.{
  decide, delete_local_iff, delete_remote_iff, download_iff, MayDeleteLocal, MayDeleteRemote,
  MayDownload, baseline,
}
use oxidrive.Decision.Edited.{Spares, edited_is_spared}
use oxidrive.Decision.Causality.{
  upload_iff, conflict_iff, is_conflict, no_vectors, remote_vector, stored_vector,
}
use oxidrive.Coordination.Dominance.{Le, Exceeds}
use oxidrive.Executor.Records.{synced_record}
use oxidrive.Executor.Guard.{
  revision_guard_from_record, revision_guard_matches, IsSameRevision, guard_matches_synced_iff,
}
use oxidrive.Drive.{DriveFile}
use oxidrive.Engine.Stub.{stub_drive_file_from_record, stub_is_quiet}
use oxidrive.Examples.World.{
  edited_md5-ne, to_rfc3339, notes, local_file, edited_file, drive_file, changed_drive_file,
  sync_record,
}

delete_local_iff_example :
    (decide to_rfc3339
        (text "now")
        notes
        ConflictPolicy.local_wins
        false
        none
        (text "drive-9" ∷ [])
        (some local_file)
        none
        (some sync_record)
      ≡ SyncAction.delete_local notes)
    ↔ MayDeleteLocal false none (text "drive-9" ∷ []) (some local_file) none (some sync_record)
delete_local_iff_example =
    delete_local_iff to_rfc3339 (text "now") notes ConflictPolicy.local_wins false none
      (text "drive-9" ∷ []) (some local_file) none (some sync_record)

delete_remote_iff_example :
    (decide to_rfc3339
        (text "now")
        notes
        ConflictPolicy.local_wins
        false
        none
        (text "drive-1" ∷ [])
        none
        (some drive_file)
        (some sync_record)
      ≡ SyncAction.delete_remote notes (text "drive-1"))
    ↔ MayDeleteRemote to_rfc3339 none (some drive_file) (some sync_record) (text "drive-1")
delete_remote_iff_example =
    delete_remote_iff to_rfc3339 (text "now") notes ConflictPolicy.local_wins false none
      (text "drive-1" ∷ []) none (some drive_file) (some sync_record) (text "drive-1")

download_iff_example :
    (decide to_rfc3339
        (text "now")
        notes
        ConflictPolicy.local_wins
        false
        none
        (text "drive-1" ∷ [])
        (some local_file)
        (some changed_drive_file)
        (some sync_record)
      ≡ SyncAction.download notes (text "drive-1"))
    ↔ MayDownload to_rfc3339 false none
        (some local_file)
        (some changed_drive_file)
        (some sync_record)
        (text "drive-1")
download_iff_example =
    download_iff to_rfc3339 (text "now") notes ConflictPolicy.local_wins false none
      (text "drive-1" ∷ []) (some local_file) (some changed_drive_file) (some sync_record)
      (text "drive-1")

upload_iff_example :
    (decide to_rfc3339
        (text "now")
        notes
        ConflictPolicy.local_wins
        false
        none
        (text "drive-1" ∷ [])
        (some edited_file)
        (some drive_file)
        (some sync_record)
      ≡ SyncAction.upload notes (some (text "drive-1")))
    ↔ ((edited_file.md5 ≢ baseline false none sync_record)
        × (some (text "drive-1") ≡ upload_id sync_record drive_file)
        × ((remote_changed to_rfc3339 drive_file sync_record ≡ false)
            ⊎ ((no_vectors drive_file sync_record ≡ false)
                × Le (remote_vector drive_file) (stored_vector sync_record))))
upload_iff_example =
    upload_iff to_rfc3339 (text "now") notes ConflictPolicy.local_wins false none
      (text "drive-1" ∷ []) edited_file drive_file sync_record (some (text "drive-1"))

conflict_iff_example :
    (is_conflict (
        decide to_rfc3339
          (text "now")
          notes
          ConflictPolicy.local_wins
          false
          none
          (text "drive-1" ∷ [])
          (some edited_file)
          (some changed_drive_file)
          (some sync_record))
      ≡ true)
    ↔ ((edited_file.md5 ≢ baseline false none sync_record)
        × (remote_changed to_rfc3339 changed_drive_file sync_record ≡ true)
        × ((no_vectors changed_drive_file sync_record ≡ true)
            ⊎ Exceeds (remote_vector changed_drive_file) (stored_vector sync_record)))
conflict_iff_example =
    conflict_iff to_rfc3339 (text "now") notes ConflictPolicy.local_wins false none
      (text "drive-1" ∷ []) edited_file changed_drive_file sync_record

stub_is_quiet_example :
    (stub : DriveFile) × (stub_drive_file_from_record notes
        (synced_record to_rfc3339 edited_file.md5 edited_file.mtime edited_file.size 400
          (some changed_drive_file))
        (text "root")
      ≡ some stub)
    × (decide to_rfc3339
          (text "now")
          notes
          ConflictPolicy.local_wins
          false
          none
          (text "drive-1" ∷ [])
          (some edited_file)
          (some stub)
          (some (
            synced_record to_rfc3339 edited_file.md5 edited_file.mtime edited_file.size 400
              (some changed_drive_file)))
        ≡ SyncAction.skip notes)
stub_is_quiet_example =
    stub_is_quiet to_rfc3339 (text "now") notes ConflictPolicy.local_wins (text "drive-1" ∷ [])
      edited_file changed_drive_file 400 (text "root") refl

guard_matches_synced_iff_example :
    (revision_guard_matches to_rfc3339 changed_drive_file (
        revision_guard_from_record
          (some (synced_record to_rfc3339 (text "aa11") 100 7 110 (some drive_file))))
      ≡ true)
    ↔ IsSameRevision to_rfc3339 drive_file changed_drive_file
guard_matches_synced_iff_example =
    guard_matches_synced_iff to_rfc3339 (text "aa11") 100 7 110 drive_file changed_drive_file

-- The file with another time, as after `touch`.
abbrev touched_file : LocalFile
touched_file = record local_file { mtime = 300 }

edited_is_spared_example : Spares notes (
    decide to_rfc3339
      (text "now")
      notes
      ConflictPolicy.remote_wins
      true
      (some (text "aa11"))
      (text "drive-9" ∷ [])
      (some edited_file)
      none
      (some sync_record))
edited_is_spared_example =
    edited_is_spared to_rfc3339 (text "now") notes ConflictPolicy.remote_wins true
      (some (text "aa11")) (text "drive-9" ∷ []) edited_file none sync_record edited_md5-ne
