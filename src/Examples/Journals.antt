-- ===== src/Examples/Journals.antt =====
-- The tombstones, the recovery and the save at the tables of the shared world.
use oxidrive.Base.{◌≡◌, ◌⊎◌, refl, true, false, none, some, [], ◌∷◌}
use oxidrive.Text.{text, text_cmp, trim, ends_with}
use oxidrive.TextMap.{TextMap, lookup}
use oxidrive.Drive.{DriveFile}
use oxidrive.Types.{UploadSession, UploadSessionMode}
use oxidrive.Types.Path.{RelativePath, normalize_relative, is_safe_normalized_relative}
use oxidrive.Store.Session.{Store, get, open_store}
use oxidrive.Store.Persist.{RedbStore, persist_to_redb, load_from_redb}
use oxidrive.Store.RoundTrip.{load-persist}
use oxidrive.Executor.Tombstone.{read_tombstone, confirm_delete_observation}
use oxidrive.Executor.TombstoneLaws.{confirm_on_second}
use oxidrive.Engine.Placement.{place_without_clobber}
use oxidrive.Engine.PlacementLaws.{place_without_clobber_safe}
use oxidrive.Engine.Recovery.{recover_pending_operations}
use oxidrive.Engine.RecoveryLaws.{settled, journal_entry}
use oxidrive.Engine.Settlement.{recover_settles}
use oxidrive.Examples.Codecs.{table, no_rows, codecs, tombstone_codec, pending_op_codec}
use oxidrive.Examples.World.{drive_file, notes, session, database}

confirm_on_second_example :
    (t' : table.State) × (t'' : table.State) × (confirm_delete_observation table tombstone_codec
        notes
        (some (text "drive-1"))
        500
        (text "laptop")
        no_rows
      ≡ some (false, t'))
    × (confirm_delete_observation table tombstone_codec notes none 600 (text "laptop") t'
        ≡ some (true, t''))
unfolding read_tombstone lookup
confirm_on_second_example =
    confirm_on_second table tombstone_codec notes (some (text "drive-1")) none 500 600
      (text "laptop") (text "laptop") no_rows (λ a. (_, refl)) refl

-- The tombstones after a first observation.
abbrev observed : table.State
observed = table.put notes (0 ∷ 500 ∷ 1 ∷ 108 ∷ 0 ∷ []) no_rows

recover_settles_example :
    (s' : Store) × (db' : RedbStore table) × (recover_pending_operations table codecs
        pending_op_codec session database
      ≡ some (s', db'))
    × (table.rows db'.pending_ops ≡ [])
    × (get notes s'
        ≡ settled
            (journal_entry pending_op_codec (lookup notes (table.rows database.pending_ops)))
            (get notes session))
unfolding is_safe_normalized_relative normalize_relative ends_with text_cmp
recover_settles_example =
    recover_settles table codecs pending_op_codec session database notes
      (λ a. (_, refl), λ a. (_, refl), λ a. (_, refl)) (refl, tt) refl

load-persist_example :
    (db' : RedbStore table) × (persist_to_redb table codecs session
        (some (text "token-7"))
        (text "docs/notes.md" ∷ [])
        database
      ≡ some db')
    × (load_from_redb table codecs db' (open_store session.sync_dir)
        ≡ record session { remote_snapshot = none; root_drive_folder_id = none })
unfolding is_safe_normalized_relative normalize_relative ends_with trim text_cmp
load-persist_example =
    load-persist table codecs session (some (text "token-7")) (text "docs/notes.md" ∷ []) database
      (record {
        records_ordered = ((refl, tt), (tt, tt));
        records_entries = (((refl, refl), (_, refl, tt)), (((refl, refl), (_, refl, tt)), tt));
        conversions_ordered = (tt, tt);
        conversions_entries = (((refl, refl), (_, refl, tt)), tt);
        uploads_ordered = tt;
        uploads_entries = tt;
        folders_ordered = (tt, tt);
        folders_entries = (((refl, refl), refl), tt);
      })

abbrev view : TextMap DriveFile
view =
    (notes, drive_file) ∷ (text "docs/notes (2).md", record drive_file { id = text "drive-3" }) ∷ []

place_without_clobber_safe_example :
    (p : RelativePath) × (place_without_clobber view notes (text "drive-2") ≡ some p)
    × ((lookup p view ≡ none)
        ⊎ ((f : DriveFile) × (lookup p view ≡ some f) × (f.id ≡ text "drive-2")))
place_without_clobber_safe_example = place_without_clobber_safe view notes (text "drive-2")

abbrev upload_session : UploadSession
upload_session = record {
  mode = UploadSessionMode.update (text "drive-1");
  session_url = text "https://upload";
  next_offset = 8;
  file_size = 20;
  local_md5 = text "bb22";
  updated_at = 1_000;
}

abbrev uploading : Store
uploading = record session { upload_sessions = (notes, upload_session) ∷ [] }
