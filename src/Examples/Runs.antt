-- ===== src/Examples/Runs.antt =====
-- A small disk and a Drive with one file, on which transfers and deletions run.
use oxidrive.Base.{
  List, ◌≡◌, refl, Bool, true, false, Option, none, some, [], ◌∷◌, length, Result, ok, err,
  if◌then◌else◌,
}
use oxidrive.Text.{Text, text, text_eq, text_cmp, ends_with}
use oxidrive.Text.Order.{text_eq_refl}
use oxidrive.TextMap.{lookup, upsert}
use oxidrive.Types.{SyncAction}
use oxidrive.Types.Path.{RelativePath, is_safe_normalized_relative}
use oxidrive.Drive.{DriveFile}
use oxidrive.Decision.{ConflictPolicy}
use oxidrive.Executor.Effects.{
  ExecError, file_error, request_error, World, Client, Disk, Metadata, Transfer, ◌>>=◌,
}
use oxidrive.Executor.Effects.Hoare.{Post}
use oxidrive.Executor.Guard.{revision_guard_matches, revision_guard_from_record}
use oxidrive.Executor.Upload.{uploaded, downloaded}
use oxidrive.Executor.RunUpload.{run_upload}
use oxidrive.Executor.Download.{run_download}
use oxidrive.Executor.UploadQuiet.{file_of, IfUploadedQuiet, uploaded_is_quiet}
use oxidrive.Executor.UploadGuarded.{Changed, Untouched, IsUnwritten}
use oxidrive.Executor.UploadRefused.{refused_upload_keeps_drive}
use oxidrive.Executor.DownloadQuiet.{IfDownloadedQuiet, downloaded_is_quiet}
use oxidrive.Executor.LocalTrashLaws.{IsFileSystem, Holds}
use oxidrive.Executor.DeleteLocal.{SyncReport, add_skip, delete_local}
use oxidrive.Executor.DeleteLocalLaws.{safe_delete_loses_nothing, delete_local_waits}
use oxidrive.Executor.Execute.{SyncExecutor}
use oxidrive.Executor.RunExecute.{execute}
use oxidrive.Executor.Tombstone.{read_tombstone, first_observation}
use oxidrive.Store.Table.{Bytes}
use oxidrive.Examples.Codecs.{table, no_rows, tombstone_codec, pending_op_codec}
use oxidrive.Examples.Wire.{take_option, put_option, take_list, put_many}
use oxidrive.Examples.World.{
  to_rfc3339, parse_from_rfc3339, notes, drive_file, changed_drive_file, session,
}

-- The contents of the files.
abbrev Files : Type 0
Files = RelativePath → Option Text

abbrev with_content : {A : Type 0} → RelativePath → Option Text → (Text → A) → Result ExecError A
with_content p none f = err (file_error p)
with_content p (some t) f = ok (f t)

abbrev ok_bool : Bool → Result ExecError Bool
ok_bool b = ok b

abbrev is_some : Option Text → Bool
is_some none = false
is_some (some t) = true

abbrev put : RelativePath → Text → Files → Files
put p t f q = if text_eq q p then some t else f q

abbrev drop_file : RelativePath → Files → Files
drop_file p f q = if text_eq q p then none else f q

abbrev move : RelativePath → RelativePath → Option Text → Files → Result ExecError Unit × Files
move p q none f = (err (file_error p), f)
move p q (some t) f = (ok tt, put q t (drop_file p f))

-- A content is its own checksum, and every file was written at the instant 100.
abbrev disk : Disk Files
disk = record {
  metadata = λ p f. with_content p (f p) (λ t. record { len = length t; modified = 100 });
  compute_md5 = λ p f. with_content p (f p) (λ t. t);
  exists_file = λ p f. is_some (f p);
  create_dir_all = λ p f. (ok tt, f);
  create_parent_dirs = λ p f. (ok tt, f);
  try_exists = λ p f. ok (is_some (f p));
  rename = λ p q f. move p q (f p) f;
  remove_file = λ p f. (ok tt, drop_file p f);
}

abbrev moved : {A : Type 0} → DriveFile → A → Transfer DriveFile A
moved d a = record { drive = d; progress = []; outcome = ok a }

abbrev fetched :
    RelativePath → Option Text → DriveFile → Files → Result ExecError Unit × (DriveFile × Files)
fetched p none d f = (err request_error, (d, f))
fetched p (some t) d f = (ok tt, (d, put p t f))

-- Drive is its one file.
abbrev client : Client DriveFile Files
client = record {
  get_file_metadata = λ id d. (ok d, d);
  get_file_metadata_preflight = λ id d. (ok d, d);
  update_app_properties =
      λ id m d. (ok (record d { app_properties = m }), record d { app_properties = m });
  find_remote_file_id_by_content = λ name parent md5 d. (ok none, d);
  update_file_media = λ p id f d. (ok tt, record d { md5_checksum = f p });
  update_file_with_resume = λ p id s f d. moved (record d { md5_checksum = f p }) tt;
  upload_with_conversion_with_resume =
      λ p id mime s f d. moved (record d { md5_checksum = f p }) tt;
  upload_file_with_resume = λ p parent name m s f d.
      moved (record d { md5_checksum = f p; app_properties = m }) (text "drive-5");
  trash_file = λ id d. (record d { trashed = true }, true);
  download_file = λ id p (d, f). fetched p d.md5_checksum d f;
  export_file_with_fallback = λ id mime p (d, f). fetched p (some (text "dd")) d f;
}

-- The notes were edited.
abbrev files : Files
files = put notes (text "bb22") (λ p. none)

abbrev world : DriveFile → World table.State DriveFile Files
world d = record {
  store = session;
  pending_ops = no_rows;
  tombstones = no_rows;
  drive = d;
  disk = files;
}

abbrev meta : Metadata
meta = record { len = 4; modified = 100 }

uploaded_is_quiet_example :
    Post
      (IfUploadedQuiet table pending_op_codec client disk to_rfc3339 parse_from_rfc3339
        (text "laptop")
        9_000_000_000
        notes
        (λ r. Unit)
        (text "20260101")
        ConflictPolicy.remote_wins
        []
        []
        (file_of notes (text "bb22") meta))
      (λ w. Unit)
      (run_upload table pending_op_codec client disk to_rfc3339 parse_from_rfc3339
        (text "laptop")
        9_000_000_000
        notes
        10
        true
        true
        (some (text "drive-1"))
        (some drive_file)
        (world drive_file))
unfolding text_cmp
uploaded_is_quiet_example =
    uploaded_is_quiet table pending_op_codec client disk to_rfc3339 parse_from_rfc3339
      (text "laptop") 9_000_000_000 notes (λ r. Unit) (text "20260101") ConflictPolicy.remote_wins
      [] [] 10 true true (some (text "drive-1")) (some drive_file) (text "bb22") meta
      (world drive_file) (record { metadata = λ id d. tt; properties = λ id m d. tt })
      ((refl, tt), (tt, tt)) (tt, tt) tt tt refl refl

upload_runs :
    (run_upload table pending_op_codec client disk to_rfc3339 parse_from_rfc3339
      (text "laptop")
      9_000_000_000
      notes
      10
      true
      true
      (some (text "drive-1"))
      (some drive_file)
      (world drive_file)).0
    ≡ ok (uploaded notes)
unfolding run_upload ◌>>=◌ is_safe_normalized_relative ends_with text_cmp
upload_runs = refl

-- A client that always finds the file changed.
abbrev busy : Client DriveFile Files
busy = record client { get_file_metadata_preflight = λ id d. (ok changed_drive_file, d) }

on_busy :
    Changed table pending_op_codec busy disk to_rfc3339 parse_from_rfc3339
      (text "laptop")
      9_000_000_000
      notes
      (text "drive-1")
      session.records
      session.conversions
      (λ d. d ≡ drive_file)
unfolding text_cmp revision_guard_matches revision_guard_from_record lookup
on_busy = record { differs = λ d. refl; preflight = λ d q. q; metadata = λ d q. q }

refused_upload_keeps_drive_example :
    Post
      (IsUnwritten table pending_op_codec busy disk to_rfc3339 parse_from_rfc3339
        (text "laptop")
        9_000_000_000
        notes
        (text "drive-1")
        session.records
        session.conversions
        (λ d. d ≡ drive_file)
        on_busy)
      (Untouched table pending_op_codec busy disk to_rfc3339 parse_from_rfc3339
        (text "laptop")
        9_000_000_000
        notes
        (text "drive-1")
        session.records
        session.conversions
        (λ d. d ≡ drive_file))
      (run_upload table pending_op_codec busy disk to_rfc3339 parse_from_rfc3339
        (text "laptop")
        9_000_000_000
        notes
        10
        true
        true
        (some (text "drive-1"))
        (some drive_file)
        (world drive_file))
refused_upload_keeps_drive_example =
    refused_upload_keeps_drive table pending_op_codec busy disk to_rfc3339 parse_from_rfc3339
      (text "laptop") 9_000_000_000 notes (text "drive-1") (λ d. d ≡ drive_file) 10 true
      (some drive_file) (world drive_file) on_busy refl refl

downloaded_is_quiet_example :
    Post
      (IfDownloadedQuiet table pending_op_codec client disk to_rfc3339 9_000_000_000 notes
        changed_drive_file
        (text "20260101")
        ConflictPolicy.remote_wins
        []
        [])
      (λ w. Unit)
      (run_download table pending_op_codec client disk to_rfc3339 9_000_000_000 notes
        (text "drive-1")
        (some changed_drive_file)
        (world changed_drive_file))
unfolding text_cmp
downloaded_is_quiet_example =
    downloaded_is_quiet table pending_op_codec client disk to_rfc3339 9_000_000_000 notes
      changed_drive_file (text "20260101") ConflictPolicy.remote_wins [] [] (text "drive-1")
      (world changed_drive_file) ((refl, tt), (tt, tt)) (tt, tt) tt tt refl

download_runs :
    (run_download table pending_op_codec client disk to_rfc3339 9_000_000_000 notes
      (text "drive-1")
      (some changed_drive_file)
      (world changed_drive_file)).0
    ≡ ok (downloaded notes)
unfolding run_download ◌>>=◌ is_safe_normalized_relative ends_with text_cmp
download_runs = refl

abbrev report : SyncReport
report = record {
  uploaded = [];
  downloaded = [];
  deleted_local = [];
  deleted_remote = [];
  conflicts = [];
  skipped = 0;
  errors = [];
}

is_some-false : (p : RelativePath) (o : Option Text) → ok_bool (is_some o) ≡ ok false → o ≡ none
is_some-false p none h = refl
is_some-false p (some t) h = cc

move-renamed :
    (p q : RelativePath) (f : Files) (o : Option Text)
    → f p ≡ o
    → (move p q o f).0 ≡ ok tt
    → (move p q o f).1 q ≡ f p
move-renamed p q f none e h = cc
move-renamed p q f (some t) e h = rw (text_eq_refl q, e) refl

move-others :
    (p q r : RelativePath) (f : Files) (o : Option Text)
    → text_eq r p ≡ false
    → text_eq r q ≡ false
    → (move p q o f).1 r ≡ f r
move-others p q r f none e h = refl
move-others p q r f (some t) e h = rw (e, h) refl

move-failed :
    (p q r : RelativePath) (f : Files) (o : Option Text) (x : ExecError)
    → (move p q o f).0 ≡ err x
    → (move p q o f).1 r ≡ f r
move-failed p q r f none x h = refl
move-failed p q r f (some t) x h = cc

disk-IsFileSystem : IsFileSystem disk (λ p f. f p)
disk-IsFileSystem = record {
  mkdir = λ p q f. refl;
  absent = λ p f h. is_some-false p (f p) h;
  renamed = λ p q f h. move-renamed p q f (f p) refl h;
  others = λ p q t f e g. move-others p q t f (f p) e g;
  failed = λ p q t f e h. move-failed p q t f (f p) e h;
}

-- The deletion of the notes on Drive was observed once.
abbrev observed : Option Bytes → table.State
observed none = no_rows
observed (some b) = table.put notes b no_rows

abbrev second_look : World table.State DriveFile Files
second_look = record (world drive_file) {
  tombstones =
      observed
        (tombstone_codec.serialize (first_observation (some (text "drive-1")) 5 (text "laptop")));
}

safe_delete_loses_nothing_example :
    Holds disk
      (λ p f. f p)
      disk-IsFileSystem
      (text "20260101")
      (text "bb22")
      (delete_local table pending_op_codec tombstone_codec DriveFile disk true
        (text "20260101")
        (text "laptop")
        7
        notes
        report
        second_look).1.disk
unfolding text_cmp
safe_delete_loses_nothing_example =
    safe_delete_loses_nothing table pending_op_codec tombstone_codec DriveFile disk (λ p f. f p)
      disk-IsFileSystem (text "20260101") (text "laptop") 7 notes report notes (text "bb22")
      second_look refl

delete_runs :
    (delete_local table pending_op_codec tombstone_codec DriveFile disk true
      (text "20260101")
      (text "laptop")
      7
      notes
      report
      second_look).0
    ≡ ok (record report { deleted_local = notes ∷ [] })
unfolding delete_local ◌>>=◌ is_safe_normalized_relative ends_with text_cmp upsert take_option
    put_option take_list put_many
delete_runs = refl

delete_local_waits_example :
    Post
      (λ r v.
        (r ≡ add_skip report) × (v.disk ≡ files) × (v.store ≡ session) × (v.pending_ops ≡ no_rows))
      (λ v. v ≡ world drive_file)
      (delete_local table pending_op_codec tombstone_codec DriveFile disk true
        (text "20260101")
        (text "laptop")
        7
        notes
        report
        (world drive_file))
unfolding read_tombstone
delete_local_waits_example =
    delete_local_waits table pending_op_codec tombstone_codec DriveFile disk true (text "20260101")
      (text "laptop") 7 notes report (world drive_file) refl

abbrev executor : SyncExecutor
executor = record {
  stability_ms = 10;
  device_id = text "laptop";
  safe_delete = true;
  use_leases = false;
}

abbrev plan : List SyncAction
plan =
    SyncAction.upload notes (some (text "drive-1"))
    ∷ SyncAction.delete_local (text "a.txt")
    ∷ SyncAction.cleanup_metadata (text "b.txt")
    ∷ []

execute_runs :
    (execute table pending_op_codec tombstone_codec client disk to_rfc3339 parse_from_rfc3339
      (text "20260101")
      9_000_000_000
      executor
      (λ tasks. tasks)
      plan
      (world drive_file)).0
    ≡ ok (record report { uploaded = notes ∷ []; skipped = 1 })
unfolding execute ◌>>=◌ is_safe_normalized_relative ends_with text_cmp upsert take_option put_option
    take_list put_many
execute_runs = refl
