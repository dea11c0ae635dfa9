-- ===== src/Examples/Codecs.antt =====
-- A table and the codecs of the examples.
use oxidrive.Base.{ℕ, zero, suc, ◌≡◌, refl, some, []}
use oxidrive.Base.Int.{ℤ, pos, negsuc}
use oxidrive.Text.{Text}
use oxidrive.TextMap.{TextMap, insert, remove}
use oxidrive.TextMap.Order.{IsOrdered, upsert-IsOrdered, remove-IsOrdered}
use oxidrive.Types.{
  SyncRecord, Tombstone, WorkspaceConversion, UploadSession, UploadSessionMode, create, update,
  convert, PendingOp, PendingOpKind, PendingOpStage, planned, side_effect_started, side_effect_done,
  metadata_committed,
}
use oxidrive.Store.Table.{Bytes, Table, Codec}
use oxidrive.Store.Persist.{Codecs}
use oxidrive.Examples.Wire.{Wire, number, pair, by, list, option, codec}

-- A table that is its rows.
abbrev pub table : Table
table = record {
  State = (m : TextMap Bytes) × IsOrdered m;
  rows = λ t. t.0;
  put = λ k b t. (insert k b t.0, upsert-IsOrdered _ k b t.0 t.1);
  delete = λ k t. (remove k t.0, remove-IsOrdered k t.0 t.1);
  rows-IsOrdered = λ t. t.1;
  rows-put = λ k b t. refl;
  rows-delete = λ k t. refl;
}

abbrev pub no_rows : table.State
no_rows = ([], tt)

abbrev pub string : Wire Text
string = list number

abbrev pub text_entry : Wire (Text × ℕ)
text_entry = pair string number

abbrev pub of_int : ℤ → ℕ × ℕ
of_int (pos n) = (0, n)
of_int (negsuc n) = (1, n)

abbrev pub to_int : ℕ × ℕ → ℤ
to_int (zero, n) = pos n
to_int (suc _, n) = negsuc n

pub int_back : (i : ℤ) → to_int (of_int i) ≡ i
int_back (pos n) = refl
int_back (negsuc n) = refl

abbrev pub integer : Wire ℤ
integer = by of_int to_int int_back (pair number number)

abbrev pub sync_record_codec : Codec SyncRecord
sync_record_codec = codec (
    by
      (λ r. (
        (r.drive_file_id, (r.remote_md5, r.remote_mime_type)),
        (
          (r.remote_modified_at, (r.local_md5, r.local_mtime)),
          (
            (r.local_size, r.last_synced_at),
            (r.remote_head_revision_id, (r.remote_version, r.version_vector)),
          ),
        ),
      ))
      (λ p. record {
        drive_file_id = p.0.0;
        remote_md5 = p.0.1.0;
        remote_mime_type = p.0.1.1;
        remote_modified_at = p.1.0.0;
        local_md5 = p.1.0.1.0;
        local_mtime = p.1.0.1.1;
        local_size = p.1.1.0.0;
        last_synced_at = p.1.1.0.1;
        remote_head_revision_id = p.1.1.1.0;
        remote_version = p.1.1.1.1.0;
        version_vector = p.1.1.1.1.1;
      })
      (λ r. refl)
      (pair (pair (option string) (pair (option string) (option string))) (
        pair (pair (option number) (pair string number)) (
          pair (pair number number)
            (pair (option string) (pair (option integer) (list text_entry)))))))

abbrev pub tombstone_codec : Codec Tombstone
tombstone_codec = codec (
    by (λ r. ((r.drive_file_id, r.deleted_at), (r.by_device, r.confirmations)))
      (λ p. record {
        drive_file_id = p.0.0;
        deleted_at = p.0.1;
        by_device = p.1.0;
        confirmations = p.1.1;
      })
      (λ r. refl) (pair (pair (option string) number) (pair string number)))

abbrev pub conversion_codec : Codec WorkspaceConversion
conversion_codec = codec (
    by (λ r. (r.drive_file_id, (r.google_mime, r.last_export_md5)))
      (λ p. record { drive_file_id = p.0; google_mime = p.1.0; last_export_md5 = p.1.1 })
      (λ r. refl) (pair string (pair string (option string))))

abbrev pub of_mode : UploadSessionMode → ℕ × (Text × Text)
of_mode (create a b) = (0, (a, b))
of_mode (update a) = (1, (a, []))
of_mode (convert a b) = (2, (a, b))

abbrev pub to_mode : ℕ × (Text × Text) → UploadSessionMode
to_mode (zero, p) = create p.0 p.1
to_mode (suc zero, p) = update p.0
to_mode (suc (suc _), p) = convert p.0 p.1

pub mode_back : (m : UploadSessionMode) → to_mode (of_mode m) ≡ m
mode_back (create a b) = refl
mode_back (update a) = refl
mode_back (convert a b) = refl

abbrev pub upload_session_codec : Codec UploadSession
upload_session_codec = codec (
    by (λ r. ((r.mode, r.session_url), ((r.next_offset, r.file_size), (r.local_md5, r.updated_at))))
      (λ p. record {
        mode = p.0.0;
        session_url = p.0.1;
        next_offset = p.1.0.0;
        file_size = p.1.0.1;
        local_md5 = p.1.1.0;
        updated_at = p.1.1.1;
      })
      (λ r. refl)
      (pair (pair (by of_mode to_mode mode_back (pair number (pair string string))) string)
        (pair (pair number number) (pair string number))))

abbrev pub of_kind : PendingOpKind → ℕ
of_kind PendingOpKind.upload = 0
of_kind PendingOpKind.download = 1
of_kind PendingOpKind.delete_local = 2
of_kind PendingOpKind.delete_remote = 3

abbrev pub to_kind : ℕ → PendingOpKind
to_kind zero = PendingOpKind.upload
to_kind (suc zero) = PendingOpKind.download
to_kind (suc (suc zero)) = PendingOpKind.delete_local
to_kind (suc (suc (suc _))) = PendingOpKind.delete_remote

pub kind_back : (k : PendingOpKind) → to_kind (of_kind k) ≡ k
kind_back PendingOpKind.upload = refl
kind_back PendingOpKind.download = refl
kind_back PendingOpKind.delete_local = refl
kind_back PendingOpKind.delete_remote = refl

abbrev pub of_stage : PendingOpStage → ℕ
of_stage planned = 0
of_stage side_effect_started = 1
of_stage side_effect_done = 2
of_stage metadata_committed = 3

abbrev pub to_stage : ℕ → PendingOpStage
to_stage zero = planned
to_stage (suc zero) = side_effect_started
to_stage (suc (suc zero)) = side_effect_done
to_stage (suc (suc (suc _))) = metadata_committed

pub stage_back : (k : PendingOpStage) → to_stage (of_stage k) ≡ k
stage_back planned = refl
stage_back side_effect_started = refl
stage_back side_effect_done = refl
stage_back metadata_committed = refl

abbrev pub pending_op_codec : Codec PendingOp
pending_op_codec = codec (
    by (λ r. ((r.kind, r.stage), r.updated_at))
      (λ p. record { kind = p.0.0; stage = p.0.1; updated_at = p.1 }) (λ r. refl)
      (pair (pair (by of_kind to_kind kind_back number) (by of_stage to_stage stage_back number))
        number))

abbrev pub codecs : Codecs
codecs = record {
  sync_record = sync_record_codec;
  conversion = conversion_codec;
  upload_session = upload_session_codec;
  into_bytes = λ s. s;
  from_utf8 = λ b. some b;
  from_utf8-into_bytes = λ s. refl;
}
