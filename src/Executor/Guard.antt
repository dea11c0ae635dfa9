-- ===== src/Executor/Guard.antt =====
-- The guard of an upload over an existing Drive file: `revision_guard_matches` of
-- src/drive/upload.rs and `revision_guard_from_record` of src/sync/executor.rs.
use oxidrive.Base.{ℕ, ◌≡◌, ◌↔◌, refl, ap, Bool, true, false, Option, none, some, ◌==◌}
use oxidrive.Base.Int.{ℤ, int_eq, int_eq_iff}
use oxidrive.Text.{Text, text_eq, option_text_eq}
use oxidrive.Text.Order.{option_text_eq_iff, text_eq_iff}
use oxidrive.Types.{Timestamp, SyncRecord}
use oxidrive.Drive.{DriveFile, remote_content_fingerprint}
use oxidrive.Executor.Records.{synced_record}

pub record RevisionGuard : Type 0 where
  pub head_revision_id : Option Text
  pub version : Option ℤ
  pub remote_fingerprint : Option Text
  pub modified_time : Option Timestamp

unfoldable pub revision_guard_from_record : Option SyncRecord → RevisionGuard
revision_guard_from_record none = record {
  head_revision_id = none;
  version = none;
  remote_fingerprint = none;
  modified_time = none;
}
revision_guard_from_record (some r) = record {
  head_revision_id = r.remote_head_revision_id;
  version = r.remote_version;
  remote_fingerprint = r.remote_md5;
  modified_time = r.remote_modified_at;
}

abbrev option_int_eq : Option ℤ → ℤ → Bool
option_int_eq none i = false
option_int_eq (some j) i = int_eq j i

some-inj : {A : Type 0} (a b : A) → some a ≡ some b → a ≡ b
some-inj a b h = cc

option_int_eq_iff : (i : Option ℤ) (j : ℤ) → (option_int_eq i j ≡ true) ↔ (i ≡ some j)
option_int_eq_iff none j = (λ h. cc, λ h. cc)
option_int_eq_iff (some i) j =
    (λ h. ap some ((int_eq_iff i j).0 h), λ h. (int_eq_iff i j).1 (some-inj i j h))

module _ (to_rfc3339 : Timestamp → Text) where
  -- The early returns, in their order.
  abbrev matches_parts : DriveFile → Option Text → Option ℤ → Option Text → Option Timestamp → Bool
  matches_parts remote (some h) v f m = option_text_eq remote.head_revision_id (some h)
  matches_parts remote none (some v) f m = option_int_eq remote.version v
  matches_parts remote none none (some f) m =
      text_eq (remote_content_fingerprint to_rfc3339 remote) f
  matches_parts remote none none none (some m) = remote.modified_time == m
  matches_parts remote none none none none = true

  unfoldable pub revision_guard_matches : DriveFile → RevisionGuard → Bool
  revision_guard_matches remote expected =
      matches_parts remote expected.head_revision_id expected.version expected.remote_fingerprint
        expected.modified_time

  -- The Drive file is still the one that was synced, as far as Drive tells revisions apart.
  abbrev SameParts : DriveFile → DriveFile → Option Text → Option ℤ → Type 0
  SameParts r now (some h) v = now.head_revision_id ≡ r.head_revision_id
  SameParts r now none (some v) = now.version ≡ r.version
  SameParts r now none none =
      remote_content_fingerprint to_rfc3339 now ≡ remote_content_fingerprint to_rfc3339 r

  abbrev pub IsSameRevision : DriveFile → DriveFile → Type 0
  IsSameRevision r now = SameParts r now r.head_revision_id r.version

  matches_parts_iff :
      (r now : DriveFile) (h : Option Text) (v : Option ℤ)
      → r.head_revision_id ≡ h
      → r.version ≡ v
      → (matches_parts now h v
            (some (remote_content_fingerprint to_rfc3339 r))
            (some r.modified_time)
          ≡ true)
        ↔ SameParts r now h v
  matches_parts_iff r now (some h) v e f = rw e (option_text_eq_iff now.head_revision_id (some h))
  matches_parts_iff r now none (some v) e f = rw f (option_int_eq_iff now.version v)
  matches_parts_iff r now none none e f =
      text_eq_iff (remote_content_fingerprint to_rfc3339 now)
        (remote_content_fingerprint to_rfc3339 r)

  -- An upload guarded by the record of the last sync goes ahead exactly if the Drive file still has
  -- the head revision that it was synced with; if Drive gave none, the version; if it gave neither,
  -- the fingerprint.
  pub guard_matches_synced_iff :
      (md5 : Text) (mtime : Timestamp) (size : ℕ) (at : Timestamp) (r now : DriveFile)
      → (revision_guard_matches now (
            revision_guard_from_record (some (synced_record to_rfc3339 md5 mtime size at (some r))))
          ≡ true)
        ↔ IsSameRevision r now
  unfolding revision_guard_matches revision_guard_from_record synced_record
  guard_matches_synced_iff md5 mtime size at r now =
      matches_parts_iff r now r.head_revision_id r.version refl refl
