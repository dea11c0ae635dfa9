-- ===== src/Engine/Stub.antt =====
-- `remote_from_records` of src/sync/engine.rs and what it calls: an incremental cycle starts from
-- Drive files made of the records.
use oxidrive.Base.{
  ℕ, ◌≡◌, refl, sym, ap, ◌∙◌, inl, inr, true, false, Option, none, some, List, [], ◌∷◌, ◌++◌, arith,
  if◌then◌else◌, Option-cases, Bool-cases,
}
use oxidrive.Text.{Text, text, text_eq, rsplit_once, starts_with}
use oxidrive.Text.Order.{text_cmp_refl, text_eq_iff}
use oxidrive.TextMap.{TextMap, lookup, insert}
use oxidrive.TextMap.Order.{IsOrdered, lookup-Above, upsert-IsOrdered}
use oxidrive.TextMap.Laws.{lookup-upsert}
use oxidrive.Types.{Timestamp, LocalFile, SyncRecord, SyncAction}
use oxidrive.Types.Path.{RelativePath}
use oxidrive.Drive.{DriveFile, fingerprint_of, remote_content_fingerprint}
use oxidrive.Coordination.{from_map, to_text}
use oxidrive.Store.Session.{Store, get}
use oxidrive.Decision.{ConflictPolicy, determine_action_converted_with_remote_ids}
use oxidrive.Decision.Safety.{decide}
use oxidrive.Executor.Records.{synced_record}

abbrev pub name_part : Text → Option (Text × Text) → Text
name_part raw none = raw
name_part raw (some (_, name)) = name

unfoldable pub file_name_from_relative : RelativePath → Text
unfolding rsplit_once
file_name_from_relative path = name_part path (rsplit_once b'/' path)

abbrev props_of_entries : TextMap ℕ → TextMap Text
props_of_entries [] = []
props_of_entries (e ∷ m) = insert (text "ox_vv") (to_text (from_map (e ∷ m))) []

unfoldable pub app_properties_from_record : SyncRecord → TextMap Text
app_properties_from_record record_ = props_of_entries record_.version_vector

abbrev or_octet_stream : Option Text → Text
or_octet_stream none = text "application/octet-stream"
or_octet_stream (some mime) = mime

-- `.filter(|v| !v.starts_with("mtime:"))`
abbrev without_mtime : Option Text → Option Text
without_mtime none = none
without_mtime (some v) = if starts_with v (text "mtime:") then none else some v

abbrev or_time : Option Timestamp → Timestamp → Timestamp
or_time none t = t
or_time (some own) t = own

abbrev stub_of_id : RelativePath → SyncRecord → Text → Option Text → Option DriveFile
stub_of_id path m root_id none = none
stub_of_id path m root_id (some id) = some (record {
  id = id;
  name = file_name_from_relative path;
  mime_type = or_octet_stream m.remote_mime_type;
  md5_checksum = without_mtime m.remote_md5;
  modified_time = or_time m.remote_modified_at m.last_synced_at;
  size = some m.local_size;
  head_revision_id = m.remote_head_revision_id;
  version = m.remote_version;
  app_properties = app_properties_from_record m;
  parents = root_id ∷ [];
  trashed = false;
})

unfoldable pub stub_drive_file_from_record : RelativePath → SyncRecord → Text → Option DriveFile
unfolding file_name_from_relative app_properties_from_record
stub_drive_file_from_record path m root_id = stub_of_id path m root_id m.drive_file_id

abbrev insert_stub : RelativePath → Option DriveFile → TextMap DriveFile → TextMap DriveFile
insert_stub path none remote = remote
insert_stub path (some stub) remote = insert path stub remote

-- The loop over the records.
unfoldable pub stubs : TextMap SyncRecord → Text → TextMap DriveFile → TextMap DriveFile
unfolding stub_drive_file_from_record
stubs [] root_id remote = remote
stubs ((path, m) ∷ records) root_id remote =
    stubs records root_id (insert_stub path (stub_drive_file_from_record path m root_id) remote)

unfoldable pub remote_from_records : Store → Text → TextMap DriveFile
unfolding stubs
remote_from_records store root_id = stubs store.records root_id []

starts_with_append : (p s : Text) → starts_with (p ++ s) p ≡ true
starts_with_append [] [] = refl
starts_with_append [] (c ∷ s) = refl
starts_with_append (c ∷ p) s = ground (arith, starts_with_append p s)

module _ (to_rfc3339 : Timestamp → Text) where
  -- A Drive checksum is hexadecimal: it does not start with `mtime:`.
  abbrev pub IsChecksum : Option Text → Type 0
  IsChecksum none = Unit
  IsChecksum (some md5) = starts_with md5 (text "mtime:") ≡ false

  -- What the record keeps of the fingerprint is enough to compute it again.
  fingerprint-without_mtime :
      (c : Option Text) (t : Timestamp)
      → IsChecksum c
      → fingerprint_of to_rfc3339 (without_mtime (some (fingerprint_of to_rfc3339 c t))) t
        ≡ fingerprint_of to_rfc3339 c t
  fingerprint-without_mtime none t h =
      ap
        (λ b.
          fingerprint_of to_rfc3339 (if b then none else some (text "mtime:" ++ to_rfc3339 t)) t)
        (starts_with_append (text "mtime:") (to_rfc3339 t))
  fingerprint-without_mtime (some v) t h =
      ap (λ b. fingerprint_of to_rfc3339 (if b then none else some v) t) h

  -- If a plain file was recorded with a Drive file, and neither the local file nor, by the change feed, the
  -- Drive file changed since, the Drive file that an incremental cycle makes of the record leads the
  -- decision to skip: nothing is transferred, deleted or reported as a conflict. The Drive checksum,
  -- if any, must not start with `mtime:`.
  pub stub_is_quiet :
      (stamp : Text) (path : RelativePath) (policy : ConflictPolicy) (ids : List Text)
      (l : LocalFile) (r : DriveFile) (now : Timestamp) (root_id : Text)
      → IsChecksum r.md5_checksum
      → (stub : DriveFile) × (stub_drive_file_from_record path
            (synced_record to_rfc3339 l.md5 l.mtime l.size now (some r))
            root_id
          ≡ some stub)
        × (decide to_rfc3339 stamp path policy false none ids
              (some l)
              (some stub)
              (some (synced_record to_rfc3339 l.md5 l.mtime l.size now (some r)))
            ≡ SyncAction.skip path)
  unfolding stub_drive_file_from_record synced_record determine_action_converted_with_remote_ids
  stub_is_quiet stamp path policy ids l r now root_id h =
      let kept = fingerprint-without_mtime r.md5_checksum r.modified_time h in
      (
        _,
        refl,
        ground (
          arith,
          kept,
          text_cmp_refl l.md5,
          text_cmp_refl (remote_content_fingerprint to_rfc3339 r),
        ),
      )

abbrev pub stub_of : RelativePath → Text → Option SyncRecord → Option DriveFile
stub_of path root_id none = none
stub_of path root_id (some m) = stub_drive_file_from_record path m root_id

abbrev pub over {ℓ} : {A : Type ℓ} → Option A → Option A → Option A
over none below = below
over (some a) below = some a

over-none {ℓ} : {A : Type ℓ} (a : Option A) → over a none ≡ a
over-none none = refl
over-none (some a) = refl

insert_stub-IsOrdered :
    (path : RelativePath) (o : Option DriveFile) (remote : TextMap DriveFile)
    → IsOrdered remote
    → IsOrdered (insert_stub path o remote)
insert_stub-IsOrdered path none remote h = h
insert_stub-IsOrdered path (some stub) remote h = upsert-IsOrdered _ path stub remote h

stubs-IsOrdered :
    (records : TextMap SyncRecord) (root_id : Text) (remote : TextMap DriveFile)
    → IsOrdered remote
    → IsOrdered (stubs records root_id remote)
unfolding stubs
stubs-IsOrdered [] root_id remote h = h
stubs-IsOrdered ((path, m) ∷ records) root_id remote h =
    let stub = stub_drive_file_from_record path m root_id in
    stubs-IsOrdered records root_id (insert_stub path stub remote)
      (insert_stub-IsOrdered path stub remote h)

pub remote_from_records-IsOrdered :
    (s : Store) (root_id : Text) → IsOrdered (remote_from_records s root_id)
unfolding remote_from_records
remote_from_records-IsOrdered s root_id = stubs-IsOrdered s.records root_id [] tt

lookup-insert_stub :
    (p path : RelativePath) (o : Option DriveFile) (remote : TextMap DriveFile)
    → IsOrdered remote
    → lookup p (insert_stub path o remote)
      ≡ (if text_eq p path then over o (lookup p remote) else lookup p remote)
lookup-insert_stub p path none remote h = ground arith
lookup-insert_stub p path (some stub) remote h = elim (Option-cases (lookup path remote)) [
  | inl e ↦ ground (arith, e, lookup-upsert (λ _. stub) p path stub remote h)
  | inr (w, e) ↦ ground (arith, e, lookup-upsert (λ _. stub) p path stub remote h)
]

lookup-stubs :
    (p : RelativePath) (records : TextMap SyncRecord) (root_id : Text) (remote : TextMap DriveFile)
    → IsOrdered records
    → IsOrdered remote
    → lookup p (stubs records root_id remote)
      ≡ over (stub_of p root_id (lookup p records)) (lookup p remote)
unfolding stubs lookup
lookup-stubs p [] root_id remote o r = refl
lookup-stubs p ((path, m) ∷ records) root_id remote o r =
    let stub = stub_drive_file_from_record path m root_id in
    let at_own : text_eq p path ≡ true
        → over (stub_of p root_id (lookup p records))
            (if text_eq p path then over stub (lookup p remote) else lookup p remote)
          ≡ over (stub_of p root_id (if text_eq p path then some m else lookup p records))
              (lookup p remote) =
      λ e.
        let q = (text_eq_iff p path).0 e in
        let gone : lookup p records ≡ none =
          ap (λ k. lookup k records) q ∙ lookup-Above path records o.0 in
        rw (e, gone)
          (ap (λ k. over (stub_drive_file_from_record k m root_id) (lookup p remote)) (sym q)) in
    lookup-stubs p records root_id (insert_stub path stub remote) o.1
      (insert_stub-IsOrdered path stub remote r)
    ∙ (rw (lookup-insert_stub p path stub remote r)
        (elim (Bool-cases (text_eq p path)) [ inl e ↦ at_own e | inr e ↦ rw e refl ]))

-- If the records are a map, the view that an incremental cycle starts from holds, at every path, the Drive file made of the
-- path's record, and none where there is no record or the record has no Drive id.
pub lookup-remote_from_records :
    (s : Store) (root_id : Text) (path : RelativePath)
    → IsOrdered s.records
    → lookup path (remote_from_records s root_id) ≡ stub_of path root_id (get path s)
unfolding remote_from_records get lookup
lookup-remote_from_records s root_id path o =
    lookup-stubs path s.records root_id [] o tt ∙ over-none (stub_of path root_id (get path s))
