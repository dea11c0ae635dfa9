-- ===== src/Executor/UploadRefused.antt =====
-- The whole of `run_upload` over a Drive file that somebody else changed.
use oxidrive.Base.{ℕ, ◌≡◌, refl, Bool, true, false, Option, none, some}
use oxidrive.Text.{Text, is_empty}
use oxidrive.TextMap.{TextMap, lookup}
use oxidrive.Types.{Timestamp, SyncRecord, PendingOp, PendingOpKind, planned, WorkspaceConversion}
use oxidrive.Types.Path.{RelativePath}
use oxidrive.Drive.{DriveFile}
use oxidrive.Scan.{is_stable}
use oxidrive.Store.Table.{Table, Codec}
use oxidrive.Executor.Effects.{World, Client, Disk, Metadata}
use oxidrive.Executor.Effects.Hoare.{
  Post, Ensures, Ensures-pure, Ensures-if, Ensures-then, Ensures-learn,
}
use oxidrive.Executor.Effects.Keeps.{
  IsFrame, Keeps-lift, Keeps-gets, Keeps-read, Keeps-stage, Keeps-ask,
}
use oxidrive.Executor.Upload.{Outcome, skipped, Candidate}
use oxidrive.Executor.RunUpload.{
  transfer, nonempty_id, leased_elsewhere, upload_stable, upload_unlocked, run_upload,
}
use oxidrive.Executor.UploadGuarded.{
  Changed, Untouched, frame, learns_record, IsUnwritten, upload_existing_lem,
}

module _ (T : Table) (P : Codec PendingOp) {D F : Type 0} (C : Client D F) (K : Disk F)
    (to_rfc3339 : Timestamp → Text) (parse_from_rfc3339 : Text → Option Timestamp)
    (device_id : Text) (now : Timestamp) (path : RelativePath) (id : Text) (rs : TextMap SyncRecord)
    (cs : TextMap WorkspaceConversion) (Q : D → Type 0)
    (changed : Changed T P C K to_rfc3339 parse_from_rfc3339 device_id now path id rs cs Q) where
  abbrev I : World T.State D F → Type 0
  I = Untouched T P C K to_rfc3339 parse_from_rfc3339 device_id now path id rs cs Q

  abbrev kept : IsFrame I I
  kept = frame T P C K to_rfc3339 parse_from_rfc3339 device_id now path id rs cs Q

  abbrev Unwritten : Outcome → World T.State D F → Type 0
  Unwritten =
      IsUnwritten T P C K to_rfc3339 parse_from_rfc3339 device_id now path id rs cs Q changed

  transfer_lem :
      (c : Candidate)
      → is_empty id ≡ false
      → c.existing_record ≡ lookup path rs
      → Ensures I
          (transfer T P C K to_rfc3339 parse_from_rfc3339 device_id now path true
            (nonempty_id T P C K to_rfc3339 parse_from_rfc3339 device_id now path (some id))
            c)
          Unwritten
          I
  transfer_lem c ne e = rw ne (
      upload_existing_lem T P C K to_rfc3339 parse_from_rfc3339 device_id now path id rs cs Q
        changed c e)

  upload_stable_lem :
      (row : Option DriveFile) (m : Metadata)
      → is_empty id ≡ false
      → Ensures I
          (upload_stable T P C K to_rfc3339 parse_from_rfc3339 device_id now path true
            (some id)
            row
            m)
          Unwritten
          I
  unfolding upload_stable
  upload_stable_lem row m ne = Ensures-then _ _ (Keeps-gets kept _) (λ set_root.
      Ensures-then _ _ (Keeps-lift kept _) (λ root. Ensures-then _ _ (Keeps-gets kept _) (λ parent.
        Ensures-then _ _ (Keeps-lift kept _) (λ parent_id.
          Ensures-then _ _ (Keeps-gets kept _) (λ conv. Ensures-then _ _ (Keeps-read kept _) (λ md5.
            Ensures-learn {X = λ v. v ≡ lookup path rs} _ _
              (learns_record T P C K to_rfc3339 parse_from_rfc3339 device_id now path id rs cs Q)
              (λ existing e.
                Ensures-then _ _ (Keeps-stage T P kept now path PendingOpKind.upload planned)
                  (λ _. transfer_lem _ ne e))))))))

  leased_lem :
      (use_leases : Bool) (row : Option DriveFile)
      → is_empty id ≡ false
      → Ensures I
          (leased_elsewhere T P C K to_rfc3339 parse_from_rfc3339 device_id now path use_leases row
            (nonempty_id T P C K to_rfc3339 parse_from_rfc3339 device_id now path (some id)))
          (λ _. I)
          I
  unfolding leased_elsewhere
  leased_lem false row ne = Ensures-pure false (λ w h. h)
  leased_lem true (some remote) ne =
      Ensures-then _ _ (Ensures-pure (some remote) (λ w h. h)) (λ r. Ensures-pure _ (λ w h. h))
  leased_lem true none ne = rw ne (
      Ensures-then _ _
        (Ensures-then _ _ (Keeps-ask kept _ (λ w h. (h.0, h.1, changed.metadata w.drive h.2)))
          (λ r. Ensures-pure _ (λ w h. h)))
        (λ r. Ensures-pure _ (λ w h. h)))

  upload_unlocked_lem :
      (stability_ms : ℕ) (use_leases : Bool) (row : Option DriveFile)
      → is_empty id ≡ false
      → Ensures I
          (upload_unlocked T P C K to_rfc3339 parse_from_rfc3339 device_id now path stability_ms
            true use_leases
            (some id)
            row)
          Unwritten
          I
  unfolding upload_unlocked
  upload_unlocked_lem stability_ms use_leases row ne =
      Ensures-then _ _ (leased_lem use_leases row ne) (λ leased.
        Ensures-if leased _ _ (λ _. Ensures-pure skipped (λ w h. (h, tt)))
          (λ _. Ensures-then _ _ (Keeps-read kept _) (λ m.
            Ensures-if (is_stable m.modified now stability_ms) _ _ (λ _. upload_stable_lem row m ne)
              (λ _. Ensures-pure skipped (λ w h. (h, tt))))))

  refused_lem :
      (stability_ms : ℕ) (use_leases : Bool) (row : Option DriveFile)
      → is_empty id ≡ false
      → Ensures I
          (run_upload T P C K to_rfc3339 parse_from_rfc3339 device_id now path stability_ms true
            use_leases
            (some id)
            row)
          Unwritten
          I
  unfolding run_upload
  refused_lem stability_ms use_leases row ne = Ensures-then _ _ (Keeps-lift kept _) (λ _.
      Ensures-then _ _ (Keeps-gets kept _) (λ locked.
        Ensures-if locked _ _ (λ _. Ensures-pure skipped (λ w h. (h, tt)))
          (λ _. upload_unlocked_lem stability_ms use_leases row ne)))

-- With the guard enforced, if every look at the Drive file finds one that does not match the guard of
-- the path's record, `run_upload` does not say that it was uploaded, leaves the records and the
-- conversions as they were, and keeps every property of Drive's state that looking at the file keeps;
-- all this behind errors too.
pub refused_upload_keeps_drive :
    (T : Table) (P : Codec PendingOp) {D F : Type 0} (C : Client D F) (K : Disk F)
    (to_rfc3339 : Timestamp → Text) (parse_from_rfc3339 : Text → Option Timestamp)
    (device_id : Text) (now : Timestamp) (path : RelativePath) (id : Text) (Q : D → Type 0)
    (stability_ms : ℕ) (use_leases : Bool) (row : Option DriveFile) (w : World T.State D F)
    → (changed : Changed T P C K to_rfc3339 parse_from_rfc3339 device_id now path id w.store.records
        w.store.conversions Q)
    → is_empty id ≡ false
    → Q w.drive
    → Post
        (IsUnwritten T P C K to_rfc3339 parse_from_rfc3339 device_id now path id w.store.records
          w.store.conversions Q changed)
        (Untouched T P C K to_rfc3339 parse_from_rfc3339 device_id now path id w.store.records
          w.store.conversions Q)
        (run_upload T P C K to_rfc3339 parse_from_rfc3339 device_id now path stability_ms true
          use_leases
          (some id)
          row
          w)
refused_upload_keeps_drive T P C K to_rfc3339 parse_from_rfc3339 device_id now path id Q
      stability_ms use_leases row w changed ne q =
    (refused_lem T P C K to_rfc3339 parse_from_rfc3339 device_id now path id w.store.records
        w.store.conversions Q changed stability_ms use_leases row ne).at
      w (refl, refl, q)
