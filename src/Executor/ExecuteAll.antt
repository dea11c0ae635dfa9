-- ===== src/Executor/ExecuteAll.antt =====
-- `execute` loses none of the plan's actions.
use oxidrive.Base.{Option, IsIn}
use oxidrive.Text.{Text}
use oxidrive.Types.{Timestamp, Tombstone, PendingOp, SyncAction}
use oxidrive.Store.Table.{Table, Codec}
use oxidrive.Executor.Effects.{Client, Disk}
use oxidrive.Executor.Outcomes.{Hindered}
use oxidrive.Executor.ReportNamed.{SaysUpload, SaysDownload}
use oxidrive.Executor.DeleteLocal.{SyncReport}
use oxidrive.Executor.Execute.{SyncExecutor}

module _ (T : Table) (P : Codec PendingOp) (C : Codec Tombstone) {D F : Type 0}
    (client : Client D F) (K : Disk F) (to_rfc3339 : Timestamp → Text)
    (parse_from_rfc3339 : Text → Option Timestamp) (stamp : Text) (now : Timestamp)
    (self : SyncExecutor) where
  -- What the report says of an action.
  abbrev pub Says : SyncAction → SyncReport → Type 0
  Says (SyncAction.upload path id) r =
      SaysUpload (Hindered K self.use_leases now self.stability_ms path) path r
  Says (SyncAction.download path id) r = SaysDownload path r
  Says (SyncAction.conflict path id md5 c) r = IsIn path r.conflicts
  Says other r = Unit
