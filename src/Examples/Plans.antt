-- ===== src/Examples/Plans.antt =====
-- A cycle in which the notes were edited here and changed on Drive.
use oxidrive.Base.{IsIn, ◌≡◌, refl, List, [], ◌∷◌}
use oxidrive.Text.{text, text_cmp}
use oxidrive.TextMap.{TextMap, lookup}
use oxidrive.Types.{LocalFile, SyncAction}
use oxidrive.Drive.{DriveFile}
use oxidrive.Store.Session.{get, get_conversion}
use oxidrive.Decision.{ConflictPolicy}
use oxidrive.Decision.Edited.{Spares}
use oxidrive.Engine.Plan.{action_for, plan_actions}
use oxidrive.Engine.PlanLaws.{action_path, plan_carries_edits}
use oxidrive.Examples.World.{
  to_rfc3339, notes, edited_file, changed_drive_file, sync_record, session, edited_md5-ne,
}

abbrev local : TextMap LocalFile
local = (notes, edited_file) ∷ []

abbrev remote : TextMap DriveFile
remote = (notes, changed_drive_file) ∷ []

abbrev plan : List SyncAction
plan = plan_actions to_rfc3339 (text "20260101") ConflictPolicy.local_wins local remote session

plan_carries_edits_example :
    IsIn
      (action_for to_rfc3339 (text "20260101") ConflictPolicy.local_wins local remote session notes)
      plan
    × ((a : SyncAction) → IsIn a plan → action_path a ≡ notes → Spares notes a)
unfolding lookup get get_conversion text_cmp
plan_carries_edits_example =
    plan_carries_edits to_rfc3339 (text "20260101") ConflictPolicy.local_wins local remote session
      notes edited_file sync_record refl refl edited_md5-ne
