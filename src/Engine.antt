-- ===== src/Engine.antt =====
-- src/sync/engine.rs: what a cycle reads back before it decides, and its plan. `Stub` is the Drive
-- view that an incremental cycle takes from the records, `Placement` the free path that a new Drive
-- file gets, `View` the changes applied to that view, `Plan` the decisions for all paths and `Recovery`
-- the journal of interrupted operations. The cycle itself, which calls Drive and the file system, is
-- not modelled.
pub mod Stub
pub mod Placement
pub mod PlacementLaws
pub mod View
pub mod ViewLoop
pub mod ViewLinks
pub mod ViewLaws
pub mod ViewKept
pub mod Plan
pub mod PlanLaws
pub mod Recovery
pub mod RecoveryLaws
pub mod Settlement
