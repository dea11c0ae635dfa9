-- ===== src/Executor.antt =====
-- src/sync/executor.rs: what applying an action writes. `Records` is the record of a synced file,
-- `Conflict` the follow-ups of a conflict, `Tombstone` the confirmation of deletions, `TrashRemote` a
-- deletion on Drive with its journal. Network and file access, semaphores, progress bars and logs are
-- not modelled.
pub mod Effects
pub mod Records
pub mod Conflict
pub mod ConflictLaws
pub mod LocalTrash
pub mod LocalTrashLaws
pub mod DeleteLocal
pub mod DeleteLocalLaws
pub mod Execute
pub mod RunExecute
pub mod Reports
pub mod Outcomes
pub mod ReportGrows
pub mod ReportOwed
pub mod ReportNamed
pub mod ExecuteNamed
pub mod ExecuteAll
pub mod ActionReports
pub mod ExecuteReports
pub mod Tombstone
pub mod TombstoneLaws
pub mod Guard
pub mod ForeignLease
pub mod Guarded
pub mod Upload
pub mod RunUpload
pub mod Settles
pub mod UploadLaws
pub mod UploadSettled
pub mod UploadQuiet
pub mod UploadGuarded
pub mod UploadRefused
pub mod Download
pub mod DownloadLaws
pub mod DownloadQuiet
pub mod TrashRemote
pub mod TrashSteps
pub mod TrashLaws
