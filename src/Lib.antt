-- ===== src/Lib.antt =====
-- oxidrive keeps a local directory and a Google Drive folder in step. This library models the parts of
-- it that decide and that remember, and proves what keeps files safe.
--
-- The parts and how they interact. One cycle (src/sync/engine.rs) recovers the journal of an interrupted
-- run, takes a view of Drive, compares every path's local file, Drive file and stored record
-- (src/sync/decision.rs, with the version vectors of src/sync/coordination.rs), clears the tombstones of
-- paths that this plan does not delete, executes the plan (src/sync/executor.rs) and saves the session
-- (src/store/session.rs over src/store/db.rs). Paths and records are those of src/types.rs, Drive files
-- those of src/drive/types.rs.
--
-- Files and sources.
--   Base, Text, TextMap: numbers, texts as lists of code points, and BTreeMap or HashMap with text keys
--     as the ordered list of entries.
--   Types, Types/Path, Types/PathSafety: src/types.rs. Instants are numbers of nanoseconds.
--   Coordination and its children: src/sync/coordination.rs; parse, to_text (Display), merge, increment,
--     dominance, bounded_app_property_value and write_into_app_properties keep their names.
--   Drive, Drive/Names, Drive/Lease: src/drive/types.rs and src/drive/locks.rs.
--   Decision and its children: src/sync/decision.rs, and ConflictPolicy of src/config.rs.
--   Store/Session, Store/Persist, Store/Batch: src/store/session.rs and the transaction of
--     src/store/db.rs. Store/Resume: session_is_valid of src/sync/executor.rs.
--     Store/Table holds what is relied on of redb and bincode.
--   Executor/Records, Conflict, Tombstone, ForeignLease, Guard: src/sync/executor.rs, and the revision
--     guard of src/drive/upload.rs.
--     Executor/TrashRemote is run_trash_remote as a list of steps, Executor/TrashLaws its crashes.
--   Executor/Effects: the state that a transfer reads and writes (World) and the actions on it (Exec),
--     with the Drive client and the file system as the records Client and Disk; Effects/Hoare and Keeps
--     are the rules for what an action ensures.
--   Executor/Guarded: the guarded updates of src/drive/upload.rs. Executor/Upload and RunUpload:
--     run_upload of src/sync/executor.rs and what it calls, with has_open_lock of src/sync/scan.rs.
--     Executor/Download: run_download. Executor/DeleteLocal and LocalTrash: the DeleteLocal branch of
--     execute and move_local_file_to_trash. Settles, UploadLaws, UploadSettled, UploadQuiet,
--     UploadGuarded, UploadRefused, DownloadLaws, DownloadQuiet, LocalTrashLaws and DeleteLocalLaws are
--     their theorems. Executor/Execute and RunExecute: SyncExecutor::execute. Reports,
--     ActionReports and ExecuteReports count the entries of its report; Outcomes, ReportGrows, ReportOwed,
--     ReportNamed, ExecuteNamed and ExecuteAll are about the paths that it names.
--   Engine/Stub, Engine/Placement, Engine/Recovery: src/sync/engine.rs. Engine/View is
--     build_incremental_remote_view with what it calls, Engine/ViewLoop and ViewKept its
--     passes, ViewLinks and ViewLaws its maps.
--   Engine/Plan: the decisions that run_sync of src/sync/engine.rs plans, and the paths to upload.
--   Scan/Glob, Scan, Scan/Walk: glob_match, the ignore patterns and walk_tree of src/sync/scan.rs, and
--     effective_ignore_patterns of src/config.rs. Scan/Meaning is the meaning of a pattern.
--   Drive/Upload: the chunk loop of src/drive/upload.rs. Drive/Resumed: its update_file_with_resume,
--     which replaces an expired session. Drive/Listing: the names of the files of one
--     folder in src/drive/list.rs. Drive/Query, Drive/Folders and its laws (FoldersRooted,
--     FoldersLaws, FoldersNeeded, FoldersMade): src/drive/folders.rs. Drive/Changes:
--     src/drive/changes.rs. Retry: src/utils/retry.rs.
--   Examples: a table, codecs and values at which each property is applied.
--
-- Correspondence. State that the source mutates is passed and returned: Store is the session with its
-- locked maps, RedbStore the tables. Result<T, _> is Option or a result type. The order of a HashMap's
-- iteration is the order of its keys here; no theorem uses it. The time, the texts that chrono formats
-- or parses, the redb tables and the bincode codecs are parameters: a Table is an ordered map with put
-- and delete, a Codec decodes what it encoded and may refuse to encode. Locks are never poisoned.
--
-- Bounds and fuel. A loop that does not run over a list runs on fuel, and a theorem says that it does
-- not run out: the searches for a free name take one round more than the map has entries, since their
-- candidates all differ (TextMap/Search); the passes over the changes one more than there are changes,
-- since each but the last places one; glob_match one for each pair of positions in the text and the
-- pattern, and the upload one more than the file has bytes; a retried call max_retries + 1; the search for a name in the trash the source's 1024; the pages
-- of changes a number that the theorem lets the pages of Drive not exceed.
-- Counters of version vectors saturate at u64::MAX and confirmations at u32::MAX, lengths in bytes are
-- those of UTF-8, and i64 is the type of signed numbers Base/Int, as versions are stored and compared
-- only.
--
-- Not modelled: what a request to Drive or to the file system does, which is a parameter; OAuth, the
-- daemon and the watcher, the services, the index, the command line and logs; they are I/O around the
-- parts above. Of the engine, the cycle itself; of the executor, the purge of the trash, the progress
-- bar and the conflict log. The tasks that execute spawns run one at a time behind its loop, in an order
-- that is a parameter, with the clock standing still, and none panics; of the lease table, which only
-- uploads write and nothing reads back, there is no state.
pub mod Base
pub mod Text
pub mod TextMap
pub mod Coordination
pub mod Types
pub mod Drive
pub mod Decision
pub mod Store
pub mod Executor
pub mod Scan
pub mod Retry
pub mod Engine
pub mod Examples
