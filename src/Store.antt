-- ===== src/Store.antt =====
-- src/store/: the session store of a run and the redb database behind it. `Session` is the in-memory
-- store and its accessors, `Resume` and `Parents` what holds of its upload sessions and folder ids, `Table` what is assumed of redb and of the encoders, `Batch` the batch that
-- replaces the session tables, `Persist` saving and loading, `RoundTrip` their theorem.
pub mod Session
pub mod Resume
pub mod Parents
pub mod Table
pub mod Batch
pub mod BatchLaws
pub mod Persist
pub mod RoundTrip
