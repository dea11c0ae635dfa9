-- ===== src/Examples.antt =====
-- A concrete database and codecs, and each property at a concrete input.
mod Wire
mod Codecs
mod World
mod Decisions
mod Journals
mod Vectors
mod Names
mod Plans
mod Scans
mod Runs
mod Requests
mod Transfers
