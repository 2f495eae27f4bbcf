-- ===== src/Storage/File.antt =====
-- `FileSignalStorage` of src/file-storage.ts: a storage in memory whose state is written to a file.
pub mod Snapshot
pub mod Disk
pub mod Saving
pub mod Crash
pub mod Conflict
pub mod Methods
pub mod Outcome
pub mod Reserving
pub mod Locking
pub mod Opening
pub mod Recovery
