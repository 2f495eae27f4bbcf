-- ===== src/Storage.antt =====
-- Storages: the interface of the session code, and the in-memory implementation.
pub mod Interface
pub mod Memory
pub mod File
