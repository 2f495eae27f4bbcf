-- ===== src/PreKey.antt =====
-- Prekeys: src/prekey-bundle-validator.ts, src/keyhelper.ts, src/prekey-pool.ts.
pub mod Validator
pub mod KeyHelper
pub mod Batch
pub mod Ids
pub mod Pool
