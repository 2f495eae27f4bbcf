-- ===== src/Tests.antt =====
-- Examples on concrete data: the theorems applied where their conditions hold.
mod Fixtures
mod Messages
mod Handshakes
mod Formats
mod Jobs
mod Stores
mod Files
mod Pools
mod Locks
mod Fingerprints
mod Decoders
mod Addresses
mod Conversations
mod Conversions
mod Curves
mod Groups
mod Failures
