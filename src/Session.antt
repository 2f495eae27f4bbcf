-- ===== src/Session.antt =====
-- Sessions between two devices: src/session-record.ts, src/session-cipher.ts.
pub mod Entry
pub mod Chain
pub mod Ratchet
pub mod Message
pub mod Record
pub mod Serial
pub mod Handshake
pub mod Builder
pub mod Cipher
pub mod Conversation
pub mod Failure
