-- ===== src/Session/Conversation.antt =====
-- Two devices that write to each other in turn: the double ratchet of src/session-cipher.ts, from the
-- handshake of src/session-builder.ts on.
pub mod Turns
pub mod Opening
pub mod Whole
