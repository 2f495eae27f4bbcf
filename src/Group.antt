-- ===== src/Group.antt =====
-- Sender keys: the group part of the program.
pub mod ChainKey
pub mod State
pub mod Record
pub mod Message
pub mod Cipher
