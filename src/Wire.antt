-- ===== src/Wire.antt =====
-- The protobuf messages: src/whisper-text-protocol.ts (`encode` and `decode`) and src/group-proto.ts,
-- over the reader and the writer of protobufjs. A field that was never read is `none`.
pub mod Reader
pub mod Whisper
pub mod KeyExchange
pub mod Termination
pub mod Group
pub mod Conversion
