-- ===== src/Lib.antt =====
-- A model of the Signal protocol library of this repository and proofs about it. Sessions between two
-- devices: `SessionBuilder` (src/session-builder.ts) runs the X3DH handshake and puts a `SessionEntry` in
-- the `SessionRecord` of the other device (src/session-record.ts); `SessionCipher`
-- (src/session-cipher.ts) encrypts and decrypts on the entry's chains and steps the double ratchet; both
-- read and write a `SignalStorage` (src/types.ts), whose implementation in memory is
-- src/memory-storage.ts, and run as jobs of a queue per address (src/queue-job.ts). Groups:
-- `GroupSessionBuilder` (src/group-session-builder.ts) makes and takes sender keys, which
-- src/sender-key-record.ts keeps and `GroupCipher` (src/group-cipher.ts) uses. Prekeys and their ids come
-- from src/keyhelper.ts; src/prekey-bundle-validator.ts checks what peers send.
--
-- The files, with the sources that they translate:
--   Common, Common/*: numbers, lists, dictionaries, results and jobs, shared by all; the errors of
--     src/errors.ts are the constructors of `SignalError` in Common/Exec
--   Platform: what is not in this repository (node's crypto, the curve package, base64, protobufjs) as
--     a record of functions, and the laws that proofs use; Platform/Sample meets them
--   Crypto, Crypto/Hkdf: src/crypto.ts
--   Curve, Curve/Keys: src/curve.ts
--   Wire/Whisper, Wire/KeyExchange: the messages of src/whisper-text-protocol.ts; Wire/Conversion:
--     their `verify`, `fromObject`, `toObject` and `toJSON`; Wire/Group: src/group-proto.ts;
--     Wire/Reader: the loop that the decoders share
--   Address: src/protocol-address.ts and src/sender-key-name.ts
--   Session/Entry, Session/Record, Session/Serial: src/session-record.ts, src/chain-type.ts,
--     src/base-key-type.ts and src/util.ts
--   Session/Chain, Session/Ratchet, Session/Message, Session/Cipher: src/session-cipher.ts, from
--     `fillMessageKeys` up to the jobs `encrypt`, `decryptWhisperMessage` and the others
--   Session/Handshake, Session/Builder: src/session-builder.ts
--   PreKey/Validator: src/prekey-bundle-validator.ts; PreKey/KeyHelper, PreKey/Batch: src/keyhelper.ts
--   PreKey/Pool, PreKey/Pool/Bundles: src/prekey-pool.ts, over a record of the operations of a storage;
--     `memory_pool` is the memory storage as one
--   Group/ChainKey, Group/State, Group/Record: src/sender-chain-key.ts, src/sender-message-key.ts,
--     src/sender-key-state.ts, src/sender-key-record.ts
--   Group/Message: src/sender-key-message.ts, src/sender-key-distribution-message.ts
--   Group/Cipher: src/group-cipher.ts and src/group-session-builder.ts
--   Storage/Interface, Storage/Memory: src/types.ts, src/direction.ts and src/memory-storage.ts
--   Storage/File/*: src/file-storage.ts. Snapshot has the persisted state and its validation, Disk what
--     is in a file and the operations of a save, Saving the saving itself with revisions, Opening
--     `create`, Methods the storage's methods, Locking the lock file
--   Fingerprint: src/numeric-fingerprint.ts
--   Queue: src/queue-job.ts
--   Tests: the theorems applied to concrete data
-- The other files hold proofs about the module above them.
--
-- State and errors: a method that changes an object takes and returns it; one that can throw returns a
-- `Result`; a job over a storage is a `Job`, whose state holds what was written before a throw. Clock
-- readings and random draws are arguments. Numbers are natural numbers, or integers where the code
-- uses -1; a counter becomes a 32-bit number, `>>> 0`, where it is written to the wire.
--
-- Files: the snapshot, its backup and the temporary file are the three fields of `Files`, and a save is a
-- list of operations on them, of which any number is done when the process stops or one of them fails.
-- The maps of `FileSignalStorage` are those of `MemorySignalStorage`. The lock is a step relation: each
-- call of `fs` on the lock file is one step of one process, in any order, and the exclusive write two.
--
-- Loops and their bounds: `fillMessageKeys` takes one round for each key up to the target, which is the
-- number of rounds it is given; `getSenderKey` likewise; `removeOldSessions` deletes one session a
-- round, and is given as many rounds as there are sessions; a decoder reads at least one byte a round,
-- and is given as many rounds as there are bytes.
--
-- Not modelled: in src/file-storage.ts file modes, syncing, the copy of a corrupt snapshot that is kept
-- aside and the methods that only read; in src/prekey-pool.ts the promises that concurrent calls share
-- and the timer; random draws (src/group-keyhelper.ts), the logger and the exports; the delimited forms
-- of src/whisper-text-protocol.ts, which the program does not call; overwriting a buffer that nothing
-- reads afterwards.
pub mod Common
pub mod Platform
pub mod Crypto
pub mod Curve
pub mod Wire
pub mod Address
pub mod Session
pub mod PreKey
pub mod Group
pub mod Storage
pub mod Queue
pub mod Fingerprint
pub mod Tests
