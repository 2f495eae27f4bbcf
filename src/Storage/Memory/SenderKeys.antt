-- ===== src/Storage/Memory/SenderKeys.antt =====
-- `MemorySignalStorage` as a `SenderKeyStore`. The keys are the texts that `SenderKeyName.serialize`
-- makes.
use Prim.Native.String.{◌++◌ as text_append}
use text.Mathlib.Text.{starts_with}
use libsignal_node.Common.{Option, none, some, not, String, lookup, put, delete, keep_if, string_eq}
use libsignal_node.Platform.{Platform}
use libsignal_node.Group.Record.{SenderKeyRecord, serialize_record, deserialize_record}
use libsignal_node.Storage.Memory.{MemorySignalStorage}

module _ (p : Platform) where
  unfoldable pub load_sender_key : String → MemorySignalStorage → Option SenderKeyRecord
  load_sender_key name m = elim (lookup name m.sender_keys) [
    | none ↦ none
    | some stored ↦ some (deserialize_record p (serialize_record p stored))
  ]

unfoldable pub store_sender_key :
    String → SenderKeyRecord → MemorySignalStorage → MemorySignalStorage
store_sender_key name r m = record m { sender_keys = put name r m.sender_keys }

unfoldable pub remove_sender_key : String → MemorySignalStorage → MemorySignalStorage
remove_sender_key name m = record m { sender_keys = delete name m.sender_keys }

-- Every key that begins with the group's id and "::" goes.
unfoldable pub remove_group_sessions : String → MemorySignalStorage → MemorySignalStorage
remove_group_sessions group_id m = record m {
  sender_keys = keep_if (λ e. not (starts_with e.0 (text_append group_id "::"))) m.sender_keys;
}
