-- ===== src/Group/Record.antt =====
-- `SenderKeyRecord` of src/sender-key-record.ts: the states of one sender, the newest last.
pub mod Bounds
use libsignal_node.Common.{
  ℕ, Bytes, List, [], ◌∷◌, ◌++◌, map, Option, none, some, Bool, true, false, find?, remove_first,
  last?, drop, length, ltb, ◌==◌, nat_eq, if◌then◌else◌,
}
use libsignal_node.Platform.{Platform}
use libsignal_node.Group.State.{
  SenderKeyState, SerializedSenderKeyState, new_state, serialize_state, deserialize_state,
}

abbrev pub SenderKeyRecord : Type 0
SenderKeyRecord = List SenderKeyState

abbrev pub max_states : ℕ
max_states = 5

unfoldable pub is_empty : SenderKeyRecord → Bool
is_empty [] = true
is_empty (s ∷ states) = false

abbrev pub has_id : ℕ → SenderKeyState → Bool
has_id id s = s.sender_key_id == id

unfoldable pub get_sender_key_state : Option ℕ → SenderKeyRecord → Option SenderKeyState
get_sender_key_state none r = last? r
get_sender_key_state (some id) r = find? (has_id id) r

unfoldable pub push_state : SenderKeyState → SenderKeyRecord → SenderKeyRecord
push_state s r =
    let pushed = r ++ s ∷ [] in if ltb max_states (length pushed) then drop 1 pushed else pushed

-- A state with the same id is dropped, the new one comes last, and the oldest goes past the limit.
unfoldable pub add_sender_key_state :
    ℕ → ℕ → Bytes → Bytes → Option Bytes → SenderKeyRecord → SenderKeyRecord
unfolding push_state
add_sender_key_state id iteration chain_key signing_public signing_private r =
    push_state (new_state id iteration chain_key signing_public signing_private)
      (remove_first (has_id id) r)

unfoldable pub set_sender_key_state : ℕ → ℕ → Bytes → Bytes → Option Bytes → SenderKeyRecord
set_sender_key_state id iteration chain_key signing_public signing_private =
    new_state id iteration chain_key signing_public signing_private ∷ []

-- A change of the state object that `getSenderKeyState` returned shows in the record: of the last
-- state, or of the first with the id.
unfoldable pub update_last : SenderKeyState → SenderKeyRecord → SenderKeyRecord
update_last s' [] = []
update_last s' (s ∷ []) = s' ∷ []
update_last s' (s ∷ t ∷ r) = s ∷ update_last s' (t ∷ r)

unfoldable pub update_id : ℕ → SenderKeyState → SenderKeyRecord → SenderKeyRecord
update_id id s' [] = []
update_id id s' (s ∷ r) = if has_id id s then s' ∷ r else s ∷ update_id id s' r

module _ (p : Platform) where
  unfoldable pub serialize_record : SenderKeyRecord → List SerializedSenderKeyState
  serialize_record r = map (serialize_state p) r

  unfoldable pub deserialize_record : List SerializedSenderKeyState → SenderKeyRecord
  deserialize_record d = map (deserialize_state p) d
