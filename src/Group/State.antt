-- ===== src/Group/State.antt =====
-- `SenderKeyState` of src/sender-key-state.ts. The keys that `serialize` writes are base64 texts;
-- `toB64Buffer` also takes older shapes, which are not modelled.
use libsignal_node.Common.{
  ℕ, Bytes, List, [], ◌∷◌, ◌++◌, map, Option, none, some, Bool, String, any, find?, remove_first,
  drop, length, ltb, ◌==◌, nat_eq, string_eq, if◌then◌else◌, Result, ok, ◌>>=◌,
}
use libsignal_node.Platform.{Platform}
use libsignal_node.Group.ChainKey.{SenderChainKey, SenderMessageKey, new_message_key}

pub record StoredMessageKey : Type 0 where
  pub iteration : ℕ
  pub seed : Bytes

pub record SenderKeyState : Type 0 where
  pub sender_key_id : ℕ
  pub sender_chain_key : SenderChainKey
  pub signing_key_public : Bytes
  pub signing_key_private : Option Bytes
  pub sender_message_keys : List StoredMessageKey

abbrev pub max_message_keys : ℕ
max_message_keys = 2000

abbrev pub new_state : ℕ → ℕ → Bytes → Bytes → Option Bytes → SenderKeyState
new_state id iteration chain_key signing_public signing_private = record {
  sender_key_id = id;
  sender_chain_key = record { iteration = iteration; chain_key = chain_key };
  signing_key_public = signing_public;
  signing_key_private = signing_private;
  sender_message_keys = [];
}

unfoldable pub has_sender_message_key : ℕ → SenderKeyState → Bool
has_sender_message_key iteration s = any (λ k. k.iteration == iteration) s.sender_message_keys

-- `push`, and `shift` past the limit
unfoldable pub push_bounded : StoredMessageKey → List StoredMessageKey → List StoredMessageKey
push_bounded k keys =
    let pushed = keys ++ k ∷ [] in
    if ltb max_message_keys (length pushed) then drop 1 pushed else pushed

unfoldable pub add_sender_message_key : SenderMessageKey → SenderKeyState → SenderKeyState
unfolding push_bounded
add_sender_message_key k s = record s {
  sender_message_keys =
      push_bounded (record { iteration = k.iteration; seed = k.seed }) s.sender_message_keys;
}

unfoldable pub set_sender_chain_key : SenderChainKey → SenderKeyState → SenderKeyState
set_sender_chain_key c s = record s { sender_chain_key = c }

module _ (p : Platform) where
  -- The key, built anew from its seed, and the state without it.
  unfoldable pub remove_sender_message_key :
      ℕ → SenderKeyState → Result (Option SenderMessageKey × SenderKeyState)
  remove_sender_message_key iteration s =
      elim (find? (λ k. k.iteration == iteration) s.sender_message_keys) [
        | none ↦ ok (none, s)
        | some k ↦ do
          key ← new_message_key p k.iteration k.seed
          ok (
            some key,
            record s {
              sender_message_keys =
                  remove_first (λ k. k.iteration == iteration) s.sender_message_keys;
            },
          )
      ]

pub record SerializedSenderKeyState : Type 0 where
  pub sender_key_id : ℕ
  pub iteration : ℕ
  pub seed : String
  pub signing_key_public : String
  pub signing_key_private : Option String
  pub sender_message_keys : List (ℕ × String)

module _ (p : Platform) where
  unfoldable pub serialize_state : SenderKeyState → SerializedSenderKeyState
  serialize_state s = record {
    sender_key_id = s.sender_key_id;
    iteration = s.sender_chain_key.iteration;
    seed = p.to_base64 s.sender_chain_key.chain_key;
    signing_key_public = p.to_base64 s.signing_key_public;
    signing_key_private = elim s.signing_key_private [
      | none ↦ none
      | some k ↦ some (p.to_base64 k)
    ];
    sender_message_keys = map (λ k. (k.iteration, p.to_base64 k.seed)) s.sender_message_keys;
  }

  -- `private ? toB64Buffer(private) : undefined`: the empty text is no key.
  unfoldable pub deserialize_private : Option String → Option Bytes
  deserialize_private none = none
  deserialize_private (some t) = if t == "" then none else some (p.from_base64 t)

  unfoldable pub deserialize_state : SerializedSenderKeyState → SenderKeyState
  unfolding deserialize_private
  deserialize_state d = record {
    sender_key_id = d.sender_key_id;
    sender_chain_key = record { iteration = d.iteration; chain_key = p.from_base64 d.seed };
    signing_key_public = p.from_base64 d.signing_key_public;
    signing_key_private = deserialize_private d.signing_key_private;
    sender_message_keys =
        map (λ k. record { iteration = k.0; seed = p.from_base64 k.1 }) d.sender_message_keys;
  }
