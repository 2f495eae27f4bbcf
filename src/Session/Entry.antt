-- ===== src/Session/Entry.antt =====
-- `SessionEntry` of src/session-record.ts. `_chains` is a plain object keyed by base64 texts, whose
-- entries keep the order of insertion; `messageKeys` is a plain object keyed by numbers, whose entries
-- are kept in ascending order of the index, as JavaScript enumerates them (below 2 ^ 32 - 1).
pub mod Chains
use libsignal_node.Common.{
  ℕ, zero, ◌-◌, ◌≡◌, Bytes, List, [], ◌∷◌, map, Option, none, some, Bool, true, false, String, Dict,
  lookup, put, delete, length, take, replicate, ltb, ◌==◌, nat_eq, string_eq, if◌then◌else◌, ℤ,
  minus_one, int_eq, Result, ok, err, plain_error, reference_error, keep_if,
}
use libsignal_node.Platform.{Platform, KeyPair}

pub data ChainType : Type 0 where
  sending receiving : ChainType

pub data BaseKeyType : Type 0 where
  ours theirs : BaseKeyType

pub record ChainKey : Type 0 where
  pub counter : ℤ
  pub key : Option Bytes

pub record Chain : Type 0 where
  pub message_keys : Dict ℕ Bytes
  pub chain_key : ChainKey
  pub chain_type : ChainType

pub record CurrentRatchet : Type 0 where
  pub ephemeral_key_pair : KeyPair
  pub last_remote_ephemeral_key : Bytes
  pub previous_counter : ℤ
  pub root_key : Bytes

pub record IndexInfo : Type 0 where
  pub base_key : Bytes
  pub base_key_type : BaseKeyType
  pub closed : ℤ
  pub used : ℕ
  pub created : ℕ
  pub remote_identity_key : Bytes

pub record PendingPreKey : Type 0 where
  pub signed_key_id : ℕ
  pub base_key : Bytes
  pub pre_key_id : Option ℕ

pub record SessionEntry : Type 0 where
  pub registration_id : Option ℕ
  pub current_ratchet : CurrentRatchet
  pub index_info : IndexInfo
  pub pending_pre_key : Option PendingPreKey
  pub chains : Dict String Chain

-- `messageKeys[index] = key`
unfoldable pub put_message_key : ℕ → Bytes → Dict ℕ Bytes → Dict ℕ Bytes
put_message_key index key [] = (index, key) ∷ []
put_message_key index key ((i, k) ∷ rest) =
    if ltb index i
    then (index, key) ∷ (i, k) ∷ rest
    else if i == index
    then (i, key) ∷ rest
    else (i, k) ∷ put_message_key index key rest

-- `buffer.fill(0)`
unfoldable pub wipe_buffer : Bytes → Bytes
wipe_buffer b = replicate (length b) 0

abbrev pub is_receiving : Chain → Bool
is_receiving c = elim c.chain_type [ ChainType.sending ↦ false | ChainType.receiving ↦ true ]

-- The ids of the receiving chains, oldest first.
unfoldable pub receiving_ids : Dict String Chain → List String
receiving_ids [] = []
receiving_ids ((id, c) ∷ chains) =
    let rest = receiving_ids chains in if is_receiving c then id ∷ rest else rest

unfoldable pub delete_all : List String → Dict String Chain → Dict String Chain
delete_all [] chains = chains
delete_all (id ∷ ids) chains = delete_all ids (delete id chains)

unfoldable pub remove_old_receiver_chains : ℕ → SessionEntry → SessionEntry
remove_old_receiver_chains max s =
    let ids = receiving_ids s.chains in
    record s { chains = delete_all (take (length ids - max) ids) s.chains }

unfoldable pub wipe_chain : Chain → Chain
unfolding wipe_buffer
wipe_chain c = record c {
  chain_key = record {
    counter = c.chain_key.counter;
    key = elim c.chain_key.key [ none ↦ none | some k ↦ some (wipe_buffer k) ];
  };
  message_keys = map (λ e. (e.0, wipe_buffer e.1)) c.message_keys;
}

unfoldable pub wipe_key_material : SessionEntry → SessionEntry
unfolding wipe_chain wipe_buffer
wipe_key_material s = record s {
  current_ratchet = record s.current_ratchet {
    ephemeral_key_pair = record s.current_ratchet.ephemeral_key_pair {
      priv_key = wipe_buffer s.current_ratchet.ephemeral_key_pair.priv_key;
    };
    root_key = wipe_buffer s.current_ratchet.root_key;
  };
  chains = map (λ e. (e.0, wipe_chain e.1)) s.chains;
}

module _ (p : Platform) where
  unfoldable pub get_chain : Bytes → SessionEntry → Option Chain
  get_chain key s = lookup (p.to_base64 key) s.chains

  unfoldable pub add_chain : Bytes → Chain → SessionEntry → Result SessionEntry
  add_chain key value s = elim (lookup (p.to_base64 key) s.chains) [
    | some _ ↦ err (plain_error "Overwrite attempt")
    | none ↦ ok (record s { chains = put (p.to_base64 key) value s.chains })
  ]

  unfoldable pub delete_chain : Bytes → SessionEntry → Result SessionEntry
  delete_chain key s = elim (lookup (p.to_base64 key) s.chains) [
    | none ↦ err (reference_error "Not Found")
    | some _ ↦ ok (record s { chains = delete (p.to_base64 key) s.chains })
  ]

  -- A write through the reference that `getChain(key)` returned.
  unfoldable pub update_chain : Bytes → Chain → SessionEntry → SessionEntry
  update_chain key c s = record s { chains = put (p.to_base64 key) c s.chains }
