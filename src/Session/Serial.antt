-- ===== src/Session/Serial.antt =====
-- `serialize`, `deserialize` and the migrations of src/session-record.ts. The JSON text is left out:
-- what is modelled is the object that is written as JSON and read back. `entryVersion` and `version`
-- are always "v1" in memory, so only the serialized records hold them.
pub mod RoundTrip
use libsignal_node.Common.{
  ℕ, ◌≡◌, Bytes, List, [], ◌∷◌, map, Option, none, some, Bool, true, false, String, Dict, ◌==◌,
  string_eq, nat_eq, if◌then◌else◌, ℤ, Result, ok, err, ◌>>=◌, plain_error, put,
}
use libsignal_node.Platform.{Platform, KeyPair}
use libsignal_node.Session.Entry.{
  Chain, ChainKey, ChainType, BaseKeyType, CurrentRatchet, IndexInfo, PendingPreKey, SessionEntry,
}
use libsignal_node.Session.Record.{SessionRecord}

pub record SerializedChain : Type 0 where
  pub counter : ℤ
  pub key : Option String
  pub chain_type : ChainType
  pub message_keys : Dict ℕ String

pub record SerializedRatchet : Type 0 where
  pub pub_key : String
  pub priv_key : String
  pub last_remote_ephemeral_key : String
  pub previous_counter : ℤ
  pub root_key : String

pub record SerializedIndexInfo : Type 0 where
  pub base_key : String
  pub base_key_type : BaseKeyType
  pub closed : ℤ
  pub used : ℕ
  pub created : ℕ
  pub remote_identity_key : String

pub record SerializedPendingPreKey : Type 0 where
  pub signed_key_id : ℕ
  pub base_key : String
  pub pre_key_id : Option ℕ

pub record SerializedSessionEntry : Type 0 where
  pub entry_version : Option String
  pub registration_id : Option ℕ
  pub current_ratchet : SerializedRatchet
  pub index_info : SerializedIndexInfo
  pub pending_pre_key : Option SerializedPendingPreKey
  pub chains : Dict String SerializedChain

pub record SerializedSessionRecord : Type 0 where
  pub version : Option String
  pub registration_id : Option ℕ
  pub sessions : Dict String SerializedSessionEntry

-- `migrateEntry`: there are no entry migrations, so only an entry with no version passes.
unfoldable pub migrate_entry : Option String → Result (Unit {0})
migrate_entry none = ok tt
migrate_entry (some v) = err (plain_error "Error migrating SessionEntry")

-- The migration "v1" on one session: `if (!session.registrationId)` it takes the record's.
unfoldable pub migrate_session : ℕ → SerializedSessionEntry → SerializedSessionEntry
migrate_session id s = elim s.registration_id [
  | none ↦ record s { registration_id = some id }
  | some n ↦ if n == 0 then record s { registration_id = some id } else s
]

-- `migrate`, for a version that is not "v1"; without a registration id the migration only warns.
unfoldable pub migrate : SerializedSessionRecord → Result SerializedSessionRecord
unfolding migrate_session
migrate data' = elim data'.version [
  | some v ↦ err (plain_error "Error migrating SessionRecord")
  | none ↦ elim data'.registration_id [
    | none ↦ ok data'
    | some id ↦
        if id == 0
        then ok data'
        else ok
            (record data' { sessions = map (λ e. (e.0, migrate_session id e.1)) data'.sessions })
  ]
]

module _ (p : Platform) where
  unfoldable pub serialize_chain : Chain → SerializedChain
  serialize_chain c = record {
    counter = c.chain_key.counter;
    key = elim c.chain_key.key [ none ↦ none | some k ↦ some (p.to_base64 k) ];
    chain_type = c.chain_type;
    message_keys = map (λ e. (e.0, p.to_base64 e.1)) c.message_keys;
  }

  -- `key ? Buffer.from(key, "base64") : undefined`: the empty text is no key.
  unfoldable pub deserialize_key : Option String → Option Bytes
  deserialize_key none = none
  deserialize_key (some t) = if t == "" then none else some (p.from_base64 t)

  unfoldable pub deserialize_chain : SerializedChain → Chain
  deserialize_chain c = record {
    message_keys = map (λ e. (e.0, p.from_base64 e.1)) c.message_keys;
    chain_key = record { counter = c.counter; key = deserialize_key c.key };
    chain_type = c.chain_type;
  }

  unfoldable pub serialize_pending : PendingPreKey → SerializedPendingPreKey
  serialize_pending k = record {
    signed_key_id = k.signed_key_id;
    base_key = p.to_base64 k.base_key;
    pre_key_id = k.pre_key_id;
  }

  unfoldable pub deserialize_pending : SerializedPendingPreKey → PendingPreKey
  deserialize_pending k = record {
    signed_key_id = k.signed_key_id;
    base_key = p.from_base64 k.base_key;
    pre_key_id = k.pre_key_id;
  }

  unfoldable pub serialize_entry : SessionEntry → SerializedSessionEntry
  unfolding serialize_chain serialize_pending
  serialize_entry s = record {
    entry_version = some "v1";
    registration_id = s.registration_id;
    current_ratchet = record {
      pub_key = p.to_base64 s.current_ratchet.ephemeral_key_pair.pub_key;
      priv_key = p.to_base64 s.current_ratchet.ephemeral_key_pair.priv_key;
      last_remote_ephemeral_key = p.to_base64 s.current_ratchet.last_remote_ephemeral_key;
      previous_counter = s.current_ratchet.previous_counter;
      root_key = p.to_base64 s.current_ratchet.root_key;
    };
    index_info = record {
      base_key = p.to_base64 s.index_info.base_key;
      base_key_type = s.index_info.base_key_type;
      closed = s.index_info.closed;
      used = s.index_info.used;
      created = s.index_info.created;
      remote_identity_key = p.to_base64 s.index_info.remote_identity_key;
    };
    pending_pre_key = elim s.pending_pre_key [ none ↦ none | some k ↦ some (serialize_pending k) ];
    chains = map (λ e. (e.0, serialize_chain e.1)) s.chains;
  }

  unfoldable pub read_entry : SerializedSessionEntry → SessionEntry
  unfolding deserialize_chain deserialize_pending
  read_entry d = record {
    registration_id = d.registration_id;
    current_ratchet = record {
      ephemeral_key_pair = record {
        pub_key = p.from_base64 d.current_ratchet.pub_key;
        priv_key = p.from_base64 d.current_ratchet.priv_key;
      };
      last_remote_ephemeral_key = p.from_base64 d.current_ratchet.last_remote_ephemeral_key;
      previous_counter = d.current_ratchet.previous_counter;
      root_key = p.from_base64 d.current_ratchet.root_key;
    };
    index_info = record {
      base_key = p.from_base64 d.index_info.base_key;
      base_key_type = d.index_info.base_key_type;
      closed = d.index_info.closed;
      used = d.index_info.used;
      created = d.index_info.created;
      remote_identity_key = p.from_base64 d.index_info.remote_identity_key;
    };
    pending_pre_key = elim d.pending_pre_key [
      | none ↦ none
      | some k ↦ some (deserialize_pending k)
    ];
    chains = map (λ e. (e.0, deserialize_chain e.1)) d.chains;
  }

  abbrev is_current : Option String → Bool
  is_current none = false
  is_current (some v) = v == "v1"

  unfoldable pub deserialize_entry : SerializedSessionEntry → Result SessionEntry
  unfolding migrate_entry
  deserialize_entry d =
      if is_current d.entry_version
      then ok (read_entry d)
      else migrate_entry d.entry_version >>= λ _. ok (read_entry d)

  unfoldable pub serialize_record : SessionRecord → SerializedSessionRecord
  serialize_record r = record {
    version = some "v1";
    registration_id = none;
    sessions = map (λ e. (e.0, serialize_entry e.1)) r.sessions;
  }

  unfoldable pub deserialize_sessions :
      Dict String SerializedSessionEntry → Result (Dict String SessionEntry)
  deserialize_sessions [] = ok []
  deserialize_sessions ((key, d) ∷ rest) = do
    s ← deserialize_entry d
    sessions ← deserialize_sessions rest
    ok ((key, s) ∷ sessions)

  unfoldable pub deserialize_record : SerializedSessionRecord → Result SessionRecord
  unfolding migrate
  deserialize_record data' = do
    current ← (if is_current data'.version then ok data' else migrate data')
    sessions ← deserialize_sessions current.sessions
    ok (record { sessions = sessions })
