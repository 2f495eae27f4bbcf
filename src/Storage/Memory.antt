-- ===== src/Storage/Memory.antt =====
-- `MemorySignalStorage` of src/memory-storage.ts. The clock is an argument. The calls of
-- `onIdentityChanged` and of the prekey listeners are logged, oldest first; what they do is not
-- modelled. Sessions are copied by serializing when they are loaded.
pub mod Trust
pub mod SenderKeys
pub mod Signed
use Prim.Native.String.{◌++◌ as text_append}
use text.Mathlib.Text.{starts_with}
use libsignal_node.Common.{
  ℕ, ◌+◌, Bytes, List, [], ◌∷◌, ◌++◌, map, Option, none, some, Bool, true, false, not, ◌||◌, String,
  Dict, lookup, put, delete, ltb, leb, any, keep_if, ◌==◌, nat_eq, string_eq, bytes_eq,
  if◌then◌else◌, ok, err, Result, ◌>>=◌,
}
use libsignal_node.Common.Jobs.{gets, modify}
use libsignal_node.Platform.{Platform, KeyPair}
use libsignal_node.PreKey.KeyHelper.{SignedPreKey}
use libsignal_node.Group.Record.{SenderKeyRecord}
use libsignal_node.Session.Record.{SessionRecord}
use libsignal_node.Session.Serial.{serialize_record, deserialize_record}
use libsignal_node.Storage.Interface.{SignalStorage, Direction}

pub data IdentityTrustPolicy : Type 0 where
  tofu strict : IdentityTrustPolicy

pub record IdentityChangedEvent : Type 0 where
  pub identifier : String
  pub identity_key : Bytes
  pub previous_identity_key : Bytes

pub record MemorySignalStorage : Type 0 where
  pub identity_key_pair : KeyPair
  pub registration_id : ℕ
  pub sessions : Dict String SessionRecord
  pub pre_keys : Dict ℕ KeyPair
  pub published_pre_keys : List ℕ
  pub signed_pre_keys : Dict ℕ KeyPair
  pub trusted_identities : Dict String Bytes
  pub sender_keys : Dict String SenderKeyRecord
  pub retired_signed_pre_keys : Dict ℕ ℕ
  pub next_pre_key_id : ℕ
  pub latest_signed_pre_key : Option SignedPreKey
  pub signed_pre_key_grace_period : ℕ
  pub identity_trust_policy : IdentityTrustPolicy
  pub identity_changes : List IdentityChangedEvent
  pub removed_pre_keys : List ℕ

abbrev pub contains : ℕ → List ℕ → Bool
contains id = any (λ j. j == id)

unfoldable pub store_session : String → SessionRecord → MemorySignalStorage → MemorySignalStorage
store_session id session m = record m { sessions = put id session m.sessions }

unfoldable pub is_trusted_identity :
    String → Bytes → Direction → MemorySignalStorage → Bool × MemorySignalStorage
is_trusted_identity identifier identity_key direction m =
    elim (lookup identifier m.trusted_identities) [
      | some existing ↦ (existing == identity_key, m)
      | none ↦ elim m.identity_trust_policy [
        | strict ↦ (false, m)
        | tofu ↦ (
          true,
          record m { trusted_identities = put identifier identity_key m.trusted_identities },
        )
      ]
    ]

-- The address of a session is `identifier`, or begins with `identifier` and a dot.
unfoldable pub belongs_to : String → String → Bool
belongs_to identifier key = key == identifier || starts_with key (text_append identifier ".")

unfoldable pub remove_sessions_for : String → Dict String SessionRecord → Dict String SessionRecord
unfolding belongs_to
remove_sessions_for identifier = keep_if (λ e. not (belongs_to identifier e.0))

unfoldable pub save_identity : String → Bytes → MemorySignalStorage → Bool × MemorySignalStorage
save_identity identifier identity_key m =
    let trusted = put identifier identity_key m.trusted_identities in
    elim (lookup identifier m.trusted_identities) [
      | none ↦ (true, record m { trusted_identities = trusted })
      | some existing ↦
          if existing == identity_key then (false, record m { trusted_identities = trusted }) else (
            true,
            record m {
              trusted_identities = trusted;
              sessions = remove_sessions_for identifier m.sessions;
              identity_changes =
                  m.identity_changes
                  ++ record {
                    identifier = identifier;
                    identity_key = identity_key;
                    previous_identity_key = existing;
                  }
                    ∷ [];
            },
          )
    ]

unfoldable pub remove_identity : String → MemorySignalStorage → MemorySignalStorage
remove_identity identifier m = record m {
  trusted_identities = delete identifier m.trusted_identities;
  sessions = remove_sessions_for identifier m.sessions;
}

unfoldable pub load_identity : String → MemorySignalStorage → Option Bytes
load_identity identifier m = lookup identifier m.trusted_identities

unfoldable pub load_pre_key : ℕ → MemorySignalStorage → Option KeyPair
load_pre_key id m = lookup id m.pre_keys

abbrev pub discard : ℕ → List ℕ → List ℕ
discard id = keep_if (λ j. not (j == id))

unfoldable pub remove_pre_key : ℕ → MemorySignalStorage → MemorySignalStorage
remove_pre_key id m = record m {
  pre_keys = delete id m.pre_keys;
  published_pre_keys = discard id m.published_pre_keys;
  removed_pre_keys = elim (lookup id m.pre_keys) [
    | none ↦ m.removed_pre_keys
    | some _ ↦ m.removed_pre_keys ++ id ∷ []
  ];
}

-- `sort((a, b) => a - b)`
unfoldable pub insert_number : ℕ → List ℕ → List ℕ
insert_number n [] = n ∷ []
insert_number n (k ∷ ks) = if ltb n k then n ∷ k ∷ ks else k ∷ insert_number n ks

unfoldable pub sort_numbers : List ℕ → List ℕ
unfolding insert_number
sort_numbers [] = []
sort_numbers (k ∷ ks) = insert_number k (sort_numbers ks)

unfoldable pub list_pre_key_ids : MemorySignalStorage → List ℕ
list_pre_key_ids m = sort_numbers (map (λ e. e.0) m.pre_keys)

unfoldable pub list_available_pre_key_ids : MemorySignalStorage → List ℕ
list_available_pre_key_ids m =
    sort_numbers
      (keep_if (λ id. not (contains id m.published_pre_keys)) (map (λ e. e.0) m.pre_keys))

unfoldable pub has_pre_key : ℕ → MemorySignalStorage → Bool
has_pre_key id m = elim (lookup id m.pre_keys) [ none ↦ false | some _ ↦ true ]

unfoldable pub reserve_pre_key : ℕ → MemorySignalStorage → Bool × MemorySignalStorage
unfolding has_pre_key
reserve_pre_key id m =
    if not (has_pre_key id m) || contains id m.published_pre_keys
    then (false, m)
    else (true, record m { published_pre_keys = m.published_pre_keys ++ id ∷ [] })

unfoldable pub release_pre_key : ℕ → MemorySignalStorage → Bool × MemorySignalStorage
release_pre_key id m = (
  contains id m.published_pre_keys,
  record m { published_pre_keys = discard id m.published_pre_keys },
)

unfoldable pub load_signed_pre_key : ℕ → MemorySignalStorage → Option KeyPair
load_signed_pre_key id m = lookup id m.signed_pre_keys

unfoldable pub store_pre_key : ℕ → KeyPair → MemorySignalStorage → MemorySignalStorage
store_pre_key id key_pair m = record m { pre_keys = put id key_pair m.pre_keys }

-- The loop of `pruneRetiredSignedPreKeys` over the retired keys.
unfoldable pub prune_retired : ℕ → Dict ℕ ℕ → MemorySignalStorage → MemorySignalStorage
prune_retired now [] m = m
prune_retired now ((id, retired_at) ∷ rest) m = prune_retired now rest (
    if leb (retired_at + m.signed_pre_key_grace_period) now
    then record m {
      signed_pre_keys = delete id m.signed_pre_keys;
      retired_signed_pre_keys = delete id m.retired_signed_pre_keys;
    }
    else m)

-- `storeSignedPreKey` on a record: the key that was the latest retires now.
unfoldable pub store_signed_pre_key : ℕ → SignedPreKey → MemorySignalStorage → MemorySignalStorage
unfolding prune_retired
store_signed_pre_key now k m =
    let retired : Dict ℕ ℕ = elim m.latest_signed_pre_key [
      | none ↦ m.retired_signed_pre_keys
      | some latest ↦
          if latest.key_id == k.key_id
          then m.retired_signed_pre_keys
          else put latest.key_id now m.retired_signed_pre_keys
    ] in
    prune_retired now retired (record m {
      retired_signed_pre_keys = retired;
      signed_pre_keys = put k.key_id k.key_pair m.signed_pre_keys;
      latest_signed_pre_key = some k;
    })

unfoldable pub remove_signed_pre_key : ℕ → MemorySignalStorage → MemorySignalStorage
remove_signed_pre_key id m = record m {
  signed_pre_keys = delete id m.signed_pre_keys;
  retired_signed_pre_keys = delete id m.retired_signed_pre_keys;
}

unfoldable pub set_next_pre_key_id : ℕ → MemorySignalStorage → MemorySignalStorage
set_next_pre_key_id id m = record m { next_pre_key_id = id }

module _ (p : Platform) where
  unfoldable pub load_session : String → MemorySignalStorage → Result (Option SessionRecord)
  load_session id m = elim (lookup id m.sessions) [
    | none ↦ ok none
    | some stored ↦ do r ← deserialize_record p (serialize_record p stored); ok (some r)
  ]

  -- What the session code sees of it.
  abbrev pub memory_storage : SignalStorage MemorySignalStorage
  memory_storage = record {
    load_session = λ id m. (load_session id m, m);
    store_session = λ id r. modify (store_session id r);
    is_trusted_identity = λ id key direction m.
        let (trusted, m') = is_trusted_identity id key direction m in (ok trusted, m');
    load_identity = λ id. gets (load_identity id);
    load_pre_key = λ id. gets (load_pre_key id);
    remove_pre_key = λ id. modify (remove_pre_key id);
    load_signed_pre_key = λ id. gets (load_signed_pre_key id);
    get_our_registration_id = gets (λ m. m.registration_id);
    get_our_identity = gets (λ m. m.identity_key_pair);
  }
