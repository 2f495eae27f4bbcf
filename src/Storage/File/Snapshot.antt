-- ===== src/Storage/File/Snapshot.antt =====
-- The persisted state of src/file-storage.ts: `PersistedState`, its validation by
-- `normalizePersistedState`, `toSnapshot` and `applySnapshot`. The tests that a value is an object, a
-- buffer or a number are the types here. In what order a plain object enumerates its keys is not
-- modelled: nothing depends on it, since the maps are read by key and the lists are sorted.
use libsignal_node.Common.{
  ℕ, ◌-◌, ◌^◌, Bytes, List, [], ◌∷◌, map, Option, none, some, true, false, ◌&&◌, String, Dict,
  lookup, length, leb, keep_if, ◌==◌, nat_eq, string_eq, if◌then◌else◌, Result, ok, err, ◌>>=◌,
  ◌>>◌, require, or_throw, plain_error, unsupported_format_version,
}
use libsignal_node.Platform.{Platform, KeyPair}
use libsignal_node.PreKey.KeyHelper.{SignedPreKey}
use libsignal_node.PreKey.Validator.{max_key_id}
use libsignal_node.Session.Record.{SessionRecord}
use libsignal_node.Session.Serial.{SerializedSessionRecord, serialize_record, deserialize_record}
use libsignal_node.Group.State.{SerializedSenderKeyState}
use libsignal_node.Group.Record.{SenderKeyRecord}
use libsignal_node.Group.Record
use libsignal_node.Storage.Memory.{MemorySignalStorage, contains, sort_numbers}

pub record PersistedState : Type 0 where
  pub revision : ℕ
  pub identity_key_pair : KeyPair
  pub registration_id : ℕ
  pub next_pre_key_id : ℕ
  pub latest_signed_pre_key : Option SignedPreKey
  pub pre_keys : Dict ℕ KeyPair
  pub published_pre_key_ids : List ℕ
  pub signed_pre_keys : Dict ℕ KeyPair
  pub retired_signed_pre_keys : Dict ℕ ℕ
  pub trusted_identities : Dict String Bytes
  pub sessions : Dict String SerializedSessionRecord
  pub sender_keys : Dict String (List SerializedSenderKeyState)

-- What a file holds, before it is checked: every property may be missing.
pub record RawState : Type 0 where
  pub format_version : Option ℕ
  pub revision : Option ℕ
  pub identity_key_pair : Option KeyPair
  pub registration_id : Option ℕ
  pub next_pre_key_id : Option ℕ
  pub latest_signed_pre_key : Option SignedPreKey
  pub pre_keys : Option (Dict ℕ KeyPair)
  pub published_pre_key_ids : Option (List ℕ)
  pub signed_pre_keys : Option (Dict ℕ KeyPair)
  pub retired_signed_pre_keys : Option (Dict ℕ ℕ)
  pub trusted_identities : Option (Dict String Bytes)
  pub sessions : Option (Dict String SerializedSessionRecord)
  pub sender_keys : Option (Dict String (List SerializedSenderKeyState))

abbrev pub current_format_version : ℕ
current_format_version = 1

abbrev pub max_safe_integer : ℕ
max_safe_integer = 2 ^ 53 - 1

-- `value ?? initial`
abbrev pub value_or {ℓ} : {A : Type ℓ} → Option A → A → A
value_or none initial = initial
value_or (some a) initial = a

unfoldable pub assert_integer : ℕ → String → ℕ → ℕ → Result (Unit {0})
assert_integer value field low high = require (leb low value && leb value high) (plain_error field)

unfoldable pub assert_buffer : Bytes → String → ℕ → Result (Unit {0})
assert_buffer value field size = require (length value == size) (plain_error field)

unfoldable pub assert_key_pair : KeyPair → String → Result (Unit {0})
unfolding assert_buffer
assert_key_pair k field = do assert_buffer k.pub_key field 33; assert_buffer k.priv_key field 32

unfoldable pub assert_key_pair_map : Dict ℕ KeyPair → String → Result (Unit {0})
unfolding assert_integer assert_key_pair
assert_key_pair_map [] field = ok tt
assert_key_pair_map ((id, k) ∷ keys) field = do
  assert_integer id field 0 max_key_id
  assert_key_pair k field
  assert_key_pair_map keys field

unfoldable pub assert_buffer_map : Dict String Bytes → String → ℕ → Result (Unit {0})
unfolding assert_buffer
assert_buffer_map [] field size = ok tt
assert_buffer_map ((id, b) ∷ buffers) field size = do
  assert_buffer b field size
  assert_buffer_map buffers field size

unfoldable pub assert_retired_signed_pre_keys : Dict ℕ ℕ → Result (Unit {0})
unfolding assert_integer
assert_retired_signed_pre_keys [] = ok tt
assert_retired_signed_pre_keys ((id, timestamp) ∷ retired) = do
  assert_integer id "retiredSignedPreKeys key id" 0 max_key_id
  assert_integer timestamp "retiredSignedPreKeys" 0 max_safe_integer
  assert_retired_signed_pre_keys retired

unfoldable pub assert_number_array : List ℕ → String → Result (Unit {0})
unfolding assert_integer
assert_number_array [] field = ok tt
assert_number_array (id ∷ ids) field = do
  assert_integer id field 0 max_key_id
  assert_number_array ids field

unfoldable pub assert_signed_pre_key : Option SignedPreKey → String → Result (Unit {0})
unfolding assert_integer assert_buffer assert_key_pair
assert_signed_pre_key none field = ok tt
assert_signed_pre_key (some k) field = do
  assert_integer k.key_id field 0 max_key_id
  assert_key_pair k.key_pair field
  assert_buffer k.signature field 64
  assert_integer k.created_at field 0 max_safe_integer

-- `Array.from(new Set(ids))`, the first of equal ids being kept.
unfoldable pub distinct_ids : List ℕ → List ℕ → List ℕ
distinct_ids seen [] = []
distinct_ids seen (id ∷ ids) =
    let rest = distinct_ids (id ∷ seen) ids in if contains id seen then rest else id ∷ rest

-- An absent `formatVersion` is the legacy version, which is the current one too.
unfoldable pub check_format_version : Option ℕ → Result (Unit {0})
check_format_version found =
    let version = value_or found 1 in
    do
      require (leb 1 version) (plain_error "invalid formatVersion")
      require (leb version current_format_version)
          (unsupported_format_version "unsupported formatVersion")

unfoldable pub normalize_persisted_state : RawState → Result PersistedState
unfolding check_format_version assert_key_pair assert_integer
normalize_persisted_state value = do
  check_format_version value.format_version
  identity_key_pair ←
      or_throw value.identity_key_pair (plain_error "identityKeyPair must be an object")
  assert_key_pair identity_key_pair "identityKeyPair"
  registration_id ← or_throw value.registration_id (plain_error "registrationId must be an integer")
  assert_integer registration_id "registrationId" 0 0x3fff
  assert_integer (value_or value.revision 0) "revision" 0 max_safe_integer
  assert_integer (value_or value.next_pre_key_id 1) "nextPreKeyId" 0 max_key_id
  assert_key_pair_map (value_or value.pre_keys []) "preKeys"
  assert_number_array (value_or value.published_pre_key_ids []) "publishedPreKeyIds"
  assert_key_pair_map (value_or value.signed_pre_keys []) "signedPreKeys"
  assert_retired_signed_pre_keys (value_or value.retired_signed_pre_keys [])
  assert_buffer_map (value_or value.trusted_identities []) "trustedIdentities" 33
  assert_signed_pre_key value.latest_signed_pre_key "latestSignedPreKey"
  ok (record {
    revision = value_or value.revision 0;
    identity_key_pair = identity_key_pair;
    registration_id = registration_id;
    next_pre_key_id = value_or value.next_pre_key_id 1;
    latest_signed_pre_key = value.latest_signed_pre_key;
    pre_keys = value_or value.pre_keys [];
    published_pre_key_ids = distinct_ids [] (value_or value.published_pre_key_ids []);
    signed_pre_keys = value_or value.signed_pre_keys [];
    retired_signed_pre_keys = value_or value.retired_signed_pre_keys [];
    trusted_identities = value_or value.trusted_identities [];
    sessions = value_or value.sessions [];
    sender_keys = value_or value.sender_keys [];
  })

-- The object that `JSON.stringify` writes for a state.
unfoldable pub raw_of : PersistedState → RawState
raw_of d = record {
  format_version = some current_format_version;
  revision = some d.revision;
  identity_key_pair = some d.identity_key_pair;
  registration_id = some d.registration_id;
  next_pre_key_id = some d.next_pre_key_id;
  latest_signed_pre_key = d.latest_signed_pre_key;
  pre_keys = some d.pre_keys;
  published_pre_key_ids = some d.published_pre_key_ids;
  signed_pre_keys = some d.signed_pre_keys;
  retired_signed_pre_keys = some d.retired_signed_pre_keys;
  trusted_identities = some d.trusted_identities;
  sessions = some d.sessions;
  sender_keys = some d.sender_keys;
}

module _ (p : Platform) where
  unfoldable pub to_snapshot : ℕ → MemorySignalStorage → PersistedState
  to_snapshot revision m = record {
    revision = revision;
    identity_key_pair = m.identity_key_pair;
    registration_id = m.registration_id;
    next_pre_key_id = m.next_pre_key_id;
    latest_signed_pre_key = m.latest_signed_pre_key;
    pre_keys = m.pre_keys;
    published_pre_key_ids = sort_numbers m.published_pre_keys;
    signed_pre_keys = m.signed_pre_keys;
    retired_signed_pre_keys = m.retired_signed_pre_keys;
    trusted_identities = m.trusted_identities;
    sessions = map (λ (e : String × SessionRecord). (e.0, serialize_record p e.1)) m.sessions;
    sender_keys =
        map (λ (e : String × SenderKeyRecord). (e.0, Record.serialize_record p e.1)) m.sender_keys;
  }

  -- `SessionRecord.deserialize` on each session.
  unfoldable pub deserialize_all :
      Dict String SerializedSessionRecord → Result (Dict String SessionRecord)
  deserialize_all [] = ok []
  deserialize_all ((id, d) ∷ rest) = elim (deserialize_record p d) [
    | err e ↦ err (plain_error "Invalid session record")
    | ok r ↦ (do records ← deserialize_all rest; ok ((id, r) ∷ records))
  ]

  -- A published id without its key is dropped; what the file does not hold stays as it is.
  unfoldable pub apply_snapshot : PersistedState → MemorySignalStorage → Result MemorySignalStorage
  apply_snapshot d m = do
    sessions ← deserialize_all d.sessions
    ok (record m {
      next_pre_key_id = d.next_pre_key_id;
      latest_signed_pre_key = d.latest_signed_pre_key;
      pre_keys = d.pre_keys;
      published_pre_keys =
          keep_if (λ id. elim (lookup id d.pre_keys) [ none ↦ false | some _ ↦ true ])
            d.published_pre_key_ids;
      signed_pre_keys = d.signed_pre_keys;
      retired_signed_pre_keys = d.retired_signed_pre_keys;
      trusted_identities = d.trusted_identities;
      sessions = sessions;
      sender_keys =
          map
            (λ (e : String × List SerializedSenderKeyState). (e.0, Record.deserialize_record p e.1))
            d.sender_keys;
    })
