-- ===== src/PreKey/Validator.antt =====
-- src/prekey-bundle-validator.ts. Numbers and byte strings are typed here, so `isNonNegativeInteger`
-- and the `instanceof` tests hold of every value; the ranges and the lengths are checked.
use libsignal_node.Common.{
  ℕ, Bytes, Option, none, some, not, ◌&&◌, length, leb, ◌==◌, nat_eq, Result, ok, err, ◌>>=◌, ◌>>◌,
  require, pre_key_error, String,
}

pub record SignedPreKeyBundle : Type 0 where
  pub key_id : ℕ
  pub public_key : Bytes
  pub signature : Bytes

pub record PreKeyBundle : Type 0 where
  pub key_id : ℕ
  pub public_key : Bytes

pub record DeviceKeyBundle : Type 0 where
  pub registration_id : ℕ
  pub identity_key : Bytes
  pub signed_pre_key : SignedPreKeyBundle
  pub pre_key : Option PreKeyBundle

pub record IncomingPreKeyMessage : Type 0 where
  pub registration_id : Option ℕ
  pub identity_key : Bytes
  pub base_key : Bytes
  pub pre_key_id : Option ℕ
  pub signed_pre_key_id : Option ℕ
  pub message : Bytes

abbrev pub max_key_id : ℕ
max_key_id = 0xffffff

unfoldable pub assert_buffer_length : Bytes → ℕ → String → Result (Unit {0})
assert_buffer_length value size field = require (length value == size) (pre_key_error field)

unfoldable pub assert_key_id : ℕ → String → Result (Unit {0})
assert_key_id value field = require (leb value max_key_id) (pre_key_error field)

unfoldable pub assert_registration_id : ℕ → Result (Unit {0})
assert_registration_id value =
    require (leb 1 value && leb value 0x3fff) (pre_key_error "Invalid registrationId")

unfoldable pub assert_incoming_registration_id : ℕ → Result (Unit {0})
assert_incoming_registration_id value =
    require (leb 1 value && leb value 0xffffffff) (pre_key_error "Invalid registrationId")

unfoldable pub assert_pre_key : Option PreKeyBundle → Result (Unit {0})
unfolding assert_key_id assert_buffer_length
assert_pre_key none = ok tt
assert_pre_key (some k) = do
  assert_key_id k.key_id "preKey.keyId"
  assert_buffer_length k.public_key 33 "preKey.publicKey"

unfoldable pub assert_valid_device_key_bundle : DeviceKeyBundle → Result (Unit {0})
unfolding assert_registration_id assert_key_id assert_buffer_length assert_pre_key
assert_valid_device_key_bundle bundle = do
  assert_registration_id bundle.registration_id
  assert_buffer_length bundle.identity_key 33 "identityKey"
  assert_key_id bundle.signed_pre_key.key_id "signedPreKey.keyId"
  assert_buffer_length bundle.signed_pre_key.public_key 33 "signedPreKey.publicKey"
  assert_buffer_length bundle.signed_pre_key.signature 64 "signedPreKey.signature"
  assert_pre_key bundle.pre_key

-- A check that is made if the value is there.
abbrev pub if_present : (ℕ → Result (Unit {0})) → Option ℕ → Result (Unit {0})
if_present check none = ok tt
if_present check (some n) = check n

abbrev pub required_id : Option ℕ → Result ℕ
required_id none = err (pre_key_error "Missing signedPreKeyId")
required_id (some n) = ok n

unfoldable pub assert_valid_incoming_pre_key_message : IncomingPreKeyMessage → Result (Unit {0})
unfolding assert_incoming_registration_id assert_key_id assert_buffer_length
assert_valid_incoming_pre_key_message m = do
  assert_buffer_length m.identity_key 33 "identityKey"
  assert_buffer_length m.base_key 33 "baseKey"
  require (not (length m.message == 0)) (pre_key_error "message must be a non-empty Uint8Array")
  if_present assert_incoming_registration_id m.registration_id
  if_present (λ n. assert_key_id n "preKeyId") m.pre_key_id
  signed_pre_key_id ← required_id m.signed_pre_key_id
  assert_key_id signed_pre_key_id "signedPreKeyId"
