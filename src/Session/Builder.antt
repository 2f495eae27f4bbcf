-- ===== src/Session/Builder.antt =====
-- `SessionBuilder` of src/session-builder.ts, over a storage. A call is one job of the address's queue;
-- its clock reading `now` and its two draws of key pairs are arguments.
use libsignal_node.Common.{
  ℕ, Bytes, Option, none, some, true, false, String, plain_error, pre_key_error,
  untrusted_identity_key,
}
use libsignal_node.Common.Jobs.{Job, pure, throw, lift, or_throw, require, ◌>>=◌, ◌>>◌}
use libsignal_node.Platform.{Platform, KeyPair}
use libsignal_node.Curve.{verify_signature}
use libsignal_node.PreKey.Validator.{
  DeviceKeyBundle, PreKeyBundle, IncomingPreKeyMessage, assert_valid_device_key_bundle,
  assert_valid_incoming_pre_key_message,
}
use libsignal_node.Session.Entry.{SessionEntry}
use libsignal_node.Session.Record.{
  SessionRecord, empty_record, close_first_open, get_session, set_session, remove_old_sessions,
}
use libsignal_node.Session.Handshake.{init_session}
use libsignal_node.Storage.Interface.{SignalStorage, Direction}

-- Closing the open session, if there is one.
unfoldable pub close_open : ℕ → SessionRecord → SessionRecord
close_open now r = record { sessions = close_first_open now r.sessions }

abbrev pub pre_key_public : Option PreKeyBundle → Option Bytes
pre_key_public none = none
pre_key_public (some k) = some k.public_key

abbrev pub pre_key_id : Option PreKeyBundle → Option ℕ
pre_key_id none = none
pre_key_id (some k) = some k.key_id

module _ {W : Type 0} (p : Platform) (storage : SignalStorage W) where
  open storage use {
    load_session, store_session, is_trusted_identity, load_identity, load_pre_key,
    load_signed_pre_key, get_our_identity,
  }

  unfoldable pub untrusted_identity_error : String → Bytes → Job W (Unit {0})
  untrusted_identity_error id identity = do
    previous ← load_identity id
    throw (untrusted_identity_key id identity previous)

  -- `if (!(await isTrustedIdentity(…))) throw await untrustedIdentityError(identityKey)`
  unfoldable pub require_trusted : String → Bytes → Direction → Job W (Unit {0})
  unfolding untrusted_identity_error
  require_trusted id identity direction = do
    trusted ← is_trusted_identity id identity direction
    elim trusted [ true ↦ pure tt | false ↦ untrusted_identity_error id identity ]

  unfoldable pub load_pre_key_pair : Option ℕ → Job W (Option KeyPair)
  load_pre_key_pair none = pure none
  load_pre_key_pair (some id) = do
    found ← load_pre_key id
    pair ← or_throw found (pre_key_error "Invalid PreKey ID")
    pure (some pair)

  unfoldable pub init_outgoing :
      String → String → ℕ → KeyPair → KeyPair → DeviceKeyBundle → Job W (Unit {0})
  unfolding require_trusted untrusted_identity_error
  init_outgoing address id now base_key fresh device = do
    lift (assert_valid_device_key_bundle device)
    signed ← lift (
        verify_signature p device.identity_key device.signed_pre_key.public_key
          device.signed_pre_key.signature)
    require signed (plain_error "Signature validation failed")
    require_trusted id device.identity_key Direction.sending
    our_identity ← get_our_identity
    session ← lift (
        init_session p now fresh our_identity true (some base_key) none device.identity_key
          (pre_key_public device.pre_key) (some device.signed_pre_key.public_key)
          (some device.registration_id))
    let session' : SessionEntry = record session {
      pending_pre_key = some (record {
        signed_key_id = device.signed_pre_key.key_id;
        base_key = base_key.pub_key;
        pre_key_id = pre_key_id device.pre_key;
      });
    }
    found ← load_session address
    let r : SessionRecord = elim found [ none ↦ empty_record | some r ↦ close_open now r ]
    r' ← lift (remove_old_sessions (set_session p session' r))
    store_session address r'

  -- `initIncoming`: the record that the caller holds, and the id of the prekey that was used.
  unfoldable pub init_incoming :
      String
      → ℕ
      → KeyPair
      → SessionRecord
      → IncomingPreKeyMessage
      → Job W (SessionRecord × Option ℕ)
  unfolding require_trusted untrusted_identity_error load_pre_key_pair
  init_incoming id now fresh r message = do
    lift (assert_valid_incoming_pre_key_message message)
    require_trusted id message.identity_key Direction.receiving
    existing ← lift (get_session p message.base_key r)
    elim existing [
      | some _ ↦ pure (r, none)
      | none ↦ do
        pre_key_pair ← load_pre_key_pair message.pre_key_id
        signed_id ← or_throw message.signed_pre_key_id (pre_key_error "Missing SignedPreKey")
        found ← load_signed_pre_key signed_id
        signed_pre_key_pair ← or_throw found (pre_key_error "Missing SignedPreKey")
        our_identity ← get_our_identity
        session ← lift (
            init_session p now fresh our_identity false pre_key_pair (some signed_pre_key_pair)
              message.identity_key (some message.base_key) none message.registration_id)
        pure (set_session p session (close_open now r), message.pre_key_id)
    ]
