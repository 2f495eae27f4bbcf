-- ===== src/Session/Cipher.antt =====
-- `SessionCipher` of src/session-cipher.ts, over a storage. A call is one job of the address's queue;
-- its clock reading `now` and the key pairs that it may draw are arguments. `loadSession` returns a
-- record of the caller's own, as both storages of the program do, so what a job throws away is not seen.
use libsignal_node.Common.{
  ℕ, ◌+◌, Bytes, List, [], ◌∷◌, Option, none, some, Bool, false, String, length, drop, leb, ltb,
  if◌then◌else◌, Result, ok, err, session_error, pre_key_error,
}
use libsignal_node.Common.Jobs.{Job, pure, lift, or_throw, require, ◌>>=◌, ◌>>◌}
use libsignal_node.Platform.{Platform, KeyPair}
use libsignal_node.Crypto.{nth}
use libsignal_node.PreKey.Validator.{IncomingPreKeyMessage}
use libsignal_node.Wire.Whisper.{
  PreKeyWhisperMessage, encode_pre_key_whisper, decode_pre_key_whisper,
}
use libsignal_node.Session.Entry.{SessionEntry, PendingPreKey}
use libsignal_node.Session.Record.{
  SessionRecord, empty_record, get_open_session, have_open_session, get_sessions, get_session,
  set_session, replace_open, is_closed, remove_old_sessions, remove_stale_sessions,
}
use libsignal_node.Session.Serial.{serialize_entry, deserialize_entry}
use libsignal_node.Session.Message.{
  encrypt_message, do_decrypt_whisper_message, min_message_length, check_version, encode_tuple_byte,
  version, rethrow, bytes_of, number_of,
}
use libsignal_node.Session.Builder.{require_trusted, init_incoming, close_open}
use libsignal_node.Storage.Interface.{SignalStorage, Direction}

pub record EncryptedMessage : Type 0 where
  pub type : ℕ
  pub body : Bytes
  pub registration_id : Option ℕ

abbrev pub touch : ℕ → SessionEntry → SessionEntry
touch now s = record s { index_info = record s.index_info { used = now } }

module _ (p : Platform) where
  -- The loop of `decryptWithSessions`; attempt `i` would draw the key pair `draw i`. A session that
  -- fails is left as it was, since the attempt is made on a copy.
  unfoldable pub try_sessions :
      ℕ → (ℕ → KeyPair) → Bytes → Bytes → ℕ → List SessionEntry → Result (SessionEntry × Bytes)
  try_sessions now draw our_identity bytes i [] =
      err (session_error "No matching sessions found for message")
  try_sessions now draw our_identity bytes i (s ∷ rest) =
      let next = try_sessions now draw our_identity bytes (i + 1) rest in
      elim (deserialize_entry p (serialize_entry p s)) [
        | err e ↦ err e
        | ok candidate ↦ elim (do_decrypt_whisper_message p (draw i) our_identity bytes candidate) [
          | ok (text, s') ↦ ok (touch now s', text)
          | err _ ↦ next
        ]
      ]

  unfoldable pub decrypt_with_sessions :
      ℕ → (ℕ → KeyPair) → Bytes → Bytes → List SessionEntry → Result (SessionEntry × Bytes)
  decrypt_with_sessions now draw our_identity bytes [] = err (session_error "No sessions available")
  decrypt_with_sessions now draw our_identity bytes (s ∷ rest) =
      try_sessions now draw our_identity bytes 0 (s ∷ rest)

module _ {W : Type 0} (p : Platform) (storage : SignalStorage W) (max_age : ℕ) where
  open storage use {
    load_session, store_session, remove_pre_key, get_our_registration_id, get_our_identity,
  }

  -- `if (this.staleSessionMaxAgeMs)`: 0 turns the second cleaning off.
  unfoldable pub store_record : String → ℕ → SessionRecord → Job W (Unit {0})
  store_record address now r = do
    r' ← lift (remove_old_sessions r)
    store_session address (if ltb 0 max_age then remove_stale_sessions now max_age r' else r')

  -- The message for the first contact wraps the body in a `PreKeyWhisperMessage`.
  unfoldable pub wrap_message :
      KeyPair → Option ℕ → Option PendingPreKey → Bytes → Job W EncryptedMessage
  wrap_message our_identity registration_id none body =
      pure (record { type = 1; body = body; registration_id = registration_id })
  wrap_message our_identity registration_id (some pending) body = do
    our_registration_id ← get_our_registration_id
    tuple ← lift (encode_tuple_byte version version)
    pure (record {
      type = 3;
      body =
          tuple
          ∷ encode_pre_key_whisper p (record {
            registration_id = some our_registration_id;
            pre_key_id = pending.pre_key_id;
            signed_pre_key_id = some pending.signed_key_id;
            base_key = some pending.base_key;
            identity_key = some our_identity.pub_key;
            message = some body;
          });
      registration_id = registration_id;
    })

  unfoldable pub encrypt : String → String → ℕ → Bytes → Job W EncryptedMessage
  unfolding store_record wrap_message
  encrypt address id now text = do
    our_identity ← get_our_identity
    found ← load_session address
    r ← or_throw found (session_error "No sessions")
    s ← or_throw (get_open_session r) (session_error "No open session")
    require_trusted p storage id s.index_info.remote_identity_key Direction.sending
    (result, s') ← lift (encrypt_message p our_identity.pub_key text s)
    store_record address now (replace_open s' r)
    wrap_message our_identity s.registration_id s.pending_pre_key result

  unfoldable pub decrypt_whisper_message : String → String → ℕ → (ℕ → KeyPair) → Bytes → Job W Bytes
  unfolding store_record
  decrypt_whisper_message address id now draw bytes = do
    found ← load_session address
    r ← or_throw found (session_error "No session record")
    our_identity ← get_our_identity
    (s, text) ← lift (decrypt_with_sessions p now draw our_identity.pub_key bytes (get_sessions r))
    require_trusted p storage id s.index_info.remote_identity_key Direction.receiving
    store_record address now (set_session p (if is_closed s then touch now s else s) r)
    pure text

  abbrev pub incoming_of : PreKeyWhisperMessage → IncomingPreKeyMessage
  incoming_of m = record {
    registration_id = m.registration_id;
    identity_key = bytes_of m.identity_key;
    base_key = bytes_of m.base_key;
    pre_key_id = m.pre_key_id;
    signed_pre_key_id = some (number_of m.signed_pre_key_id);
    message = bytes_of m.message;
  }

  -- `if (!record)` a registration id is needed, and a new record is made.
  unfoldable pub record_or_new : Option SessionRecord → Option ℕ → Result SessionRecord
  record_or_new (some r) registration_id = ok r
  record_or_new none (some _) = ok empty_record
  record_or_new none none = err (pre_key_error "No registrationId")

  unfoldable pub remove_used_pre_key : Option ℕ → Job W (Unit {0})
  remove_used_pre_key none = pure tt
  remove_used_pre_key (some id) = remove_pre_key id

  unfoldable pub decrypt_pre_key_whisper_message :
      String → String → ℕ → KeyPair → KeyPair → Bytes → Job W Bytes
  unfolding store_record record_or_new remove_used_pre_key
  decrypt_pre_key_whisper_message address id now fresh draw bytes = do
    require (leb min_message_length (length bytes)) (session_error "Message too short")
    first ← lift (nth bytes 0)
    lift (check_version first)
    found ← load_session address
    m ← lift (
        rethrow (pre_key_error "Invalid PreKeyWhisperMessage")
          (decode_pre_key_whisper p (drop 1 bytes)))
    r ← lift (record_or_new found m.registration_id)
    (r', pre_key_id) ← init_incoming p storage id now fresh r (incoming_of m)
    established ← lift (get_session p (bytes_of m.base_key) r')
    s ←
        or_throw established
          (session_error "No session established for incoming PreKeyWhisperMessage")
    candidate ← lift (deserialize_entry p (serialize_entry p s))
    our_identity ← get_our_identity
    (text, s') ←
        lift (do_decrypt_whisper_message p draw our_identity.pub_key (bytes_of m.message) candidate)
    store_record address now (set_session p s' r')
    remove_used_pre_key pre_key_id
    pure text

  unfoldable pub has_open_session : String → Job W Bool
  has_open_session address = do
    found ← load_session address
    pure (elim found [ none ↦ false | some r ↦ have_open_session r ])

  unfoldable pub close_open_session : String → ℕ → Job W (Unit {0})
  unfolding store_record
  close_open_session address now = do
    found ← load_session address
    elim found [
      | none ↦ pure tt
      | some r ↦ elim (get_open_session r) [
        | none ↦ pure tt
        | some _ ↦ store_record address now (close_open now r)
      ]
    ]
