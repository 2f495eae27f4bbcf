-- ===== src/Session/Message.antt =====
-- `encrypt` (its work on one session) and `doDecryptWhisperMessage` of src/session-cipher.ts, with the
-- checks that they share. Our identity key comes from the storage, and is an argument.
pub mod Replay
pub mod Sealing
pub mod RoundTrip
use libsignal_node.Common.{
  ℕ, ◌+◌, ◌-◌, ◌*◌, ◌/◌, ◌%◌, ◌^◌, ◌≡◌, Bytes, List, [], ◌∷◌, ◌++◌, Option, none, some, Bool, true,
  false, not, ◌&&◌, ◌||◌, length, take, drop, ltb, leb, ◌==◌, nat_eq, if◌then◌else◌, get_elem?, ℤ,
  pos, negsuc, ◌+ℤ◌, pos_part, lookup, delete, Result, SignalError, ok, err, ◌>>=◌, ◌>>◌, require,
  or_throw, session_error, message_counter_error, type_error, plain_error,
}
use libsignal_node.Platform.{Platform, KeyPair}
use libsignal_node.Crypto.{
  ascii, alloc, set_bytes, nth, encrypt, decrypt, calculate_mac, derive_secrets, verify_mac,
}
use libsignal_node.Wire.Whisper.{WhisperMessage, encode_whisper, decode_whisper}
use libsignal_node.Session.Entry.{
  Chain, ChainType, SessionEntry, get_chain, update_chain, is_receiving,
}
use libsignal_node.Session.Chain.{fill_message_keys}
use libsignal_node.Session.Ratchet.{maybe_step_ratchet}

abbrev pub version : ℕ
version = 3

abbrev pub min_message_length : ℕ
min_message_length = 1 + 1 + 8

unfoldable pub encode_tuple_byte : ℕ → ℕ → Result ℕ
encode_tuple_byte number1 number2 =
    if ltb 15 number1 || ltb 15 number2
    then err (type_error "Numbers must be 4 bits or less")
    else ok (number1 * 16 + number2)

abbrev pub decode_tuple_byte : ℕ → ℕ × ℕ
decode_tuple_byte byte = (byte / 16, byte % 16)

-- `if (versions[1] > 3 || versions[0] < 3) throw`
unfoldable pub check_version : ℕ → Result (Unit {0})
check_version byte =
    let (high, low) = decode_tuple_byte byte in
    require (not (ltb 3 low || ltb high 3)) (plain_error "Incompatible version number")

-- `value >>> 0`, as the writer turns a number into a `uint32`
unfoldable pub to_uint32 : ℤ → ℕ
to_uint32 (pos n) = n % 2 ^ 32
to_uint32 (negsuc n) = 2 ^ 32 - 1 - n % 2 ^ 32

-- `catch (e) { throw new SessionError(…) }`; the text of the caught error is left out of the message.
unfoldable pub rethrow {ℓ} : {A : Type ℓ} → SignalError → Result A → Result A
rethrow e (ok a) = ok a
rethrow e (err _) = err e

pub record ValidMessage : Type 0 where
  pub ephemeral_key : Bytes
  pub counter : ℕ
  pub previous_counter : ℕ
  pub ciphertext : Bytes

-- Reading an own property, or the default of the prototype.
abbrev pub bytes_of : Option Bytes → Bytes
bytes_of none = []
bytes_of (some b) = b

abbrev pub number_of : Option ℕ → ℕ
number_of none = 0
number_of (some n) = n

-- `assertValidWhisperMessage`; a decoded counter is a `uint32`, so `assertCounter` lets it pass.
unfoldable pub assert_valid_whisper_message : WhisperMessage → Result ValidMessage
assert_valid_whisper_message m = do
  require (length (bytes_of m.ephemeral_key) == 33)
      (session_error "Invalid WhisperMessage.ephemeralKey: expected a 33-byte public key")
  require (not (length (bytes_of m.ciphertext) == 0) && (length (bytes_of m.ciphertext) % 16 == 0))
      (session_error "Invalid WhisperMessage.ciphertext: expected a non-empty AES-CBC block")
  ok (record {
    ephemeral_key = bytes_of m.ephemeral_key;
    counter = number_of m.counter;
    previous_counter = number_of m.previous_counter;
    ciphertext = bytes_of m.ciphertext;
  })

-- What is authenticated: the sender's identity key, the receiver's, the version byte, the message.
unfoldable pub mac_input : Bytes → Bytes → ℕ → Bytes → Bytes
unfolding set_bytes
mac_input sender receiver tuple message = set_bytes message (33 * 2 + 1) (
    set_bytes (tuple ∷ []) (33 * 2)
      (set_bytes receiver 33 (set_bytes sender 0 (alloc (length message + 33 * 2 + 1)))))

module _ (p : Platform) where
  -- From the message key to the bytes on the wire, in `encrypt`.
  unfoldable pub seal : Bytes → Bytes → Bytes → Bytes → ℤ → ℤ → Bytes → Result Bytes
  seal message_key our_identity their_identity ephemeral_key counter previous_counter text = do
    keys ← derive_secrets p message_key (alloc 32) (ascii "WhisperMessageKeys") none
    cipher_key ← nth keys 0
    mac_key ← nth keys 1
    iv_key ← nth keys 2
    ciphertext ← encrypt p cipher_key text (take 16 iv_key)
    let msg_buf : Bytes = encode_whisper p (record {
      ephemeral_key = some ephemeral_key;
      counter = some (to_uint32 counter);
      previous_counter = some (to_uint32 previous_counter);
      ciphertext = some ciphertext;
    })
    tuple ← encode_tuple_byte version version
    let mac : Bytes = calculate_mac p mac_key (mac_input our_identity their_identity tuple msg_buf)
    ok (tuple ∷ (msg_buf ++ take 8 mac))

  -- From the message key to the plaintext, in `doDecryptWhisperMessage`.
  unfoldable pub unseal : Bytes → Bytes → Bytes → Bytes → Bytes → Bytes → Result Bytes
  unseal message_key our_identity their_identity message_proto mac ciphertext = do
    keys ← derive_secrets p message_key (alloc 32) (ascii "WhisperMessageKeys") none
    cipher_key ← nth keys 0
    mac_key ← nth keys 1
    iv_key ← nth keys 2
    tuple ← encode_tuple_byte version version
    verify_mac p (mac_input their_identity our_identity tuple message_proto) mac_key mac 8
    decrypt p cipher_key ciphertext (take 16 iv_key)

  -- The bytes of `result` in `encrypt`, and the session afterwards. `storeRecord` and the wrapping in a
  -- `PreKeyWhisperMessage` follow it.
  unfoldable pub encrypt_message : Bytes → Bytes → SessionEntry → Result (Bytes × SessionEntry)
  encrypt_message our_identity text s =
      let ours = s.current_ratchet.ephemeral_key_pair.pub_key in
      do
        chain ← or_throw (get_chain p ours s) (session_error "No chain found for current ratchet")
        require (not (is_receiving chain)) (session_error "Tried to encrypt on a receiving chain")
        filled ← fill_message_keys p (chain.chain_key.counter +ℤ pos 1) chain
        let index : ℕ = pos_part filled.chain_key.counter
        message_key ← or_throw (lookup index filled.message_keys) (type_error "undefined")
        result ←
            seal message_key our_identity s.index_info.remote_identity_key ours
              filled.chain_key.counter s.current_ratchet.previous_counter text
        ok (
          result,
          update_chain p ours (record filled { message_keys = delete index filled.message_keys }) s,
        )

  -- The part of `doDecryptWhisperMessage` after the ratchet has been stepped.
  unfoldable pub decrypt_on_chain :
      Bytes → Bytes → Bytes → ValidMessage → SessionEntry → Result (Bytes × SessionEntry)
  decrypt_on_chain our_identity message_proto mac m s = do
    chain ←
        or_throw (get_chain p m.ephemeral_key s)
          (session_error "No chain found for message ephemeral key")
    require (is_receiving chain) (session_error "Tried to decrypt on a sending chain")
    filled ← fill_message_keys p (pos m.counter) chain
    message_key ←
        or_throw (lookup m.counter filled.message_keys)
          (message_counter_error "Key used already or never filled")
    text ←
        unseal message_key our_identity s.index_info.remote_identity_key message_proto mac
          m.ciphertext
    let s' : SessionEntry =
        update_chain p m.ephemeral_key
          (record filled { message_keys = delete m.counter filled.message_keys }) s
    ok (text, record s' { pending_pre_key = none })

  unfoldable pub do_decrypt_whisper_message :
      KeyPair → Bytes → Bytes → SessionEntry → Result (Bytes × SessionEntry)
  do_decrypt_whisper_message fresh our_identity bytes s =
      let size = length bytes in
      let message_proto = take (size - 9) (drop 1 bytes) in
      let mac = drop (size - 8) bytes in
      do
        require (leb min_message_length size) (session_error "Message too short")
        first ← nth bytes 0
        check_version first
        message ← rethrow (session_error "Invalid WhisperMessage") (decode_whisper p message_proto)
        m ← assert_valid_whisper_message message
        s1 ← maybe_step_ratchet p fresh m.ephemeral_key (pos m.previous_counter) s
        decrypt_on_chain our_identity message_proto mac m s1
