-- ===== src/Wire/Conversion/RoundTrip.antt =====
-- Converting a message to an object and back.
use libsignal_node.Common.{◌^◌, ◌<◌, ◌≡◌, refl, Bytes, [], none, lookup, string_eq}
use libsignal_node.Session.Message.{bytes_of, number_of}
use libsignal_node.Wire.Whisper.{WhisperMessage, PreKeyWhisperMessage}
use libsignal_node.Wire.KeyExchange.{KeyExchangeMessage}
use libsignal_node.Wire.Conversion.{Util, ConversionOptions, BytesAs, Properties}
use libsignal_node.Wire.Conversion.Fields.{
  HoldsBytes, HoldsNumber, properties_set, read_bytes-own_bytes, read_number-own_number,
  check_bytes-own_bytes, check_number-own_number,
}
use libsignal_node.Wire.Conversion.{
  verify_whisper, whisper_from_object, whisper_to_object, verify_pre_key_whisper,
  pre_key_whisper_from_object, pre_key_whisper_to_object, verify_key_exchange,
  key_exchange_from_object, key_exchange_to_object,
}

-- The own properties hold what the message's do.
abbrev pub SameWhisper : BytesAs → Properties → WhisperMessage → Type 0
SameWhisper a object m =
    HoldsBytes a (bytes_of m.ephemeral_key) (lookup "ephemeralKey" object)
    × HoldsNumber (number_of m.counter) (lookup "counter" object)
    × HoldsNumber (number_of m.previous_counter) (lookup "previousCounter" object)
    × HoldsBytes a (bytes_of m.ciphertext) (lookup "ciphertext" object)

abbrev IsWhisperUint32 : WhisperMessage → Type 0
IsWhisperUint32 m = (number_of m.counter < 2 ^ 32) × (number_of m.previous_counter < 2 ^ 32)

-- The own properties hold what the message's do.
abbrev pub SamePreKeyWhisper : BytesAs → Properties → PreKeyWhisperMessage → Type 0
SamePreKeyWhisper a object m =
    HoldsNumber (number_of m.registration_id) (lookup "registrationId" object)
    × HoldsNumber (number_of m.pre_key_id) (lookup "preKeyId" object)
    × HoldsNumber (number_of m.signed_pre_key_id) (lookup "signedPreKeyId" object)
    × HoldsBytes a (bytes_of m.base_key) (lookup "baseKey" object)
    × HoldsBytes a (bytes_of m.identity_key) (lookup "identityKey" object)
    × HoldsBytes a (bytes_of m.message) (lookup "message" object)

abbrev IsPreKeyWhisperUint32 : PreKeyWhisperMessage → Type 0
IsPreKeyWhisperUint32 m =
    (number_of m.registration_id < 2 ^ 32)
    × (number_of m.pre_key_id < 2 ^ 32)
    × (number_of m.signed_pre_key_id < 2 ^ 32)

-- The own properties hold what the message's do.
abbrev pub SameKeyExchange : BytesAs → Properties → KeyExchangeMessage → Type 0
SameKeyExchange a object m =
    HoldsNumber (number_of m.id) (lookup "id" object)
    × HoldsBytes a (bytes_of m.base_key) (lookup "baseKey" object)
    × HoldsBytes a (bytes_of m.ephemeral_key) (lookup "ephemeralKey" object)
    × HoldsBytes a (bytes_of m.identity_key) (lookup "identityKey" object)
    × HoldsBytes a (bytes_of m.base_key_signature) (lookup "baseKeySignature" object)

abbrev IsKeyExchangeUint32 : KeyExchangeMessage → Type 0
IsKeyExchangeUint32 m = (number_of m.id < 2 ^ 32)

module _ (u : Util) (coded : (b : Bytes) → u.base64_decode (u.base64_encode b) ≡ b)
    (empty : u.base64_decode "" ≡ []) where
  whisper_valid :
      (o : ConversionOptions) (m : WhisperMessage) → verify_whisper (whisper_to_object u o m) ≡ none
  unfolding verify_whisper whisper_to_object
  whisper_valid o m = simp (properties_set, check_bytes-own_bytes u, check_number-own_number u) refl

  whisper_back :
      (o : ConversionOptions) (m : WhisperMessage)
      → IsWhisperUint32 m
      → SameWhisper o.bytes (whisper_from_object u (whisper_to_object u o m)) m
  unfolding whisper_from_object whisper_to_object
  whisper_back o m uint = (
    simp properties_set (read_bytes-own_bytes u coded empty o.bytes o.defaults m.ephemeral_key),
    simp properties_set (read_number-own_number u o.defaults m.counter uint.0),
    simp properties_set (read_number-own_number u o.defaults m.previous_counter uint.1),
    simp properties_set (read_bytes-own_bytes u coded empty o.bytes o.defaults m.ciphertext),
  )

  pre_key_whisper_valid :
      (o : ConversionOptions) (m : PreKeyWhisperMessage)
      → verify_pre_key_whisper (pre_key_whisper_to_object u o m) ≡ none
  unfolding verify_pre_key_whisper pre_key_whisper_to_object
  pre_key_whisper_valid o m =
      simp (properties_set, check_bytes-own_bytes u, check_number-own_number u) refl

  pre_key_whisper_back :
      (o : ConversionOptions) (m : PreKeyWhisperMessage)
      → IsPreKeyWhisperUint32 m
      → SamePreKeyWhisper o.bytes
          (pre_key_whisper_from_object u (pre_key_whisper_to_object u o m))
          m
  unfolding pre_key_whisper_from_object pre_key_whisper_to_object
  pre_key_whisper_back o m uint = (
    simp properties_set (read_number-own_number u o.defaults m.registration_id uint.0),
    simp properties_set (read_number-own_number u o.defaults m.pre_key_id uint.1),
    simp properties_set (read_number-own_number u o.defaults m.signed_pre_key_id uint.2),
    simp properties_set (read_bytes-own_bytes u coded empty o.bytes o.defaults m.base_key),
    simp properties_set (read_bytes-own_bytes u coded empty o.bytes o.defaults m.identity_key),
    simp properties_set (read_bytes-own_bytes u coded empty o.bytes o.defaults m.message),
  )

  key_exchange_valid :
      (o : ConversionOptions) (m : KeyExchangeMessage)
      → verify_key_exchange (key_exchange_to_object u o m) ≡ none
  unfolding verify_key_exchange key_exchange_to_object
  key_exchange_valid o m =
      simp (properties_set, check_bytes-own_bytes u, check_number-own_number u) refl

  key_exchange_back :
      (o : ConversionOptions) (m : KeyExchangeMessage)
      → IsKeyExchangeUint32 m
      → SameKeyExchange o.bytes (key_exchange_from_object u (key_exchange_to_object u o m)) m
  unfolding key_exchange_from_object key_exchange_to_object
  key_exchange_back o m uint = (
    simp properties_set (read_number-own_number u o.defaults m.id uint),
    simp properties_set (read_bytes-own_bytes u coded empty o.bytes o.defaults m.base_key),
    simp properties_set (read_bytes-own_bytes u coded empty o.bytes o.defaults m.ephemeral_key),
    simp properties_set (read_bytes-own_bytes u coded empty o.bytes o.defaults m.identity_key),
    simp properties_set
        (read_bytes-own_bytes u coded empty o.bytes o.defaults m.base_key_signature),
  )

  -- Each of the three messages, its numbers below 2^32, turned into an object with any options, passes
  -- `verify`, and what `fromObject` makes of the object has the same numbers and the same bytes: in
  -- buffers, or, where `bytes` was `Array`, in plain arrays. An empty property may be left out. Base64 is
  -- taken to decode what it encodes, and the empty text to no bytes.
  pub from_object-to_object :
      (o : ConversionOptions) (w : WhisperMessage) (p : PreKeyWhisperMessage)
      (k : KeyExchangeMessage)
      → IsWhisperUint32 w
      → IsPreKeyWhisperUint32 p
      → IsKeyExchangeUint32 k
      → ((verify_whisper (whisper_to_object u o w) ≡ none)
          × SameWhisper o.bytes (whisper_from_object u (whisper_to_object u o w)) w)
        × ((verify_pre_key_whisper (pre_key_whisper_to_object u o p) ≡ none)
            × SamePreKeyWhisper o.bytes
                (pre_key_whisper_from_object u (pre_key_whisper_to_object u o p))
                p)
        × ((verify_key_exchange (key_exchange_to_object u o k) ≡ none)
            × SameKeyExchange o.bytes (key_exchange_from_object u (key_exchange_to_object u o k)) k)
  from_object-to_object o w p k uint uint' uint'' = (
    (whisper_valid o w, whisper_back o w uint),
    (pre_key_whisper_valid o p, pre_key_whisper_back o p uint'),
    (key_exchange_valid o k, key_exchange_back o k uint''),
  )
