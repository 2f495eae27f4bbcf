-- ===== src/Wire/Conversion.antt =====
-- The conversions between the messages of src/whisper-text-protocol.ts and plain objects: `verify`,
-- `fromObject` and `toObject`. An object holds its properties in order. `toObject` reads a message whose own
-- properties are buffers and numbers, as `decode` makes it; what `fromObject` makes is the object of its
-- own properties, since it takes over an `Array` as it is. Booleans, and objects as values of a property, are not among the values; `verify` on what is
-- no object, and `fromObject` on a message, which it returns as it is, are left out.
pub mod Fields
pub mod RoundTrip
use libsignal_node.Common.{
  ℕ, Bytes, [], ◌∷◌, Option, none, some, Bool, true, false, String, Dict, lookup, put, string_eq,
  ◌==◌, if◌then◌else◌, ℤ, pos,
}
use libsignal_node.Session.Message.{to_uint32}
use libsignal_node.Wire.Whisper.{WhisperMessage, PreKeyWhisperMessage}
use libsignal_node.Wire.KeyExchange.{KeyExchangeMessage}

-- `null` and `undefined`, an integer, another number with its integer part, a string, a `Uint8Array`,
-- an `Array` of bytes.
pub data Value : Type 0 where
  nil : Value
  integer : ℤ → Value
  fraction : ℤ → Value
  text : String → Value
  buffer : Bytes → Value
  array : Bytes → Value

abbrev pub Properties : Type 0
Properties = Dict String Value

-- The option `bytes`: `String`, `Array`, or neither.
pub data BytesAs : Type 0 where
  as_string as_array as_buffer : BytesAs

pub record ConversionOptions : Type 0 where
  pub bytes : BytesAs
  pub defaults : Bool

-- `util.base64` and `util.toJSONOptions` of protobufjs, and `>>> 0` of what is no number. A text on
-- which the decoder throws is not among the texts.
pub record Util : Type 0 where
  pub base64_encode : Bytes → String
  pub base64_decode : String → Bytes
  pub to_json_options : ConversionOptions
  pub coerce : Value → ℕ

-- `value != null && !(value?.length !== undefined || isString(value))`
unfoldable pub check_bytes : String → Option Value → Option String
check_bytes e none = none
check_bytes e (some nil) = none
check_bytes e (some (integer n)) = some e
check_bytes e (some (fraction n)) = some e
check_bytes e (some (text t)) = none
check_bytes e (some (buffer b)) = none
check_bytes e (some (array b)) = none

-- `value != null && !isInteger(value)`
unfoldable pub check_number : String → Option Value → Option String
check_number e none = none
check_number e (some nil) = none
check_number e (some (integer n)) = none
check_number e (some (fraction n)) = some e
check_number e (some (text t)) = some e
check_number e (some (buffer b)) = some e
check_number e (some (array b)) = some e

-- The first error that is returned.
abbrev first : Option String → Option String → Option String
first (some e) rest = some e
first none rest = rest

-- `if (value.length)`: an empty value is not taken over.
abbrev if_any : Bytes → Value → Option Value
if_any [] v = none
if_any (b ∷ bs) v = some v

unfoldable pub default_bytes : BytesAs → Value
default_bytes as_string = text ""
default_bytes as_array = array []
default_bytes as_buffer = buffer []

-- `object[key] = value` for an own property of the message
unfoldable pub set_own : String → Option Value → Properties → Properties
set_own key none object = object
set_own key (some v) object = put key v object

unfoldable pub verify_whisper : Properties → Option String
verify_whisper m = first (check_bytes "ephemeralKey: buffer expected" (lookup "ephemeralKey" m)) (
    first (check_number "counter: integer expected" (lookup "counter" m)) (
      first (check_number "previousCounter: integer expected" (lookup "previousCounter" m))
        (check_bytes "ciphertext: buffer expected" (lookup "ciphertext" m))))

unfoldable pub verify_pre_key_whisper : Properties → Option String
verify_pre_key_whisper m =
    first (check_number "registrationId: integer expected" (lookup "registrationId" m)) (
      first (check_number "preKeyId: integer expected" (lookup "preKeyId" m)) (
        first (check_number "signedPreKeyId: integer expected" (lookup "signedPreKeyId" m)) (
          first (check_bytes "baseKey: buffer expected" (lookup "baseKey" m)) (
            first (check_bytes "identityKey: buffer expected" (lookup "identityKey" m))
              (check_bytes "message: buffer expected" (lookup "message" m))))))

unfoldable pub verify_key_exchange : Properties → Option String
verify_key_exchange m = first (check_number "id: integer expected" (lookup "id" m)) (
    first (check_bytes "baseKey: buffer expected" (lookup "baseKey" m)) (
      first (check_bytes "ephemeralKey: buffer expected" (lookup "ephemeralKey" m)) (
        first (check_bytes "identityKey: buffer expected" (lookup "identityKey" m))
          (check_bytes "baseKeySignature: buffer expected" (lookup "baseKeySignature" m)))))

module _ (u : Util) where
  unfoldable pub read_bytes : Option Value → Option Value
  read_bytes none = none
  read_bytes (some nil) = none
  read_bytes (some (integer n)) = none
  read_bytes (some (fraction n)) = none
  read_bytes (some (text t)) = some (buffer (u.base64_decode t))
  read_bytes (some (buffer b)) = if_any b (buffer b)
  read_bytes (some (array b)) = if_any b (array b)

  abbrev uint32 : ℕ → Option Value
  uint32 n = some (integer (pos n))

  unfoldable pub read_number : Option Value → Option Value
  read_number none = none
  read_number (some nil) = none
  read_number (some (integer n)) = uint32 (to_uint32 n)
  read_number (some (fraction n)) = uint32 (to_uint32 n)
  read_number (some (text t)) = uint32 (u.coerce (text t))
  read_number (some (buffer b)) = uint32 (u.coerce (buffer b))
  read_number (some (array b)) = uint32 (u.coerce (array b))

  unfoldable pub own_bytes : BytesAs → Option Bytes → Option Value
  own_bytes bytes none = none
  own_bytes as_string (some b) = some (text (u.base64_encode b))
  own_bytes as_array (some b) = some (array b)
  own_bytes as_buffer (some b) = some (buffer b)

  unfoldable pub own_number : Option ℕ → Option Value
  own_number none = none
  own_number (some n) = some (integer (pos n))

  unfoldable pub whisper_from_object : Properties → Properties
  whisper_from_object object = set_own "ciphertext" (read_bytes (lookup "ciphertext" object)) (
      set_own "previousCounter" (read_number (lookup "previousCounter" object)) (
        set_own "counter" (read_number (lookup "counter" object))
          (set_own "ephemeralKey" (read_bytes (lookup "ephemeralKey" object)) [])))

  unfoldable pub whisper_to_object : ConversionOptions → WhisperMessage → Properties
  whisper_to_object o m =
      let defaults : Properties = put "ciphertext" (default_bytes o.bytes) (
        put "previousCounter" (integer (pos 0))
          (put "counter" (integer (pos 0)) (put "ephemeralKey" (default_bytes o.bytes) []))) in
      set_own "ciphertext" (own_bytes o.bytes m.ciphertext) (
        set_own "previousCounter" (own_number m.previous_counter) (
          set_own "counter" (own_number m.counter) (
            set_own "ephemeralKey" (own_bytes o.bytes m.ephemeral_key)
              (if o.defaults then defaults else []))))

  unfoldable pub pre_key_whisper_from_object : Properties → Properties
  pre_key_whisper_from_object object = set_own "message" (read_bytes (lookup "message" object)) (
      set_own "identityKey" (read_bytes (lookup "identityKey" object)) (
        set_own "baseKey" (read_bytes (lookup "baseKey" object)) (
          set_own "signedPreKeyId" (read_number (lookup "signedPreKeyId" object)) (
            set_own "preKeyId" (read_number (lookup "preKeyId" object))
              (set_own "registrationId" (read_number (lookup "registrationId" object)) [])))))

  unfoldable pub pre_key_whisper_to_object : ConversionOptions → PreKeyWhisperMessage → Properties
  pre_key_whisper_to_object o m =
      let none_set : Properties = put "message" (default_bytes o.bytes) (
        put "identityKey" (default_bytes o.bytes)
          (put "baseKey" (default_bytes o.bytes) (put "preKeyId" (integer (pos 0)) []))) in
      let defaults : Properties =
        put "signedPreKeyId" (integer (pos 0)) (put "registrationId" (integer (pos 0)) none_set) in
      set_own "signedPreKeyId" (own_number m.signed_pre_key_id) (
        set_own "registrationId" (own_number m.registration_id) (
          set_own "message" (own_bytes o.bytes m.message) (
            set_own "identityKey" (own_bytes o.bytes m.identity_key) (
              set_own "baseKey" (own_bytes o.bytes m.base_key) (
                set_own "preKeyId" (own_number m.pre_key_id)
                  (if o.defaults then defaults else []))))))

  unfoldable pub key_exchange_from_object : Properties → Properties
  key_exchange_from_object object =
      set_own "baseKeySignature" (read_bytes (lookup "baseKeySignature" object)) (
        set_own "identityKey" (read_bytes (lookup "identityKey" object)) (
          set_own "ephemeralKey" (read_bytes (lookup "ephemeralKey" object)) (
            set_own "baseKey" (read_bytes (lookup "baseKey" object))
              (set_own "id" (read_number (lookup "id" object)) []))))

  unfoldable pub key_exchange_to_object : ConversionOptions → KeyExchangeMessage → Properties
  key_exchange_to_object o m =
      let defaults : Properties = put "baseKeySignature" (default_bytes o.bytes) (
        put "identityKey" (default_bytes o.bytes) (
          put "ephemeralKey" (default_bytes o.bytes)
            (put "baseKey" (default_bytes o.bytes) (put "id" (integer (pos 0)) [])))) in
      set_own "baseKeySignature" (own_bytes o.bytes m.base_key_signature) (
        set_own "identityKey" (own_bytes o.bytes m.identity_key) (
          set_own "ephemeralKey" (own_bytes o.bytes m.ephemeral_key) (
            set_own "baseKey" (own_bytes o.bytes m.base_key)
              (set_own "id" (own_number m.id) (if o.defaults then defaults else [])))))

  unfoldable pub whisper_to_json : WhisperMessage → Properties
  unfolding whisper_to_object
  whisper_to_json m = whisper_to_object u.to_json_options m

  unfoldable pub pre_key_whisper_to_json : PreKeyWhisperMessage → Properties
  unfolding pre_key_whisper_to_object
  pre_key_whisper_to_json m = pre_key_whisper_to_object u.to_json_options m

  unfoldable pub key_exchange_to_json : KeyExchangeMessage → Properties
  unfolding key_exchange_to_object
  key_exchange_to_json m = key_exchange_to_object u.to_json_options m
