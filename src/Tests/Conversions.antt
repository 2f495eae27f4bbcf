-- ===== src/Tests/Conversions.antt =====
-- A message of each kind converted to an object and back, by the sample platform's base64.
use libsignal_node.Common.{
  ◌≡◌, refl, arith, [], ◌∷◌, some, none, true, pos, negsuc, lookup, put, string_eq,
}
use libsignal_node.Platform.Sample.{sample, sample_laws}
use libsignal_node.Session.Message.{to_uint32}
use libsignal_node.Wire.Whisper.{WhisperMessage, PreKeyWhisperMessage}
use libsignal_node.Wire.KeyExchange.{KeyExchangeMessage}
use libsignal_node.Wire.Conversion.{
  Value, Util, BytesAs, ConversionOptions, check_bytes, check_number, default_bytes, set_own,
  read_number, read_bytes, own_bytes, own_number, verify_whisper, whisper_from_object,
  whisper_to_object, verify_pre_key_whisper, pre_key_whisper_from_object, pre_key_whisper_to_object,
  verify_key_exchange, key_exchange_from_object, key_exchange_to_object, whisper_to_json,
  pre_key_whisper_to_json, key_exchange_to_json,
}
use libsignal_node.Wire.Conversion.RoundTrip.{
  SameWhisper, SamePreKeyWhisper, SameKeyExchange, from_object-to_object,
}

abbrev json : ConversionOptions
json = record { bytes = BytesAs.as_string; defaults = true }

abbrev util : Util
util = record {
  base64_encode = sample.to_base64;
  base64_decode = sample.from_base64;
  to_json_options = json;
  coerce = λ v. 0;
}

abbrev whisper : WhisperMessage
whisper = record {
  ephemeral_key = some (5 ∷ 1 ∷ []);
  counter = some 3;
  previous_counter = none;
  ciphertext = some [];
}

abbrev pre_key : PreKeyWhisperMessage
pre_key = record {
  registration_id = some 4294967295;
  pre_key_id = none;
  signed_pre_key_id = some 1;
  base_key = some (5 ∷ []);
  identity_key = none;
  message = some (51 ∷ 8 ∷ []);
}

abbrev exchange : KeyExchangeMessage
exchange = record {
  id = some 32;
  base_key = none;
  ephemeral_key = some (9 ∷ []);
  identity_key = some (5 ∷ []);
  base_key_signature = some [];
}

from_object-to_object_example :
    ((verify_whisper (whisper_to_object util json whisper) ≡ none)
      × SameWhisper json.bytes
          (whisper_from_object util (whisper_to_object util json whisper))
          whisper)
    × ((verify_pre_key_whisper (pre_key_whisper_to_object util json pre_key) ≡ none)
        × SamePreKeyWhisper json.bytes
            (pre_key_whisper_from_object util (pre_key_whisper_to_object util json pre_key))
            pre_key)
    × ((verify_key_exchange (key_exchange_to_object util json exchange) ≡ none)
        × SameKeyExchange json.bytes
            (key_exchange_from_object util (key_exchange_to_object util json exchange))
            exchange)
from_object-to_object_example =
    from_object-to_object util sample_laws.from_base64-to_base64 refl json whisper pre_key exchange
      (omega arith, omega arith) (omega arith, omega arith, omega arith) (omega arith)

-- A number with a fraction is no counter.
refused :
    verify_whisper (("ephemeralKey", Value.text "BQ==") ∷ ("counter", Value.fraction (pos 1)) ∷ [])
    ≡ some "counter: integer expected"
unfolding verify_whisper check_bytes check_number lookup
refused = refl

-- `>>> 0` makes of -1 the largest number; an empty buffer is not taken over, an array is as it is.
converted :
    whisper_from_object util (
      ("counter", Value.integer (negsuc 0))
      ∷ ("ephemeralKey", Value.buffer [])
      ∷ ("ciphertext", Value.array (7 ∷ []))
      ∷ [])
    ≡ ("counter", Value.integer (pos 4294967295)) ∷ ("ciphertext", Value.array (7 ∷ [])) ∷ []
unfolding whisper_from_object read_number read_bytes lookup to_uint32 set_own put
converted = refl

-- The defaults come first, the own values take their places.
json_objects :
    (whisper_to_json util whisper
      ≡ ("ephemeralKey", Value.text (sample.to_base64 (5 ∷ 1 ∷ [])))
        ∷ ("counter", Value.integer (pos 3))
        ∷ ("previousCounter", Value.integer (pos 0))
        ∷ ("ciphertext", Value.text "")
        ∷ [])
    × (lookup "preKeyId" (pre_key_whisper_to_json util pre_key) ≡ some (Value.integer (pos 0)))
    × (lookup "identityKey" (key_exchange_to_json util exchange)
        ≡ some (Value.text (sample.to_base64 (5 ∷ []))))
unfolding whisper_to_json pre_key_whisper_to_json key_exchange_to_json whisper_to_object
    pre_key_whisper_to_object key_exchange_to_object set_own own_bytes own_number default_bytes
    lookup put
json_objects = (refl, refl, refl)
