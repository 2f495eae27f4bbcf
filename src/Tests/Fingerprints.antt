-- ===== src/Tests/Fingerprints.antt =====
-- The fingerprint and the key exchange message on concrete values.
use libsignal_node.Common.{◌≡◌, refl, arith, Bytes, [], ◌∷◌, none, some, ok, length, String}
use libsignal_node.Platform.Sample.{sample, sample_laws}
use libsignal_node.Wire.KeyExchange.{KeyExchangeMessage, encode_key_exchange, decode_key_exchange}
use libsignal_node.Wire.KeyExchange.RoundTrip.{decode_key_exchange-encode_key_exchange}
use libsignal_node.Fingerprint.{create_for, chunk_value, get_encoded_chunk}
use libsignal_node.Fingerprint.Digits.{number_from, get_encoded_chunk-chunk_value}
use libsignal_node.Fingerprint.Symmetric.{create_for-symmetric}
use libsignal_node.Tests.Fixtures.{alice, bob}

abbrev exchange : KeyExchangeMessage
exchange = record {
  id = some 7;
  base_key = some (1 ∷ 2 ∷ []);
  ephemeral_key = none;
  identity_key = some [];
  base_key_signature = some (9 ∷ []);
}

decode_key_exchange-encode_key_exchange_example :
    decode_key_exchange sample (encode_key_exchange sample exchange) ≡ ok exchange
decode_key_exchange-encode_key_exchange_example =
    decode_key_exchange-encode_key_exchange sample sample_laws exchange (omega arith)

-- Every text as no bytes.
abbrev no_bytes : String → Bytes
no_bytes s = []

create_for-symmetric_example :
    create_for sample no_bytes 2 "alice" alice.pub_key "bob" bob.pub_key
    ≡ create_for sample no_bytes 2 "bob" bob.pub_key "alice" alice.pub_key
create_for-symmetric_example =
    create_for-symmetric sample no_bytes 2 "alice" "bob" alice.pub_key bob.pub_key

abbrev five_bytes : Bytes
five_bytes = 0 ∷ 0 ∷ 0 ∷ 1 ∷ 44 ∷ []

three_hundred : chunk_value five_bytes 0 ≡ some 300
unfolding chunk_value
three_hundred = refl

get_encoded_chunk-chunk_value_example :
    (length (get_encoded_chunk five_bytes 0) ≡ 5)
    × (number_from 0 (get_encoded_chunk five_bytes 0) ≡ 300)
get_encoded_chunk-chunk_value_example = get_encoded_chunk-chunk_value five_bytes 0 300 three_hundred
