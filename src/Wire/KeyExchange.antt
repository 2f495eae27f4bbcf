-- ===== src/Wire/KeyExchange.antt =====
-- `KeyExchangeMessage`: `encode` and `decode` of
-- src/whisper-text-protocol.ts.
pub mod RoundTrip
use libsignal_node.Common.{
  ℕ, ◌/◌, ◌-◌, Bytes, [], ◌∷◌, ◌++◌, Option, none, some, length, take, leb, ◌==◌, nat_eq,
  if◌then◌else◌, Result, ok, err, ◌>>=◌, plain_error,
}
use libsignal_node.Platform.{Platform}
use libsignal_node.Wire.Reader.{read_fields, bytes_field, uint32_field, skip}

pub record KeyExchangeMessage : Type 0 where
  pub id : Option ℕ
  pub base_key : Option Bytes
  pub ephemeral_key : Option Bytes
  pub identity_key : Option Bytes
  pub base_key_signature : Option Bytes

abbrev pub empty_key_exchange : KeyExchangeMessage
empty_key_exchange = record {
  id = none;
  base_key = none;
  ephemeral_key = none;
  identity_key = none;
  base_key_signature = none;
}

module _ (p : Platform) where
  unfoldable pub encode_key_exchange : KeyExchangeMessage → Bytes
  encode_key_exchange m =
      uint32_field p 8 m.id
      ++ (bytes_field p 18 m.base_key
          ++ (bytes_field p 26 m.ephemeral_key
              ++ (bytes_field p 34 m.identity_key
                  ++ (bytes_field p 42 m.base_key_signature ++ []))))

  -- The `switch (tag >>> 3)` of `KeyExchangeMessage.decode`.
  unfoldable pub key_exchange_field :
      ℕ → KeyExchangeMessage → Bytes → Result (KeyExchangeMessage × Bytes)
  key_exchange_field tag m left =
      if tag / 8 == 1
      then (do (n, rest) ← p.read_uint32 left; ok (record m { id = some n }, rest))
      else if tag / 8 == 2
      then (do (b, rest) ← p.read_bytes left; ok (record m { base_key = some b }, rest))
      else if tag / 8 == 3
      then (do (b, rest) ← p.read_bytes left; ok (record m { ephemeral_key = some b }, rest))
      else if tag / 8 == 4
      then (do (b, rest) ← p.read_bytes left; ok (record m { identity_key = some b }, rest))
      else if tag / 8 == 5
      then (do (b, rest) ← p.read_bytes left; ok (record m { base_key_signature = some b }, rest))
      else skip p tag m left

  unfoldable pub decode_key_exchange : Bytes → Result KeyExchangeMessage
  decode_key_exchange bytes =
      read_fields p key_exchange_field (length bytes) empty_key_exchange bytes
