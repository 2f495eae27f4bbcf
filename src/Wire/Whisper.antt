-- ===== src/Wire/Whisper.antt =====
-- `WhisperMessage` and `PreKeyWhisperMessage`: `encode` and `decode` of src/whisper-text-protocol.ts.
-- A record holds the message's own properties; reading one that is absent gives the default that the
-- source puts on the prototype, 0 or an empty buffer.
pub mod RoundTrip
use libsignal_node.Common.{
  ℕ, ◌/◌, ◌%◌, Bytes, [], ◌∷◌, ◌++◌, Option, none, some, length, ◌==◌, nat_eq, if◌then◌else◌,
  Result, ok, ◌>>=◌,
}
use libsignal_node.Platform.{Platform}
use libsignal_node.Wire.Reader.{read_fields, bytes_field, uint32_field, skip}

pub record WhisperMessage : Type 0 where
  pub ephemeral_key : Option Bytes
  pub counter : Option ℕ
  pub previous_counter : Option ℕ
  pub ciphertext : Option Bytes

pub record PreKeyWhisperMessage : Type 0 where
  pub registration_id : Option ℕ
  pub pre_key_id : Option ℕ
  pub signed_pre_key_id : Option ℕ
  pub base_key : Option Bytes
  pub identity_key : Option Bytes
  pub message : Option Bytes

abbrev pub empty_whisper : WhisperMessage
empty_whisper = record {
  ephemeral_key = none;
  counter = none;
  previous_counter = none;
  ciphertext = none;
}

abbrev pub empty_pre_key_whisper : PreKeyWhisperMessage
empty_pre_key_whisper = record {
  registration_id = none;
  pre_key_id = none;
  signed_pre_key_id = none;
  base_key = none;
  identity_key = none;
  message = none;
}

module _ (p : Platform) where
  unfoldable pub encode_whisper : WhisperMessage → Bytes
  encode_whisper m =
      bytes_field p 10 m.ephemeral_key
      ++ (uint32_field p 16 m.counter
          ++ (uint32_field p 24 m.previous_counter ++ (bytes_field p 34 m.ciphertext ++ [])))

  -- The `switch (tag >>> 3)` of `WhisperMessage.decode`.
  unfoldable pub whisper_field : ℕ → WhisperMessage → Bytes → Result (WhisperMessage × Bytes)
  whisper_field tag m left =
      if tag / 8 == 1
      then (do (b, rest) ← p.read_bytes left; ok (record m { ephemeral_key = some b }, rest))
      else if tag / 8 == 2
      then (do (n, rest) ← p.read_uint32 left; ok (record m { counter = some n }, rest))
      else if tag / 8 == 3
      then (do (n, rest) ← p.read_uint32 left; ok (record m { previous_counter = some n }, rest))
      else if tag / 8 == 4
      then (do (b, rest) ← p.read_bytes left; ok (record m { ciphertext = some b }, rest))
      else skip p tag m left

  unfoldable pub decode_whisper : Bytes → Result WhisperMessage
  decode_whisper bytes = read_fields p whisper_field (length bytes) empty_whisper bytes

  unfoldable pub encode_pre_key_whisper : PreKeyWhisperMessage → Bytes
  encode_pre_key_whisper m =
      uint32_field p 8 m.pre_key_id
      ++ (bytes_field p 18 m.base_key
          ++ (bytes_field p 26 m.identity_key
              ++ (bytes_field p 34 m.message
                  ++ (uint32_field p 40 m.registration_id
                      ++ (uint32_field p 48 m.signed_pre_key_id ++ [])))))

  -- The `switch (tag >>> 3)` of `PreKeyWhisperMessage.decode`.
  unfoldable pub pre_key_whisper_field :
      ℕ → PreKeyWhisperMessage → Bytes → Result (PreKeyWhisperMessage × Bytes)
  pre_key_whisper_field tag m left =
      if tag / 8 == 5
      then (do (n, rest) ← p.read_uint32 left; ok (record m { registration_id = some n }, rest))
      else if tag / 8 == 1
      then (do (n, rest) ← p.read_uint32 left; ok (record m { pre_key_id = some n }, rest))
      else if tag / 8 == 6
      then (do (n, rest) ← p.read_uint32 left; ok (record m { signed_pre_key_id = some n }, rest))
      else if tag / 8 == 2
      then (do (b, rest) ← p.read_bytes left; ok (record m { base_key = some b }, rest))
      else if tag / 8 == 3
      then (do (b, rest) ← p.read_bytes left; ok (record m { identity_key = some b }, rest))
      else if tag / 8 == 4
      then (do (b, rest) ← p.read_bytes left; ok (record m { message = some b }, rest))
      else skip p tag m left

  unfoldable pub decode_pre_key_whisper : Bytes → Result PreKeyWhisperMessage
  decode_pre_key_whisper bytes =
      read_fields p pre_key_whisper_field (length bytes) empty_pre_key_whisper bytes
