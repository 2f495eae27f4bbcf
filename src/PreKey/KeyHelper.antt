-- ===== src/PreKey/KeyHelper.antt =====
-- src/keyhelper.ts. Random draws and the clock are arguments.
use libsignal_node.Common.{
  ℕ, zero, suc, ◌+◌, ◌-◌, ◌%◌, Bytes, List, [], ◌∷◌, Option, none, some, Bool, ◌&&◌, not, length,
  leb, ◌==◌, nat_eq, if◌then◌else◌, Result, ok, ◌>>=◌, ◌>>◌, require, type_error,
}
use libsignal_node.Platform.{Platform, KeyPair}
use libsignal_node.Curve.{calculate_signature}
use libsignal_node.PreKey.Validator.{max_key_id}

pub record SignedPreKey : Type 0 where
  pub key_id : ℕ
  pub key_pair : KeyPair
  pub signature : Bytes
  pub created_at : ℕ

pub record PreKey : Type 0 where
  pub key_id : ℕ
  pub key_pair : KeyPair

-- `(((id - 1) % MAX + MAX) % MAX) + 1`, where `(0 - 1) % MAX` is -1 in JavaScript.
unfoldable pub wrap_pre_key_id : ℕ → ℕ
wrap_pre_key_id zero = (max_key_id - 1) % max_key_id + 1
wrap_pre_key_id (suc n) = (n % max_key_id + max_key_id) % max_key_id + 1

-- `Date.now() - createdAt >= maxAgeMs`, over integers
unfoldable pub should_rotate_signed_pre_key : ℕ → ℕ → ℕ → Bool
should_rotate_signed_pre_key now created_at max_age = leb (created_at + max_age) now

-- `do … while (registrationId === 0)` over the draws `readUInt16BE(0) & 0x3fff`; `none` asks for more.
unfoldable pub generate_registration_id : List ℕ → Option ℕ
generate_registration_id [] = none
generate_registration_id (draw ∷ draws) =
    if draw % 0x4000 == 0 then generate_registration_id draws else some (draw % 0x4000)

unfoldable pub generate_pre_key : ℕ → KeyPair → PreKey
generate_pre_key key_id key_pair = record { key_id = key_id; key_pair = key_pair }

-- What the batch resolves to: key `i` gets the id `wrapPreKeyId(startId + i)`, and `draw i` is the pair
-- generated for it. PreKey/Batch has the workers that fill it.
unfoldable pub batch_from : ℕ → ℕ → ℕ → (ℕ → KeyPair) → List PreKey
unfolding generate_pre_key wrap_pre_key_id
batch_from start_id zero i draw = []
batch_from start_id (suc left) i draw =
    generate_pre_key (wrap_pre_key_id (start_id + i)) (draw i)
    ∷ batch_from start_id left (i + 1) draw

unfoldable pub pre_keys_batch : ℕ → ℕ → (ℕ → KeyPair) → Result (List PreKey)
pre_keys_batch start_id count draw = do
  require (not (count == 0)) (type_error "Invalid argument for count")
  ok (batch_from start_id count 0 draw)

module _ (p : Platform) where
  unfoldable pub generate_signed_pre_key : ℕ → KeyPair → KeyPair → ℕ → Result SignedPreKey
  generate_signed_pre_key now identity key_pair signed_key_id = do
    require (length identity.priv_key == 32 && length identity.pub_key == 33)
        (type_error "Invalid argument for identityKeyPair")
    signature ← calculate_signature p identity.priv_key key_pair.pub_key
    ok (record {
      key_id = signed_key_id;
      key_pair = key_pair;
      signature = signature;
      created_at = now;
    })
