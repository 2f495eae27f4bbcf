-- ===== src/Curve/Keys.antt =====
-- The key pairs of src/curve.ts. The pair that node's generator exports, what it throws, the 32 random
-- bytes of the fallback and the curve package's generator are arguments.
pub mod Generated
use libsignal_node.Common.{
  ℕ, zero, suc, ◌+◌, ◌*◌, ◌/◌, ◌%◌, Bytes, List, [], ◌∷◌, Option, none, some, take, drop, length,
  Result, ok, err, SignalError,
}
use libsignal_node.Platform.{KeyPair}
use libsignal_node.Curve.{prefix_key_in_public_key}

-- `PUBLIC_KEY_DER_PREFIX` and `PRIVATE_KEY_DER_PREFIX`
abbrev pub public_key_der_prefix : Bytes
public_key_der_prefix = 48 ∷ 42 ∷ 48 ∷ 5 ∷ 6 ∷ 3 ∷ 43 ∷ 101 ∷ 110 ∷ 3 ∷ 33 ∷ 0 ∷ []

abbrev pub private_key_der_prefix : Bytes
private_key_der_prefix =
    48 ∷ 46 ∷ 2 ∷ 1 ∷ 0 ∷ 48 ∷ 5 ∷ 6 ∷ 3 ∷ 43 ∷ 101 ∷ 110 ∷ 4 ∷ 34 ∷ 4 ∷ 32 ∷ []

-- `bytes[i] = f(bytes[i])` on a `Uint8Array`: out of range, nothing is written.
unfoldable pub update : ℕ → (ℕ → ℕ) → Bytes → Bytes
update i f [] = []
update zero f (b ∷ bs) = f b ∷ bs
update (suc i) f (b ∷ bs) = b ∷ update i f bs

-- `b | 6`, `b | 128` and `b & ~64` of a byte
abbrev pub or_6 : ℕ → ℕ
or_6 b = b / 8 * 8 + 6 + b % 2

abbrev pub or_128 : ℕ → ℕ
or_128 b = 128 + b % 128

abbrev pub and_not_64 : ℕ → ℕ
and_not_64 b = b / 128 * 128 + b % 64

unfoldable pub unclamp_ed25519_private_key : Bytes → Bytes
unclamp_ed25519_private_key clamped =
    update 31 and_not_64 (update 31 or_128 (update 0 or_6 clamped))

-- The keys that the generator of node has exported, in DER.
unfoldable pub read_der : Bytes → Bytes → KeyPair
read_der public_der private_der = record {
  pub_key = prefix_key_in_public_key (take 32 (drop (length public_key_der_prefix) public_der));
  priv_key = take 32 (drop (length private_key_der_prefix) private_der);
}

module _ (curve_js : Bytes → KeyPair) where
  unfoldable pub get_public_from_private_key : Bytes → Bytes
  get_public_from_private_key priv_key =
      prefix_key_in_public_key (curve_js (unclamp_ed25519_private_key priv_key)).pub_key

  -- The `catch` of both generators.
  unfoldable pub fallback : Bytes → KeyPair
  fallback random = record {
    pub_key = prefix_key_in_public_key (curve_js random).pub_key;
    priv_key = (curve_js random).priv_key;
  }

  unfoldable pub generate_key_pair : Result (Bytes × Bytes) → Bytes → KeyPair
  generate_key_pair (ok (public_der, private_der)) random = read_der public_der private_der
  generate_key_pair (err e) random = fallback random

  -- The callback's error, if there is one, and its two keys.
  unfoldable pub generate_key_pair_async : Option SignalError → Bytes → Bytes → Bytes → KeyPair
  generate_key_pair_async none public_der private_der random = read_der public_der private_der
  generate_key_pair_async (some e) public_der private_der random = fallback random
