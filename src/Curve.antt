-- ===== src/Curve.antt =====
-- src/curve.ts: the formats of keys, key agreement and signatures over the platform's primitives.
-- The pairs that the callers draw are their arguments; the conversion of the keys of an agreement to DER
-- is the platform's.
pub mod Keys
use libsignal_node.Common.{
  Bytes, [], ◌∷◌, Bool, true, false, ◌&&◌, ◌||◌, length, drop, ◌==◌, nat_eq, if◌then◌else◌, Result,
  ok, err, ◌>>=◌, ◌>>◌, require, plain_error,
}
use libsignal_node.Platform.{Platform}

unfoldable pub prefix_key_in_public_key : Bytes → Bytes
prefix_key_in_public_key pub_key = 5 ∷ pub_key

unfoldable pub validate_priv_key : Bytes → Result (Unit {0})
validate_priv_key priv_key =
    require (length priv_key == 32) (plain_error "Incorrect private key length")

abbrev starts_with_5 : Bytes → Bool
starts_with_5 [] = false
starts_with_5 (b ∷ bs) = b == 5

unfoldable pub scrub_pub_key_format : Bytes → Result Bytes
scrub_pub_key_format pub_key = do
  require ((length pub_key == 33 && starts_with_5 pub_key) || length pub_key == 32)
      (plain_error "Invalid public key")
  ok (if length pub_key == 33 then drop 1 pub_key else pub_key)

abbrev pub all_zero : Bytes → Bool
all_zero [] = true
all_zero (b ∷ bs) = b == 0 && all_zero bs

unfoldable pub assert_not_low_order_secret : Bytes → Result Bytes
assert_not_low_order_secret secret =
    if all_zero secret then err (plain_error "invalid public key (low-order point)") else ok secret

module _ (p : Platform) where
  unfoldable pub calculate_agreement : Bytes → Bytes → Result Bytes
  calculate_agreement pub_key_input priv_key = do
    pub_key ← scrub_pub_key_format pub_key_input
    validate_priv_key priv_key
    require (length pub_key == 32) (plain_error "Invalid public key")
    assert_not_low_order_secret (p.diffie_hellman priv_key pub_key)

  unfoldable pub calculate_signature : Bytes → Bytes → Result Bytes
  calculate_signature priv_key message = do validate_priv_key priv_key; ok (p.sign priv_key message)

  unfoldable pub verify_signature : Bytes → Bytes → Bytes → Result Bool
  verify_signature pub_key_input message signature = do
    pub_key ← scrub_pub_key_format pub_key_input
    require (length pub_key == 32) (plain_error "Invalid public key")
    require (length signature == 64) (plain_error "Invalid signature")
    ok (p.verify pub_key message signature)
