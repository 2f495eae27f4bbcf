-- ===== src/Platform.antt =====
-- What the program takes from outside its own sources: node's `crypto`, the curve25519 package,
-- `Buffer`'s base64, and the reader and writer of protobufjs. Each is a parameter; the laws that the
-- proofs use are a second record, which `Platform.Sample` shows can be met.
pub mod Sample
use libsignal_node.Common.{
  ℕ, suc, ◌*◌, ◌^◌, ◌<◌, ◌≤◌, ◌≡◌, ◌≢◌, Bytes, List, [], ◌∷◌, ◌++◌, String, Bool, true, length,
  Result, ok,
}

pub record KeyPair : Type 0 where
  pub pub_key : Bytes
  pub priv_key : Bytes

pub record Platform : Type 0 where
  -- createHmac("sha256", key).update(data).digest()
  pub hmac_sha256 : Bytes → Bytes → Bytes
  -- createHash("sha512")
  pub sha512 : Bytes → Bytes
  -- createCipheriv and createDecipheriv("aes-256-cbc", key, iv): key, data, iv
  pub aes_cbc_encrypt : Bytes → Bytes → Bytes → Result Bytes
  pub aes_cbc_decrypt : Bytes → Bytes → Bytes → Result Bytes
  -- diffieHellman of a 32-byte private and a 32-byte public key
  pub diffie_hellman : Bytes → Bytes → Bytes
  -- sign(privKey, message) and verify(pubKey, message, signature) of the curve package
  pub sign : Bytes → Bytes → Bytes
  pub verify : Bytes → Bytes → Bytes → Bool
  -- the 32-byte public key of a private key, as key generation pairs them
  pub public_of : Bytes → Bytes
  -- buffer.toString("base64") and Buffer.from(text, "base64")
  pub to_base64 : Bytes → String
  pub from_base64 : String → Bytes
  -- Writer.uint32 and Writer.bytes append these bytes; Reader.uint32, Reader.bytes and
  -- Reader.skipType take a prefix off what is left to read.
  pub write_uint32 : ℕ → Bytes
  pub write_bytes : Bytes → Bytes
  pub read_uint32 : Bytes → Result (ℕ × Bytes)
  pub read_bytes : Bytes → Result (Bytes × Bytes)
  pub skip_type : ℕ → Bytes → Result Bytes

pub record PlatformLaws (p : Platform) : Type 0 where
  pub length-hmac : (key text : Bytes) → length (p.hmac_sha256 key text) ≡ 32
  -- CBC with padding: with a 32-byte key and a 16-byte iv, decryption inverts encryption, and the
  -- ciphertext is a positive number of 16-byte blocks.
  pub aes_round_trip :
      (key text iv : Bytes)
      → length key ≡ 32
      → length iv ≡ 16
      → (c : Bytes) × (p.aes_cbc_encrypt key text iv ≡ ok c)
        × (p.aes_cbc_decrypt key c iv ≡ ok text)
        × (blocks : ℕ) × (length c ≡ 16 * suc blocks)
  pub from_base64-to_base64 : (b : Bytes) → p.from_base64 (p.to_base64 b) ≡ b
  -- An XEdDSA signature has 64 bytes.
  pub length-sign : (k m : Bytes) → length (p.sign k m) ≡ 64
  pub verify-sign : (k m : Bytes) → p.verify (p.public_of k) m (p.sign k m) ≡ true
  pub diffie_hellman_comm :
      (a b : Bytes) → p.diffie_hellman a (p.public_of b) ≡ p.diffie_hellman b (p.public_of a)
  pub length-public_of : (k : Bytes) → length (p.public_of k) ≡ 32
  pub length-diffie_hellman : (a b : Bytes) → length (p.diffie_hellman a b) ≡ 32
  pub read-write_uint32 :
      (n : ℕ) (rest : Bytes) → n < 2 ^ 32 → p.read_uint32 (p.write_uint32 n ++ rest) ≡ ok (n, rest)
  pub read-write_bytes : (b rest : Bytes) → p.read_bytes (p.write_bytes b ++ rest) ≡ ok (b, rest)
  pub write_uint32-pos : (n : ℕ) → 1 ≤ length (p.write_uint32 n)
