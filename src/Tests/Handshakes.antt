-- ===== src/Tests/Handshakes.antt =====
-- The handshake, HKDF and the chain on concrete keys.
use libsignal_node.Common.{
  ℕ, ◌≡◌, refl, arith, Bytes, [], ◌∷◌, none, some, length, lookup, pos, minus_one, ◌+ℤ◌, nat_eq,
  pos_part, ok, true, false,
}
use libsignal_node.Platform.Sample.{sample, sample_laws}
use libsignal_node.Crypto.{calculate_mac, derive_secrets, alloc}
use libsignal_node.Crypto.Hkdf.{block1, block2, block3, derive_secrets-hkdf}
use libsignal_node.Session.Entry.{Chain, ChainType}
use libsignal_node.Session.Chain.{fill_message_keys}
use libsignal_node.Session.Chain.Keys.{
  IsChain, chain_key_after, message_key_at, fill_message_keys-ahead,
}
use libsignal_node.Session.Handshake.{agree}
use libsignal_node.Session.Handshake.Agreement.{IsKeyPair, agree_symmetric}
use libsignal_node.Tests.Fixtures.{pair, first_key, receiving}

pair-IsKeyPair : (n : ℕ) → IsKeyPair sample (pair n)
pair-IsKeyPair n = record { priv_size = refl; public = refl }

agree_symmetric_example :
    agree sample true
      (pair 1)
      (some (pair 2))
      (pair 2)
      (pair 3).pub_key
      (some (pair 5).pub_key)
      (pair 4).pub_key
    ≡ agree sample false
        (pair 3)
        (some (pair 5))
        (pair 4)
        (pair 1).pub_key
        (some (pair 2).pub_key)
        (pair 2).pub_key
agree_symmetric_example =
    agree_symmetric sample sample_laws (pair 1) (pair 2) (pair 3) (pair 4) (some (pair 5))
      (pair-IsKeyPair 1) (pair-IsKeyPair 2) (pair-IsKeyPair 3) (pair-IsKeyPair 4) (pair-IsKeyPair 5)

receiving-IsChain : IsChain receiving
receiving-IsChain = record { started = omega arith; below = tt }

fill_message_keys-ahead_example :
    (f : Chain) × (fill_message_keys sample (minus_one +ℤ pos 3) receiving ≡ ok f)
    × (f.chain_key.counter ≡ minus_one +ℤ pos 3)
    × (f.chain_key.key ≡ some (chain_key_after sample 3 first_key))
    × (f.chain_type ≡ ChainType.receiving)
    × (lookup (pos_part f.chain_key.counter) f.message_keys
        ≡ some (message_key_at sample 2 first_key))
fill_message_keys-ahead_example =
    fill_message_keys-ahead sample 2 first_key receiving refl (omega arith) receiving-IsChain

derive_secrets-hkdf_example :
    let info : Bytes = 1 ∷ 2 ∷ [] in
    let salt = alloc 32 in
    let prk = calculate_mac sample salt first_key in
    (derive_secrets sample first_key salt info none
      ≡ ok (block1 sample prk info ∷ block2 sample prk info ∷ block3 sample prk info ∷ []))
    × (derive_secrets sample first_key salt info (some 2)
        ≡ ok (block1 sample prk info ∷ block2 sample prk info ∷ []))
    × (derive_secrets sample first_key salt info (some 1) ≡ ok (block1 sample prk info ∷ []))
    × (length (block1 sample prk info) ≡ 32)
    × (length (block2 sample prk info) ≡ 32)
    × (length (block3 sample prk info) ≡ 32)
derive_secrets-hkdf_example =
    derive_secrets-hkdf sample sample_laws first_key (alloc 32) (1 ∷ 2 ∷ []) refl
