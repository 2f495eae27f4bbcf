-- ===== src/Tests/Curves.antt =====
-- Key pairs generated on a platform whose public keys ignore the first and the last byte.
use libsignal_node.Common.{
  ◌≡◌, refl, ap, sym, ◌∙◌, Bytes, [], ◌∷◌, ◌++◌, none, some, take, drop, replicate, take-append, ok,
  err, plain_error,
}
use libsignal_node.Platform.{Platform, KeyPair}
use libsignal_node.Platform.Sample.{sample, sample_laws}
use libsignal_node.Curve.Keys.{
  public_key_der_prefix, private_key_der_prefix, update, unclamp_ed25519_private_key,
  generate_key_pair, generate_key_pair_async,
}
use libsignal_node.Curve.Keys.Generated.{CurveLaws, IsGenerated, generate_key_pair-IsGenerated}

abbrev masked : Platform
masked = record sample { public_of = λ k. sample.public_of (take 30 (drop 1 k)) }

abbrev from_seed : Bytes → KeyPair
from_seed seed = record { pub_key = masked.public_of seed; priv_key = seed }

masked_laws : CurveLaws masked from_seed
masked_laws = record {
  length-public_of = λ k. sample_laws.length-public_of (take 30 (drop 1 k));
  same_scalar = λ a b middle y z l low high.
      ap sample.public_of
        (take-append 30 middle (y ∷ []) l ∙ sym (take-append 30 middle (z ∷ []) l));
  length-private = λ seed l. l;
  public_of_private = λ seed l. refl;
  public_of_seed = λ seed l. refl;
}

generate_key_pair-IsGenerated_example :
    let exported_public = public_key_der_prefix ++ masked.public_of (replicate 32 9) in
    let exported_private = private_key_der_prefix ++ replicate 32 9 in
    IsGenerated masked from_seed
      (generate_key_pair from_seed (ok (exported_public, exported_private)) (replicate 32 77))
    × IsGenerated masked from_seed
        (generate_key_pair from_seed (err (plain_error "no x25519")) (replicate 32 77))
    × IsGenerated masked from_seed
        (generate_key_pair_async from_seed none exported_public exported_private (replicate 32 77))
    × IsGenerated masked from_seed
        (generate_key_pair_async from_seed (some (plain_error "no x25519")) [] [] (replicate 32 77))
generate_key_pair-IsGenerated_example =
    generate_key_pair-IsGenerated masked from_seed masked_laws (replicate 32 9) (replicate 32 77)
      (plain_error "no x25519") [] [] refl refl

-- 0x40 at both ends: 0x46 and 0x80.
unclamped :
    unclamp_ed25519_private_key (64 ∷ replicate 30 1 ++ 64 ∷ []) ≡ 70 ∷ replicate 30 1 ++ 128 ∷ []
unfolding unclamp_ed25519_private_key update
unclamped = refl
