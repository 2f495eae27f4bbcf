-- ===== src/Curve/Keys/Generated.antt =====
-- A generated pair is a key pair of the curve, whichever way it is generated, and its public key is found
-- again from the private key.
use libsignal_node.Common.{
  ℕ, zero, suc, ◌/◌, ◌%◌, ◌≡◌, refl, sym, ap, ◌∙◌, arith, Bytes, [], ◌∷◌, ◌++◌, none, some, length,
  take, ok, err, SignalError,
}
use libsignal_node.Platform.{Platform, KeyPair}
use libsignal_node.Curve.{prefix_key_in_public_key}
use libsignal_node.Session.Handshake.Agreement.{IsKeyPair}
use libsignal_node.Curve.Keys.{
  public_key_der_prefix, private_key_der_prefix, update, or_6, or_128, and_not_64,
  unclamp_ed25519_private_key, read_der, get_public_from_private_key, fallback, generate_key_pair,
  generate_key_pair_async,
}

-- X25519 ignores the three lowest bits of a private key and the two highest; the curve package's
-- generator pairs a seed's public key with a private key of the same public key.
pub record CurveLaws (p : Platform) (curve_js : Bytes → KeyPair) : Type 0 where
  pub length-public_of : (k : Bytes) → length (p.public_of k) ≡ 32
  pub same_scalar :
      (a b : ℕ) (middle : Bytes) (y z : ℕ)
      → length middle ≡ 30
      → a / 8 ≡ b / 8
      → y % 64 ≡ z % 64
      → p.public_of (a ∷ middle ++ y ∷ []) ≡ p.public_of (b ∷ middle ++ z ∷ [])
  pub length-private : (seed : Bytes) → length seed ≡ 32 → length (curve_js seed).priv_key ≡ 32
  pub public_of_private :
      (seed : Bytes)
      → length seed ≡ 32
      → (curve_js seed).pub_key ≡ p.public_of (curve_js seed).priv_key
  pub public_of_seed :
      (seed : Bytes) → length seed ≡ 32 → (curve_js seed).pub_key ≡ p.public_of seed

length-update : (i : ℕ) (f : ℕ → ℕ) (b : Bytes) → length (update i f b) ≡ length b
unfolding update
length-update i f [] = refl
length-update zero f (b ∷ bs) = refl
length-update (suc i) f (b ∷ bs) = omega (arith, length-update i f bs)

update-append :
    (n : ℕ) (f : ℕ → ℕ) (xs : Bytes) (z : ℕ)
    → length xs ≡ n
    → update n f (xs ++ z ∷ []) ≡ xs ++ f z ∷ []
unfolding update
update-append zero f [] z l = refl
update-append zero f (x ∷ xs) z l = absurd (omega arith)
update-append (suc n) f [] z l = absurd (omega arith)
update-append (suc n) f (x ∷ xs) z l = ap (◌∷◌ x) (update-append n f xs z (omega arith))

length-unclamp : (k : Bytes) → length (unclamp_ed25519_private_key k) ≡ length k
unfolding unclamp_ed25519_private_key
length-unclamp k =
    let cleared : Bytes = update 0 or_6 k in
    omega (
      arith,
      length-update 0 or_6 k,
      length-update 31 or_128 cleared,
      length-update 31 and_not_64 (update 31 or_128 cleared),
    )

-- A list that is not empty, from its last element.
from_last :
    (x : ℕ) (xs : Bytes)
    → (ys : Bytes) × (z : ℕ) × (x ∷ xs ≡ ys ++ z ∷ []) × (length ys ≡ length xs)
from_last x [] = ([], x, refl, refl)
from_last x (y ∷ xs) =
    let (ys, z, e, l) = from_last y xs in (x ∷ ys, z, ap (◌∷◌ x) e, omega (arith, l))

take_all : (n : ℕ) (xs : Bytes) → length xs ≡ n → take n xs ≡ xs
take_all zero [] l = refl
take_all zero (x ∷ xs) l = absurd (omega arith)
take_all (suc n) [] l = absurd (omega arith)
take_all (suc n) (x ∷ xs) l = ap (◌∷◌ x) (take_all n xs (omega arith))

unclamp-parts :
    (a : ℕ) (middle : Bytes) (z : ℕ)
    → length middle ≡ 30
    → unclamp_ed25519_private_key (a ∷ middle ++ z ∷ [])
      ≡ or_6 a ∷ middle ++ and_not_64 (or_128 z) ∷ []
unfolding unclamp_ed25519_private_key update
unclamp-parts a middle z l =
    ap (◌∷◌ (or_6 a))
      (rw (update-append 30 or_128 middle z l) (update-append 30 and_not_64 middle (or_128 z) l))

-- A key pair whose public key is found again from its private key.
abbrev pub IsGenerated : Platform → (Bytes → KeyPair) → KeyPair → Type 0
IsGenerated p curve_js pair =
    IsKeyPair p pair × (get_public_from_private_key curve_js pair.priv_key ≡ pair.pub_key)

module _ (p : Platform) (curve_js : Bytes → KeyPair) (laws : CurveLaws p curve_js) where
  public_of-unclamp :
      (k : Bytes) → length k ≡ 32 → p.public_of (unclamp_ed25519_private_key k) ≡ p.public_of k
  public_of-unclamp [] l = absurd (omega arith)
  public_of-unclamp (a ∷ []) l = absurd (omega arith)
  public_of-unclamp (a ∷ b ∷ bs) l =
      let (middle, z, e, m) = from_last b bs in
      let l' : length middle ≡ 30 = omega arith in
      rw (e, unclamp-parts a middle z l')
        (laws.same_scalar (or_6 a) a middle (and_not_64 (or_128 z)) z l' (omega arith)
          (omega arith))

  get_public_lem :
      (k : Bytes) → length k ≡ 32 → get_public_from_private_key curve_js k ≡ 5 ∷ p.public_of k
  unfolding get_public_from_private_key prefix_key_in_public_key
  get_public_lem k l = ap (◌∷◌ 5) (
      laws.public_of_seed (unclamp_ed25519_private_key k) (length-unclamp k ∙ l)
      ∙ public_of-unclamp k l)

  read_der-IsGenerated :
      (k : Bytes)
      → length k ≡ 32
      → IsGenerated p curve_js
          (read_der (public_key_der_prefix ++ p.public_of k) (private_key_der_prefix ++ k))
  unfolding read_der prefix_key_in_public_key
  read_der-IsGenerated k l =
      rw (take_all 32 k l, take_all 32 (p.public_of k) (laws.length-public_of k))
        (record { priv_size = l; public = refl }, get_public_lem k l)

  fallback-IsGenerated :
      (random : Bytes) → length random ≡ 32 → IsGenerated p curve_js (fallback curve_js random)
  unfolding fallback prefix_key_in_public_key
  fallback-IsGenerated random l =
      let size = laws.length-private random l in
      let public = ap (◌∷◌ 5) (laws.public_of_private random l) in
      (
        record { priv_size = size; public = public },
        get_public_lem (curve_js random).priv_key size ∙ sym public,
      )

  -- X25519 ignores the three lowest and the two highest bits of a private key, and the curve package's
  -- pairs are pairs of X25519. When node's generator exports a 32-byte private key and its public key in
  -- DER, or throws, and 32 random bytes are drawn for the fallback, generateKeyPair and
  -- generateKeyPairAsync return a 32-byte private key with its public key behind the type byte, and
  -- getPublicFromPrivateKey finds that public key from the private key.
  pub generate_key_pair-IsGenerated :
      (k random : Bytes) (e : SignalError) (public_der private_der : Bytes)
      → length k ≡ 32
      → length random ≡ 32
      → let exported_public = public_key_der_prefix ++ p.public_of k in
        let exported_private = private_key_der_prefix ++ k in
        IsGenerated p curve_js
          (generate_key_pair curve_js (ok (exported_public, exported_private)) random)
        × IsGenerated p curve_js (generate_key_pair curve_js (err e) random)
        × IsGenerated p curve_js
            (generate_key_pair_async curve_js none exported_public exported_private random)
        × IsGenerated p curve_js
            (generate_key_pair_async curve_js (some e) public_der private_der random)
  unfolding generate_key_pair generate_key_pair_async
  generate_key_pair-IsGenerated k random e public_der private_der l r = (
    read_der-IsGenerated k l,
    fallback-IsGenerated random r,
    read_der-IsGenerated k l,
    fallback-IsGenerated random r,
  )
