-- ===== src/Crypto/Hkdf.antt =====
-- `deriveSecrets` computes the extract and expand steps of HKDF-SHA256 (RFC 5869), for up to three
-- blocks.
use mathlib.Core.List.{append_assoc}
use libsignal_node.Common.{
  ℕ, zero, suc, ◌+◌, ◌-◌, ◌≡◌, refl, sym, ap, ◌∙◌, arith, Bytes, [], ◌∷◌, ◌++◌, none, some, ◌==◌,
  nat_eq, true, length, take-append, drop-append, length-append, ok,
}
use libsignal_node.Platform.{Platform, PlatformLaws}
use libsignal_node.Crypto.{alloc, set_bytes, calculate_mac, expand, derive_secrets}

-- Writing over the middle of a buffer.
pub set_bytes-append :
    (source before over after : Bytes)
    → length over ≡ length source
    → set_bytes source (length before) (before ++ (over ++ after)) ≡ before ++ (source ++ after)
unfolding set_bytes
set_bytes-append source before over after h = rw (
  take-append (length before) before (over ++ after) refl,
  sym (append_assoc before over after),
  drop-append (length before + length source) (before ++ over) after
      (omega (arith, length-append before over)),
)

pub length-alloc : (n : ℕ) → length (alloc n) ≡ n
length-alloc zero = refl
length-alloc (suc n) = ap suc (length-alloc n)

alloc-add : (m n : ℕ) → alloc (m + n) ≡ alloc m ++ alloc n
alloc-add zero n = let e : 0 + n ≡ n = omega arith in ap alloc e
alloc-add (suc m) n =
    let e : suc m + n ≡ suc (m + n) = omega arith in ap alloc e ∙ ap (◌∷◌ 0) (alloc-add m n)

set_last :
    (before info : Bytes) (n m : ℕ)
    → length before ≡ 32
    → set_bytes (n ∷ []) (length info + 1 + 32 - 1) (before ++ (info ++ m ∷ []))
      ≡ before ++ (info ++ n ∷ [])
set_last before info n m h =
    let at : length info + 1 + 32 - 1 ≡ length (before ++ info) =
      omega (arith, length-append before info) in
    rw (at, sym (append_assoc before info (m ∷ [])))
      (set_bytes-append (n ∷ []) (before ++ info) (m ∷ []) [] refl
        ∙ append_assoc before info (n ∷ []))

module _ (p : Platform) where
  -- T(1), T(2) and T(3) of the expand step: each is the MAC of the block before, the info and a counter.
  pub block1 : Bytes → Bytes → Bytes
  block1 prk info = calculate_mac p prk (info ++ 1 ∷ [])

  pub block2 : Bytes → Bytes → Bytes
  block2 prk info = calculate_mac p prk (block1 prk info ++ (info ++ 2 ∷ []))

  pub block3 : Bytes → Bytes → Bytes
  block3 prk info = calculate_mac p prk (block2 prk info ++ (info ++ 3 ∷ []))

-- The buffer of the first round: 32 bytes of zero, the info, the counter.
buffer1 :
    (info : Bytes)
    → set_bytes
        (1 ∷ [])
        (length info + 1 + 32 - 1)
        (set_bytes info 32 (alloc (length info + 1 + 32)))
      ≡ alloc 32 ++ (info ++ 1 ∷ [])
buffer1 info =
    ap (λ b. set_bytes (1 ∷ []) (length info + 1 + 32 - 1) b) filled
    ∙ set_last (alloc 32) info 1 0 refl
  where
    size : length info + 1 + 32 ≡ 32 + (length info + 1)
    size = omega arith

    filled : set_bytes info 32 (alloc (length info + 1 + 32)) ≡ alloc 32 ++ (info ++ alloc 1)
    filled =
        ap (λ n. set_bytes info 32 (alloc n)) size
        ∙ ap (set_bytes info 32)
            (alloc-add 32 (length info + 1) ∙ ap (◌++◌ (alloc 32)) (alloc-add (length info) 1))
        ∙ set_bytes-append info (alloc 32) (alloc (length info)) (alloc 1)
            (length-alloc (length info))

-- A later round: the block before goes over the first 32 bytes, the counter over the last.
buffer_next :
    (block old info : Bytes) (n m : ℕ)
    → length block ≡ 32
    → length old ≡ 32
    → set_bytes (n ∷ []) (length info + 1 + 32 - 1) (set_bytes block 0 (old ++ (info ++ m ∷ [])))
      ≡ block ++ (info ++ n ∷ [])
buffer_next block old info n m hb ho =
    ap (λ b. set_bytes (n ∷ []) (length info + 1 + 32 - 1) b)
      (set_bytes-append block [] old (info ++ m ∷ []) (ho ∙ sym hb))
    ∙ set_last block info n m hb

module _ (p : Platform) (laws : PlatformLaws p) where
  mac_length : (key text : Bytes) → length (calculate_mac p key text) ≡ 32
  unfolding calculate_mac
  mac_length key text = laws.length-hmac key text

  expand_rounds :
      (prk info : Bytes)
      → (expand p prk info 3 ≡ block1 p prk info ∷ block2 p prk info ∷ block3 p prk info ∷ [])
        × (expand p prk info 2 ≡ block1 p prk info ∷ block2 p prk info ∷ [])
        × (expand p prk info 1 ≡ block1 p prk info ∷ [])
  unfolding expand block1 block2 block3
  expand_rounds prk info =
      let b1 : Bytes = calculate_mac p prk (info ++ 1 ∷ []) in
      let b2 : Bytes = calculate_mac p prk (b1 ++ (info ++ 2 ∷ [])) in
      let next = buffer_next b1 (alloc 32) info 2 1 (mac_length prk (info ++ 1 ∷ [])) refl in
      let last =
        buffer_next b2 b1 info 3 2 (mac_length prk (b1 ++ (info ++ 2 ∷ [])))
          (mac_length prk (info ++ 1 ∷ [])) in
      (rw (buffer1 info, next, last), rw (buffer1 info, next), rw (buffer1 info))

  -- For a salt of 32 bytes `deriveSecrets` returns the blocks T(1), T(2), T(3) of the HKDF output for
  -- the input, the salt and the info: three by default, or the first two or one if `chunks` says so.
  -- Each block has 32 bytes.
  pub derive_secrets-hkdf :
      (input salt info : Bytes)
      → length salt ≡ 32
      → let prk = calculate_mac p salt input in
        (derive_secrets p input salt info none
          ≡ ok (block1 p prk info ∷ block2 p prk info ∷ block3 p prk info ∷ []))
        × (derive_secrets p input salt info (some 2)
            ≡ ok (block1 p prk info ∷ block2 p prk info ∷ []))
        × (derive_secrets p input salt info (some 1) ≡ ok (block1 p prk info ∷ []))
        × (length (block1 p prk info) ≡ 32)
        × (length (block2 p prk info) ≡ 32)
        × (length (block3 p prk info) ≡ 32)
  unfolding derive_secrets block1 block2 block3
  derive_secrets-hkdf input salt info h =
      let salted : (length salt == 32) ≡ true = ground arith in
      let (three, two, one) = expand_rounds (calculate_mac p salt input) info in
      (
        rw salted (ap ok three),
        rw salted (ap ok two),
        rw salted (ap ok one),
        mac_length _ _,
        mac_length _ _,
        mac_length _ _,
      )
