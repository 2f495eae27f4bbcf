-- ===== src/Session/Handshake/Agreement.antt =====
-- The two sides of the X3DH handshake arrive at the same root key.
use libsignal_node.Common.{
  ℕ, suc, ◌+◌, ◌≡◌, refl, sym, ap, ◌∙◌, arith, Bytes, [], ◌∷◌, ◌++◌, Option, none, some, true,
  false, length, replicate, ◌==◌, nat_eq, length-append, Result, ok, err, ◌>>=◌, ◌⊎◌, inl, inr,
  SignalError, plain_error, Bool-cases,
}
use mathlib.Core.List.{append_assoc}
use libsignal_node.Platform.{Platform, PlatformLaws, KeyPair}
use libsignal_node.Crypto.{alloc, set_bytes}
use libsignal_node.Crypto.Hkdf.{set_bytes-append}
use libsignal_node.Curve.{
  calculate_agreement, scrub_pub_key_format, validate_priv_key, assert_not_low_order_secret,
  all_zero,
}
use libsignal_node.Session.Handshake.{three_agreements, fourth_agreement, agree, root_from}

-- A pair as key generation makes it: a 32-byte private key, and its public key behind the type byte.
pub record IsKeyPair (p : Platform) (k : KeyPair) : Type 0 where
  pub priv_size : length k.priv_key ≡ 32
  pub public : k.pub_key ≡ 5 ∷ p.public_of k.priv_key

abbrev low_order : SignalError
low_order = plain_error "invalid public key (low-order point)"

-- The offset of a write, as an equation.
set_at :
    (source before over after : Bytes) (n : ℕ)
    → length before ≡ n
    → length over ≡ length source
    → set_bytes source n (before ++ (over ++ after)) ≡ before ++ (source ++ after)
set_at source before over after n h e = rw (← h) (set_bytes-append source before over after e)

-- The same, behind two parts and behind three.
set_after_two :
    (source b1 b2 over after : Bytes) (n : ℕ)
    → length b1 + length b2 ≡ n
    → length over ≡ length source
    → set_bytes source n (b1 ++ (b2 ++ (over ++ after))) ≡ b1 ++ (b2 ++ (source ++ after))
set_after_two source b1 b2 over after n h e =
    ap (set_bytes source n) (sym (append_assoc b1 b2 (over ++ after)))
    ∙ set_at source (b1 ++ b2) over after n (length-append b1 b2 ∙ h) e
    ∙ append_assoc b1 b2 (source ++ after)

set_after_three :
    (source b1 b2 b3 over after : Bytes) (n : ℕ)
    → length b1 + length b2 + length b3 ≡ n
    → length over ≡ length source
    → set_bytes source n (b1 ++ (b2 ++ (b3 ++ (over ++ after))))
      ≡ b1 ++ (b2 ++ (b3 ++ (source ++ after)))
set_after_three source b1 b2 b3 over after n h e =
    ap (set_bytes source n) (sym (append_assoc b1 b2 (b3 ++ (over ++ after))))
    ∙ set_after_two source (b1 ++ b2) b3 over after n (omega (arith, length-append b1 b2)) e
    ∙ append_assoc b1 b2 (b3 ++ (source ++ after))

abbrev ones : Bytes
ones = replicate 32 0xff

-- Both orders of writing give 32 ones, then the three agreements.
three_agreements_lem :
    (a1 a2 a3 : Bytes) (n size : ℕ)
    → length a1 ≡ 32
    → length a2 ≡ 32
    → length a3 ≡ 32
    → alloc size ≡ alloc 32 ++ (alloc 32 ++ (alloc 32 ++ (alloc 32 ++ alloc n)))
    → (three_agreements true size a1 a2 a3 ≡ ones ++ (a1 ++ (a2 ++ (a3 ++ alloc n))))
      × (three_agreements false size a2 a1 a3 ≡ ones ++ (a1 ++ (a2 ++ (a3 ++ alloc n))))
unfolding three_agreements
three_agreements_lem a1 a2 a3 n size h1 h2 h3 e = (
  ap (λ b. set_bytes a3 96 (set_bytes a2 64 (set_bytes a1 32 b))) filled
      ∙ ap (λ b. set_bytes a3 96 (set_bytes a2 64 b))
          (set_at a1 ones z (z ++ rest) 32 refl (sym h1))
      ∙ ap (set_bytes a3 96) (set_after_two a2 ones a1 z rest 64 (omega arith) (sym h2))
      ∙ last,
  ap (λ b. set_bytes a3 96 (set_bytes a1 32 (set_bytes a2 64 b))) filled
      ∙ ap (λ b. set_bytes a3 96 (set_bytes a1 32 b))
          (set_after_two a2 ones z z rest 64 refl (sym h2))
      ∙ ap (set_bytes a3 96) (set_at a1 ones z (a2 ++ rest) 32 refl (sym h1))
      ∙ last,
)
  where
    z : Bytes
    z = alloc 32

    rest : Bytes
    rest = z ++ alloc n

    filled : set_bytes ones 0 (alloc size) ≡ ones ++ (z ++ (z ++ rest))
    filled = ap (set_bytes ones 0) e ∙ set_at ones [] z (z ++ (z ++ rest)) 0 refl refl

    last : set_bytes a3 96 (ones ++ (a1 ++ (a2 ++ rest))) ≡ ones ++ (a1 ++ (a2 ++ (a3 ++ alloc n)))
    last = set_after_three a3 ones a1 a2 z (alloc n) 96 (omega arith) (sym h3)

module _ (p : Platform) (laws : PlatformLaws p) where
  -- With generated pairs an agreement is the platform's, but for the check of its result.
  agreement_lem :
      (k l : KeyPair)
      → IsKeyPair p k
      → IsKeyPair p l
      → calculate_agreement p k.pub_key l.priv_key
        ≡ assert_not_low_order_secret (p.diffie_hellman l.priv_key (p.public_of k.priv_key))
  unfolding calculate_agreement scrub_pub_key_format validate_priv_key
  agreement_lem k l hk hl =
      let long : (length (p.public_of k.priv_key) == 32) ≡ true =
        ground (arith, laws.length-public_of k.priv_key) in
      let longer : (suc (length (p.public_of k.priv_key)) == 33) ≡ true =
        ground (arith, laws.length-public_of k.priv_key) in
      let priv : (length l.priv_key == 32) ≡ true = ground (arith, hl.priv_size) in
      rw (hk.public, longer, long, priv) refl

  -- An agreement is the same on both sides.
  pub agreement_comm :
      (k l : KeyPair)
      → IsKeyPair p k
      → IsKeyPair p l
      → calculate_agreement p k.pub_key l.priv_key ≡ calculate_agreement p l.pub_key k.priv_key
  agreement_comm k l hk hl =
      agreement_lem k l hk hl
      ∙ ap assert_not_low_order_secret (laws.diffie_hellman_comm l.priv_key k.priv_key)
      ∙ sym (agreement_lem l k hl hk)

  abbrev Agreed : Result Bytes → Type 0
  Agreed r = (r ≡ err low_order) ⊎ ((s : Bytes) × (r ≡ ok s) × (length s ≡ 32))

  not_low_order_cases : (s : Bytes) → length s ≡ 32 → Agreed (assert_not_low_order_secret s)
  unfolding assert_not_low_order_secret
  not_low_order_cases s h = elim (Bool-cases (all_zero s)) [
    | inl z ↦ inl (rw z)
    | inr w ↦ inr (s, rw w, h)
  ]

  -- It fails only at a low-order point, and otherwise gives 32 bytes.
  agreement_cases :
      (k l : KeyPair)
      → IsKeyPair p k
      → IsKeyPair p l
      → Agreed (calculate_agreement p k.pub_key l.priv_key)
  agreement_cases k l hk hl = rw (agreement_lem k l hk hl) (
      not_low_order_cases (p.diffie_hellman l.priv_key (p.public_of k.priv_key))
        (laws.length-diffie_hellman l.priv_key (p.public_of k.priv_key)))

  -- The order of the first two agreements does not matter, since both fail with the same error.
  swap_agreements :
      (r1 r2 r3 : Result Bytes) (f g : Bytes → Bytes → Bytes → Result Bytes)
      → Agreed r1
      → Agreed r2
      → ((x y z : Bytes) → length x ≡ 32 → length y ≡ 32 → r3 ≡ ok z → f x y z ≡ g x y z)
      → (do x ← r1; y ← r2; z ← r3; f x y z) ≡ (do y ← r2; x ← r1; z ← r3; g x y z)
  swap_agreements r1 r2 r3 f g (inl e1) (inl e2) h = rw (e1, e2) refl
  swap_agreements r1 r2 r3 f g (inl e1) (inr (y, e2, h2)) h = rw (e1, e2) refl
  swap_agreements r1 r2 r3 f g (inr (x, e1, h1)) (inl e2) h = rw (e1, e2) refl
  swap_agreements r1 r2 (ok z) f g (inr (x, e1, h1)) (inr (y, e2, h2)) h =
      rw (e1, e2) (h x y z h1 h2 refl)
  swap_agreements r1 r2 (err e) f g (inr (x, e1, h1)) (inr (y, e2, h2)) h = rw (e1, e2) refl

  abbrev pub public_key : Option KeyPair → Option Bytes
  public_key none = none
  public_key (some k) = some k.pub_key

  abbrev pub AllKeyPairs : Option KeyPair → Type 0
  AllKeyPairs none = Unit {0}
  AllKeyPairs (some k) = IsKeyPair p k

  -- What each side computes from its three agreements.
  abbrev initiator_root : ℕ → KeyPair → Option Bytes → Bytes → Bytes → Bytes → Result Bytes
  initiator_root size e o x y z =
      fourth_agreement p (some e) o (three_agreements true size x y z) >>= root_from p

  abbrev responder_root : ℕ → Option KeyPair → Bytes → Bytes → Bytes → Bytes → Result Bytes
  responder_root size o e x y z =
      fourth_agreement p o (some e) (three_agreements false size y x z) >>= root_from p

  abbrev with_fourth : KeyPair → KeyPair → Bytes → Result Bytes
  with_fourth e o secret =
      (calculate_agreement p o.pub_key e.priv_key >>= λ a4. ok (set_bytes a4 128 secret))
      >>= root_from p

  three_agree :
      (e s : KeyPair) (x y z : Bytes) (n size : ℕ)
      → IsKeyPair p e
      → IsKeyPair p s
      → length x ≡ 32
      → length y ≡ 32
      → calculate_agreement p s.pub_key e.priv_key ≡ ok z
      → alloc size ≡ alloc 32 ++ (alloc 32 ++ (alloc 32 ++ (alloc 32 ++ alloc n)))
      → three_agreements true size x y z ≡ three_agreements false size y x z
  three_agree e s x y z n size he hs hx hy hz split = elim (agreement_cases s e hs he) [
    | inl low ↦ absurd (cc)
    | inr (w, ew, hw) ↦
        let same : z ≡ w = cc in
        let (l, r) = three_agreements_lem x y z n size hx hy (ap length same ∙ hw) split in
        l ∙ sym r
  ]

  -- The initiator with identity `a` and base key `e`, and the responder with identity `b`, signed prekey
  -- `s` and, if one was used, one-time prekey `o`, compute the same root key from each other's public
  -- keys, or both fail with the same error. All the pairs are as key generation makes them.
  pub agree_symmetric :
      (a e b s : KeyPair) (o : Option KeyPair)
      → IsKeyPair p a
      → IsKeyPair p e
      → IsKeyPair p b
      → IsKeyPair p s
      → AllKeyPairs o
      → agree p true a (some e) e b.pub_key (public_key o) s.pub_key
        ≡ agree p false b o s a.pub_key (some e.pub_key) e.pub_key
  unfolding agree fourth_agreement
  agree_symmetric a e b s none ha he hb hs ho =
      rw (agreement_comm e b he hb, agreement_comm a s ha hs, agreement_comm e s he hs)
        (swap_agreements _ _ (calculate_agreement p s.pub_key e.priv_key)
          (initiator_root 128 e none) (responder_root 128 none e.pub_key)
          (agreement_cases s a hs ha) (agreement_cases b e hb he)
          λ x y z hx hy hz. ap (root_from p) (three_agree e s x y z 0 128 he hs hx hy hz refl))
  agree_symmetric a e b s (some o) ha he hb hs ho =
      rw
        (
          agreement_comm e b he hb,
          agreement_comm a s ha hs,
          agreement_comm e s he hs,
          agreement_comm e o he ho,
        )
        (swap_agreements _ _ (calculate_agreement p s.pub_key e.priv_key)
          (λ x y z. with_fourth e o (three_agreements true 160 x y z))
          (λ x y z. with_fourth e o (three_agreements false 160 y x z)) (agreement_cases s a hs ha)
          (agreement_cases b e hb he)
          λ x y z hx hy hz. ap (with_fourth e o) (three_agree e s x y z 32 160 he hs hx hy hz refl))
