-- ===== src/Session/Chain/Keys.antt =====
-- Which message keys `fillMessageKeys` derives, and that pruning keeps the newest.
use libsignal_node.Common.{
  ℕ, zero, suc, ◌≤◌, ◌<◌, ◌≡◌, refl, sym, ap, ◌∙◌, arith, Bytes, [], ◌∷◌, ◌++◌, map, some, false,
  length, take, lookup, delete, lookup-delete, Dict, ℤ, pos, minus_one, ◌+ℤ◌, ◌≤ℤ◌, pos_part,
  +ℤ-zero, +ℤ-suc, +ℤ-one, gap_add, ◌==◌, nat_eq, int_eq, ok, length-append,
}
use libsignal_node.Platform.{Platform}
use libsignal_node.Crypto.{calculate_mac}
use libsignal_node.Session.Entry.{Chain, put_message_key}
use libsignal_node.Session.Chain.{
  fill_step, fill_loop, fill_message_keys, prune_message_keys, delete_indexes,
}

-- Every stored index is below `n`.
abbrev pub AllBelow : ℕ → Dict ℕ Bytes → Type 0
AllBelow n [] = Unit {0}
AllBelow n ((i, k) ∷ keys) = (i < n) × AllBelow n keys

AllBelow-mono : (m n : ℕ) (keys : Dict ℕ Bytes) → m ≤ n → AllBelow m keys → AllBelow n keys
AllBelow-mono m n [] h b = tt
AllBelow-mono m n ((i, k) ∷ keys) h b = (omega arith, AllBelow-mono m n keys h b.1)

-- The index of the key that the next round derives.
abbrev pub next_index : Chain → ℕ
next_index c = pos_part (c.chain_key.counter +ℤ pos 1)

-- A chain as the code keeps it: the counter is -1 or more, and no stored index is ahead of it.
pub record IsChain (c : Chain) : Type 0 where
  pub started : minus_one ≤ℤ c.chain_key.counter
  pub below : AllBelow (next_index c) c.message_keys

put_message_key_last :
    (n : ℕ) (k : Bytes) (keys : Dict ℕ Bytes)
    → AllBelow n keys
    → put_message_key n k keys ≡ keys ++ (n, k) ∷ []
unfolding put_message_key
put_message_key_last n k [] b = refl
put_message_key_last n k ((i, l) ∷ keys) b = ground (arith, put_message_key_last n k keys b.1)

AllBelow-last :
    (n : ℕ) (k : Bytes) (keys : Dict ℕ Bytes)
    → AllBelow n keys
    → AllBelow (suc n) (keys ++ (n, k) ∷ [])
AllBelow-last n k [] b = omega arith
AllBelow-last n k ((i, l) ∷ keys) b = (omega arith, AllBelow-last n k keys b.1)

lookup-last :
    (n : ℕ) (k : Bytes) (keys : Dict ℕ Bytes)
    → AllBelow n keys
    → lookup n (keys ++ (n, k) ∷ []) ≡ some k
unfolding lookup
lookup-last n k [] b = ground arith
lookup-last n k ((i, l) ∷ keys) b = ground (arith, lookup-last n k keys b.1)

-- Deleting the oldest entries, however many, as long as one stays, keeps the last.
lookup-delete_indexes :
    (n e : ℕ) (k : Bytes) (keys : Dict ℕ Bytes) (d : Dict ℕ Bytes)
    → AllBelow n keys
    → e ≤ length keys
    → lookup n d ≡ some k
    → lookup n (delete_indexes (take e (map (λ x. x.0) (keys ++ (n, k) ∷ []))) d) ≡ some k
unfolding delete_indexes
lookup-delete_indexes n zero k keys d b h q = q
lookup-delete_indexes n (suc e) k [] d b h q = absurd (omega arith)
lookup-delete_indexes n (suc e) k ((i, l) ∷ keys) d b h q =
    lookup-delete_indexes n e k keys (delete i d) b.1 (omega arith)
      (ground (arith, lookup-delete i n d))

module _ (p : Platform) where
  -- The chain key after `n` rounds, and the message key of round `n`.
  pub chain_key_after : ℕ → Bytes → Bytes
  chain_key_after zero k = k
  chain_key_after (suc n) k = chain_key_after n (calculate_mac p k (2 ∷ []))

  pub chain_key_after-zero : (k : Bytes) → chain_key_after 0 k ≡ k
  unfolding chain_key_after
  chain_key_after-zero k = refl

  pub message_key_at : ℕ → Bytes → Bytes
  message_key_at n k = calculate_mac p (chain_key_after n k) (1 ∷ [])

  fill_loop-suc :
      (gap : ℕ) (k : Bytes) (c : Chain)
      → c.chain_key.key ≡ some k
      → suc gap ≤ 2000
      → fill_loop p (suc gap) c ≡ fill_loop p gap (fill_step p k c)
  unfolding fill_loop
  fill_loop-suc gap k c e h = ground arith

  next_index-fill_step :
      (k : Bytes) (c : Chain)
      → minus_one ≤ℤ c.chain_key.counter
      → (next_index (fill_step p k c) ≡ suc (next_index c))
        × (minus_one ≤ℤ (fill_step p k c).chain_key.counter)
  unfolding fill_step ◌+ℤ◌
  next_index-fill_step k c h = (ground arith, ground arith)

  keys-fill_step :
      (k : Bytes) (c : Chain)
      → AllBelow (next_index c) c.message_keys
      → (fill_step p k c).message_keys
        ≡ c.message_keys ++ (next_index c, calculate_mac p k (1 ∷ [])) ∷ []
  unfolding fill_step
  keys-fill_step k c b = put_message_key_last _ _ c.message_keys b

  fill_step-IsChain : (k : Bytes) (c : Chain) → IsChain c → IsChain (fill_step p k c)
  fill_step-IsChain k c w =
      let (index, started) = next_index-fill_step k c w.started in
      record {
        started = started;
        below = rw (index, keys-fill_step k c w.below) (AllBelow-last _ _ c.message_keys w.below);
      }

  key-fill_step :
      (k : Bytes) (c : Chain) → (fill_step p k c).chain_key.key ≡ some (calculate_mac p k (2 ∷ []))
  unfolding fill_step
  key-fill_step k c = refl

  counter-fill_step :
      (k : Bytes) (c : Chain) → (fill_step p k c).chain_key.counter ≡ c.chain_key.counter +ℤ pos 1
  unfolding fill_step
  counter-fill_step k c = refl

  type-fill_step : (k : Bytes) (c : Chain) → (fill_step p k c).chain_type ≡ c.chain_type
  unfolding fill_step
  type-fill_step k c = refl

  -- The last round stands out: the chain before it, whose next key is the one asked for.
  fill_loop_last :
      (gap : ℕ) (k : Bytes) (c : Chain)
      → c.chain_key.key ≡ some k
      → gap < 2000
      → IsChain c
      → (b : Chain) × (fill_loop p (suc gap) c ≡ ok (fill_step p (chain_key_after gap k) b))
        × (b.chain_key.counter ≡ c.chain_key.counter +ℤ pos gap)
        × (b.chain_type ≡ c.chain_type)
        × IsChain b
  unfolding chain_key_after
  fill_loop_last zero k c e h w = (
    c,
    fill_loop-suc 0 k c e h ∙ (unfold fill_loop in refl),
    sym (+ℤ-zero c.chain_key.counter),
    refl,
    w,
  )
  fill_loop_last (suc gap) k c e h w =
      let (b, run, counter, type, valid) =
        fill_loop_last gap (calculate_mac p k (2 ∷ [])) (fill_step p k c) (key-fill_step k c)
          (omega arith) (fill_step-IsChain k c w) in
      (
        b,
        fill_loop-suc (suc gap) k c e h ∙ run,
        counter ∙ ap (λ x. x +ℤ pos gap) (counter-fill_step k c) ∙ +ℤ-suc c.chain_key.counter gap,
        type ∙ type-fill_step k c,
        valid,
      )

  -- Pruning after a round keeps the key that the round derived.
  lookup-prune_message_keys :
      (k : Bytes) (b : Chain)
      → IsChain b
      → lookup (next_index b) (prune_message_keys (fill_step p k b)).message_keys
        ≡ some (calculate_mac p k (1 ∷ []))
  unfolding prune_message_keys
  lookup-prune_message_keys k b w = rw (keys-fill_step k b w.below) (
      lookup-delete_indexes (next_index b) _ _ b.message_keys _ w.below
        (omega (
          arith,
          length-map' (b.message_keys ++ (next_index b, calculate_mac p k (1 ∷ [])) ∷ []),
          length-append b.message_keys ((next_index b, calculate_mac p k (1 ∷ [])) ∷ []),
        ))
        (lookup-last _ _ b.message_keys w.below))
    where
      length-map' : (l : Dict ℕ Bytes) → length (map (λ x. x.0) l) ≡ length l
      length-map' [] = refl
      length-map' (x ∷ l) = ap suc (length-map' l)

  chain_key_after-suc :
      (n : ℕ) (k : Bytes)
      → calculate_mac p (chain_key_after n k) (2 ∷ []) ≡ chain_key_after (suc n) k
  unfolding chain_key_after
  chain_key_after-suc zero k = refl
  chain_key_after-suc (suc n) k = chain_key_after-suc n (calculate_mac p k (2 ∷ []))

  not_same : (a : ℤ) (n : ℕ) → (a +ℤ pos (suc n) == a) ≡ false
  unfolding ◌+ℤ◌
  not_same a n = ground arith

  fill_message_keys-moved :
      (gap : ℕ) (c g : Chain)
      → fill_loop p (suc gap) c ≡ ok g
      → g.chain_key.counter ≡ c.chain_key.counter +ℤ pos (suc gap)
      → fill_message_keys p (c.chain_key.counter +ℤ pos (suc gap)) c ≡ ok (prune_message_keys g)
  unfolding fill_message_keys
  fill_message_keys-moved gap c g run at =
      let moved : (g.chain_key.counter == c.chain_key.counter) ≡ false =
        rw at (not_same c.chain_key.counter gap) in
      rw (gap_add c.chain_key.counter (suc gap), fill_message_keys, run, moved)

  -- When the target is `gap + 1` ahead of a well-formed chain that is not closed, with at most 2000
  -- to go, the call succeeds: it leaves the chain at the target, with the chain key that many steps
  -- on and its type unchanged, and stores under the target's index the message key that is derived
  -- from the chain key `gap` steps on. This holds also where pruning removes older keys.
  pub fill_message_keys-ahead :
      (gap : ℕ) (k : Bytes) (c : Chain)
      → c.chain_key.key ≡ some k
      → gap < 2000
      → IsChain c
      → (f : Chain) × (fill_message_keys p (c.chain_key.counter +ℤ pos (suc gap)) c ≡ ok f)
        × (f.chain_key.counter ≡ c.chain_key.counter +ℤ pos (suc gap))
        × (f.chain_key.key ≡ some (chain_key_after (suc gap) k))
        × (f.chain_type ≡ c.chain_type)
        × (lookup (pos_part f.chain_key.counter) f.message_keys ≡ some (message_key_at gap k))
  unfolding prune_message_keys fill_step message_key_at
  fill_message_keys-ahead gap k c e h w =
      let (b, run, counter, type, valid) = fill_loop_last gap k c e h w in
      let g : Chain = fill_step p (chain_key_after gap k) b in
      let at : g.chain_key.counter ≡ c.chain_key.counter +ℤ pos (suc gap) =
        ap (λ x. x +ℤ pos 1) counter ∙ +ℤ-one c.chain_key.counter gap in
      (
        prune_message_keys g,
        fill_message_keys-moved gap c g run at,
        at,
        ap some (chain_key_after-suc gap k),
        type,
        lookup-prune_message_keys (chain_key_after gap k) b valid,
      )

  pub message_key_at-chain_key_after :
      (n : ℕ) (k : Bytes) → message_key_at 0 (chain_key_after n k) ≡ message_key_at n k
  unfolding message_key_at chain_key_after
  message_key_at-chain_key_after n k = refl
