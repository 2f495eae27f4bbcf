-- ===== src/Session/Chain/Fill.antt =====
-- What `fillMessageKeys` does to the counter, the type and the chain key.
use libsignal_node.Common.{
  ℕ, zero, suc, ◌≤◌, ◌≡◌, refl, ap, ◌∙◌, arith, Bytes, some, ltb, ℤ, pos, ◌+ℤ◌, ◌-ℤ◌, ◌≤ℤ◌,
  pos_part, +ℤ-zero, +ℤ-suc, gap_none, gap_reaches, ◌==◌, int_eq, int_beq_iff, Result, ok, err,
  Bool-cases, Option-cases, inl, inr,
}
use libsignal_node.Platform.{Platform}
use libsignal_node.Session.Entry.{Chain}
use libsignal_node.Session.Chain.{fill_step, fill_loop, fill_message_keys, prune_message_keys}

module _ (p : Platform) where
  -- A round that does not throw: the gap is in range, the chain is not closed, and the loop goes on.
  fill_loop-suc :
      (gap : ℕ) (c f : Chain)
      → fill_loop p (suc gap) c ≡ ok f
      → (k : Bytes) × (c.chain_key.key ≡ some k)
        × (suc gap ≤ 2000)
        × (fill_loop p gap (fill_step p k c) ≡ ok f)
  unfolding fill_loop
  fill_loop-suc gap c f h = elim (Bool-cases (ltb 2000 (suc gap))) [
    | inl far ↦ cc (rw (far, fill_loop) at h)
    | inr near ↦ elim (Option-cases c.chain_key.key) [
      | inl closed ↦ cc (rw (near, closed, fill_loop) at h)
      | inr (k, e) ↦ (k, e, ground arith, rw (near, e, fill_loop) at h)
    ]
  ]

  counter-fill_step :
      (k : Bytes) (c : Chain) → (fill_step p k c).chain_key.counter ≡ c.chain_key.counter +ℤ pos 1
  unfolding fill_step
  counter-fill_step k c = refl

  type-fill_step : (k : Bytes) (c : Chain) → (fill_step p k c).chain_type ≡ c.chain_type
  unfolding fill_step
  type-fill_step k c = refl

  fill_loop_result :
      (gap : ℕ) (c f : Chain)
      → fill_loop p gap c ≡ ok f
      → (f.chain_key.counter ≡ c.chain_key.counter +ℤ pos gap) × (f.chain_type ≡ c.chain_type)
  unfolding fill_loop
  fill_loop_result zero c f h = ground (arith, +ℤ-zero c.chain_key.counter)
  fill_loop_result (suc gap) c f h =
      let (k, _, _, rest) = fill_loop-suc gap c f h in
      let (n, t) = fill_loop_result gap (fill_step p k c) f rest in
      (
        n ∙ ap (λ x. x +ℤ pos gap) (counter-fill_step k c) ∙ +ℤ-suc c.chain_key.counter gap,
        t ∙ type-fill_step k c,
      )

  -- `fillMessageKeys` either leaves the loop's result or prunes its message keys.
  fill_message_keys-ok :
      (n : ℤ) (c f : Chain)
      → fill_message_keys p n c ≡ ok f
      → (g : Chain) × (fill_loop p (pos_part (n -ℤ c.chain_key.counter)) c ≡ ok g)
        × (f.chain_key ≡ g.chain_key)
        × (f.chain_type ≡ g.chain_type)
  unfolding fill_message_keys prune_message_keys
  fill_message_keys-ok n c f h =
      fill_cases (fill_loop p (pos_part (n -ℤ c.chain_key.counter)) c) refl
    where
      fill_cases :
          (r : Result Chain)
          → fill_loop p (pos_part (n -ℤ c.chain_key.counter)) c ≡ r
          → (g : Chain) × (fill_loop p (pos_part (n -ℤ c.chain_key.counter)) c ≡ ok g)
            × (f.chain_key ≡ g.chain_key)
            × (f.chain_type ≡ g.chain_type)
      fill_cases (err e) q = cc (rw (q, fill_message_keys) at h)
      fill_cases (ok g) q = elim (Bool-cases (g.chain_key.counter == c.chain_key.counter)) [
        | inl same ↦ let r : ok g ≡ ok f = rw (q, fill_message_keys, same) at h in (g, q, cc, cc)
        | inr moved ↦
            let r : ok (prune_message_keys g) ≡ ok f = rw (q, fill_message_keys, moved) at h in
            (g, q, cc, cc)
      ]

  -- When it returns, the counter has reached its target, and the type is the same.
  pub fill_message_keys-reaches :
      (n : ℤ) (c f : Chain)
      → fill_message_keys p n c ≡ ok f
      → (n ≤ℤ f.chain_key.counter) × (f.chain_type ≡ c.chain_type)
  fill_message_keys-reaches n c f h =
      let (g, q, key, type) = fill_message_keys-ok n c f h in
      let (r, t) = fill_loop_result (pos_part (n -ℤ c.chain_key.counter)) c g q in
      let at : f.chain_key.counter
          ≡ c.chain_key.counter +ℤ pos (pos_part (n -ℤ c.chain_key.counter)) =
        ap (λ k. k.counter) key ∙ r in
      (rw at (gap_reaches c.chain_key.counter n), type ∙ t)

  -- A target that is not ahead changes nothing.
  pub fill_message_keys-idle :
      (n : ℤ) (c : Chain) → n ≤ℤ c.chain_key.counter → fill_message_keys p n c ≡ ok c
  unfolding fill_message_keys fill_loop
  fill_message_keys-idle n c h = rw (
    gap_none c.chain_key.counter n h,
    fill_message_keys,
    (int_beq_iff c.chain_key.counter c.chain_key.counter).1 refl,
  )
