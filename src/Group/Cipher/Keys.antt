-- ===== src/Group/Cipher/Keys.antt =====
-- What `getSenderKey` does to the keys of a state.
use libsignal_node.Common.{
  ℕ, zero, suc, ◌+◌, ◌-◌, ◌≤◌, ◌<◌, ◌≡◌, refl, sym, ◌∙◌, arith, Bytes, ◌++◌, false, any, length,
  drop, take, ltb, ◌==◌, nat_eq, ok, length-append, length-take, length-drop,
}
use mathlib.Core.Path.{subst}
use libsignal_node.Platform.{Platform, PlatformLaws}
use libsignal_node.Crypto.{ascii, alloc, calculate_mac}
use libsignal_node.Crypto.Hkdf.{block1, block2, derive_secrets-hkdf}
use libsignal_node.Group.ChainKey.{
  SenderChainKey, SenderMessageKey, new_message_key, message_key_seed, get_sender_message_key,
  get_next,
}
use libsignal_node.Group.State.{SenderKeyState, add_sender_message_key, set_sender_chain_key}
use libsignal_node.Group.Cipher.{skip_keys, get_sender_key}
use libsignal_node.Group.Cipher.Stored.{
  AllBelow, AllDistinct, IsSound, AllBelow-mono, push_bounded_sound, any-push_bounded,
}

module _ (p : Platform) (laws : PlatformLaws p) where
  -- The message key of an iteration, from its seed.
  pub message_key : ℕ → Bytes → SenderMessageKey
  message_key iteration seed =
      let prk = calculate_mac p (alloc 32) seed in
      let first = block1 p prk (ascii "WhisperGroup") in
      record {
        iteration = iteration;
        iv = take 16 first;
        cipher_key = drop 16 first ++ take 16 (block2 p prk (ascii "WhisperGroup"));
        seed = seed;
      }

  pub new_message_key-ok :
      (iteration : ℕ) (seed : Bytes)
      → (new_message_key p iteration seed ≡ ok (message_key iteration seed))
        × (length (message_key iteration seed).iv ≡ 16)
        × (length (message_key iteration seed).cipher_key ≡ 32)
  unfolding new_message_key message_key
  new_message_key-ok iteration seed =
      let prk : Bytes = calculate_mac p (alloc 32) seed in
      let first : Bytes = block1 p prk (ascii "WhisperGroup") in
      let second : Bytes = block2 p prk (ascii "WhisperGroup") in
      let (three, _, _, size1, size2, _) =
        derive_secrets-hkdf p laws seed (alloc 32) (ascii "WhisperGroup") refl in
      (
        rw three refl,
        omega (arith, length-take 16 first),
        omega (
          arith,
          length-append (drop 16 first) (take 16 second),
          length-drop 16 first,
          length-take 16 second,
        ),
      )

  pub iteration-message_key :
      (iteration : ℕ) (seed : Bytes) → (message_key iteration seed).iteration ≡ iteration
  unfolding message_key
  iteration-message_key iteration seed = refl

  -- The chain `n` rounds on.
  pub chain_after : ℕ → SenderChainKey → SenderChainKey
  chain_after zero c = c
  chain_after (suc n) c = chain_after n (get_next p c)

  pub get_next-chain_after :
      (n : ℕ) (c : SenderChainKey) → get_next p (chain_after n c) ≡ chain_after (suc n) c
  unfolding chain_after
  get_next-chain_after zero c = refl
  get_next-chain_after (suc n) c = get_next-chain_after n (get_next p c)

  pub chain_after-zero : (c : SenderChainKey) → chain_after 0 c ≡ c
  unfolding chain_after
  chain_after-zero c = refl

  pub iteration-chain_after :
      (n : ℕ) (c : SenderChainKey) → (chain_after n c).iteration ≡ c.iteration + n
  unfolding chain_after get_next
  iteration-chain_after zero c = omega arith
  iteration-chain_after (suc n) c = omega (arith, iteration-chain_after n (get_next p c))

  -- The fields that no key operation touches.
  abbrev pub SameHolder : SenderKeyState → SenderKeyState → Type 0
  SameHolder s s' =
      (s'.sender_key_id ≡ s.sender_key_id)
      × (s'.signing_key_public ≡ s.signing_key_public)
      × (s'.signing_key_private ≡ s.signing_key_private)

  -- An iteration before the chain's that has no stored key gets none.
  abbrev StaysAbsent : ℕ → SenderKeyState → SenderKeyState → Type 0
  StaysAbsent from s s' =
      (n : ℕ)
      → n < from
      → any (λ k. k.iteration == n) s.sender_message_keys ≡ false
      → any (λ k. k.iteration == n) s'.sender_message_keys ≡ false

  skip_keys-ok :
      (n : ℕ) (c : SenderChainKey) (s : SenderKeyState)
      → AllBelow c.iteration s.sender_message_keys
      → AllDistinct s.sender_message_keys
      → (s' : SenderKeyState) × (skip_keys p n c s ≡ ok (chain_after n c, s'))
        × SameHolder s s'
        × AllBelow (c.iteration + n) s'.sender_message_keys
        × AllDistinct s'.sender_message_keys
        × StaysAbsent c.iteration s s'
  unfolding skip_keys chain_after get_sender_message_key add_sender_message_key
  skip_keys-ok zero c s b d =
      let at : c.iteration ≡ c.iteration + 0 = omega arith in
      (
        s,
        refl,
        (refl, refl, refl),
        subst (λ n. AllBelow n s.sender_message_keys) at b,
        d,
        λ n lt a. a,
      )
  skip_keys-ok (suc n) c s b d =
      let k : SenderMessageKey = message_key c.iteration (message_key_seed p c.chain_key) in
      let (below, distinct) =
        push_bounded_sound c.iteration s.sender_message_keys
          (record { iteration = k.iteration; seed = k.seed }) b d (unfold message_key in refl) in
      let (s', run, same, below', distinct', stays) =
        skip_keys-ok n (get_next p c) (add_sender_message_key k s) (unfold get_next in below)
          distinct in
      let at : (get_next p c).iteration + n ≡ c.iteration + suc n =
        unfold get_next in omega arith in
      (
        s',
        rw ((new_message_key-ok c.iteration (message_key_seed p c.chain_key)).0, skip_keys) run,
        same,
        subst (λ n. AllBelow n s'.sender_message_keys) at below',
        distinct',
        λ n lt a. stays n (unfold get_next in omega arith) (
            any-push_bounded n s.sender_message_keys
              (record { iteration = k.iteration; seed = k.seed }) a
              (unfold message_key in ground arith)),
      )

  -- An iteration that is at most 2000 ahead: its key is derived from the chain that far on.
  pub get_sender_key-ahead :
      (s : SenderKeyState) (iteration gap : ℕ)
      → IsSound s
      → iteration ≡ s.sender_chain_key.iteration + gap
      → gap ≤ 2000
      → (s' : SenderKeyState) × (get_sender_key p s iteration
          ≡ ok (
            message_key iteration
                (message_key_seed p (chain_after gap s.sender_chain_key).chain_key),
            s',
          ))
        × SameHolder s s'
        × IsSound s'
        × AllBelow iteration s'.sender_message_keys
        × StaysAbsent s.sender_chain_key.iteration s s'
        × (s'.sender_chain_key ≡ get_next p (chain_after gap s.sender_chain_key))
  unfolding get_sender_key get_sender_message_key set_sender_chain_key
  get_sender_key-ahead s iteration gap sound e near =
      let c : SenderChainKey = chain_after gap s.sender_chain_key in
      let (s1, run, same, below, distinct, stays) =
        skip_keys-ok gap s.sender_chain_key s sound.below sound.distinct in
      let here : ltb iteration s.sender_chain_key.iteration ≡ false = ground arith in
      let rounds : iteration - s.sender_chain_key.iteration ≡ gap = omega arith in
      let close : ltb 2000 gap ≡ false = ground arith in
      let at : c.iteration ≡ iteration = iteration-chain_after gap s.sender_chain_key ∙ sym e in
      let next : s.sender_chain_key.iteration + gap + 1 ≡ (get_next p c).iteration =
        unfold get_next in omega (arith, at) in
      (
        set_sender_chain_key (get_next p c) s1,
        rw
            (
              here,
              rounds,
              close,
              run,
              (new_message_key-ok c.iteration (message_key_seed p c.chain_key)).0,
              at,
            )
            refl,
        same,
        record {
          below =
              subst (λ n. AllBelow n s1.sender_message_keys) next
                (AllBelow-mono _ s1.sender_message_keys below);
          distinct = distinct;
        },
        subst (λ n. AllBelow n s1.sender_message_keys) (sym e) below,
        stays,
        refl,
      )
