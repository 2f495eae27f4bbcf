-- ===== src/Session/Ratchet/Stepping.antt =====
-- What each part of a ratchet step does, where the agreement succeeds and the previous chain has been
-- read to its end.
use libsignal_node.Common.{
  ◌≡◌, ◌≢◌, ◌⊎◌, inl, inr, refl, sym, ap, ◌∙◌, arith, Bytes, [], ◌∷◌, ◌++◌, none, some, Bool, false,
  String, Dict, lookup, lookup-put, lookup-delete, put, lookup-append_last, delete, delete-append,
  length, ◌==◌, string_eq, ℤ, ◌≤ℤ◌, if◌then◌else◌, ok, Option-cases, Bool-cases,
}
use libsignal_node.Platform.{Platform, PlatformLaws}
use libsignal_node.Crypto.{ascii, calculate_mac}
use libsignal_node.Crypto.Hkdf.{block1, block2, derive_secrets-hkdf}
use libsignal_node.Curve.{calculate_agreement}
use libsignal_node.Session.Entry.{Chain, ChainType, SessionEntry, get_chain, update_chain}
use libsignal_node.Session.Entry.Chains.{
  get_chain-update_chain_other, add_chain-absent, delete_chain-present,
}
use libsignal_node.Session.Chain.Fill.{fill_message_keys-idle}
use libsignal_node.Session.Ratchet.{new_chain, calculate_ratchet, close_previous, retire_sending}
use libsignal_node.Session.Handshake.{calculate_sending_ratchet}

module _ (p : Platform) where
  -- The root key and the chain key that a step derives from the root key before it and an agreement.
  pub next_root : Bytes → Bytes → Bytes
  next_root root secret = block1 p (calculate_mac p root secret) (ascii "WhisperRatchet")

  pub next_chain : Bytes → Bytes → Bytes
  next_chain root secret = block2 p (calculate_mac p root secret) (ascii "WhisperRatchet")

  -- The session after `calculateRatchet` has made a chain under the key `id`.
  abbrev pub ratcheted : Bytes → ChainType → Bytes → SessionEntry → SessionEntry
  ratcheted id type secret s = record s {
    current_ratchet = record s.current_ratchet {
      root_key = next_root s.current_ratchet.root_key secret;
    };
    chains =
        s.chains
        ++ (p.to_base64 id, new_chain (next_chain s.current_ratchet.root_key secret) type) ∷ [];
  }

  pub lookup-eq-none :
      (key : Bytes) (s : SessionEntry) → get_chain p key s ≡ lookup (p.to_base64 key) s.chains
  unfolding get_chain
  lookup-eq-none key s = refl

module _ (p : Platform) (laws : PlatformLaws p) where
  pub length-next_root :
      (root secret : Bytes) → length root ≡ 32 → length (next_root p root secret) ≡ 32
  unfolding next_root
  length-next_root root secret h =
      (derive_secrets-hkdf p laws secret root (ascii "WhisperRatchet") h).3

  pub calculate_ratchet-ok :
      (remote secret : Bytes) (sending : Bool) (s : SessionEntry)
      → length s.current_ratchet.root_key ≡ 32
      → calculate_agreement p remote s.current_ratchet.ephemeral_key_pair.priv_key ≡ ok secret
      → get_chain p (if sending then s.current_ratchet.ephemeral_key_pair.pub_key else remote) s
        ≡ none
      → calculate_ratchet p remote sending s
        ≡ ok (
            ratcheted p
              (if sending then s.current_ratchet.ephemeral_key_pair.pub_key else remote)
              (if sending then ChainType.sending else ChainType.receiving)
              secret
              s)
  unfolding calculate_ratchet next_root next_chain
  calculate_ratchet-ok remote secret sending s size agreed new =
      let two =
        (derive_secrets-hkdf p laws secret s.current_ratchet.root_key (ascii "WhisperRatchet")
          size).1 in
      rw (agreed, two, add_chain-absent p _ _ s new) refl

  pub calculate_sending_ratchet-ok :
      (remote secret : Bytes) (s : SessionEntry)
      → length s.current_ratchet.root_key ≡ 32
      → calculate_agreement p remote s.current_ratchet.ephemeral_key_pair.priv_key ≡ ok secret
      → get_chain p s.current_ratchet.ephemeral_key_pair.pub_key s ≡ none
      → calculate_sending_ratchet p remote s
        ≡ ok (ratcheted p s.current_ratchet.ephemeral_key_pair.pub_key ChainType.sending secret s)
  unfolding calculate_sending_ratchet next_root next_chain
  calculate_sending_ratchet-ok remote secret s size agreed new =
      let three =
        (derive_secrets-hkdf p laws secret s.current_ratchet.root_key (ascii "WhisperRatchet")
          size).0 in
      rw (agreed, three, add_chain-absent p _ _ s new) refl

  -- Distinct keys have distinct ids.
  pub ids_differ : (k j : Bytes) → k ≢ j → (p.to_base64 k == p.to_base64 j) ≡ false
  ids_differ k j apart = elim (Bool-cases (p.to_base64 k == p.to_base64 j)) [
    | inl same ↦
        let e : p.to_base64 k ≡ p.to_base64 j =
          (string_eq.same_iff (p.to_base64 k) (p.to_base64 j)).0 same in
        absurd (
          apart (
            sym (laws.from_base64-to_base64 k) ∙ ap p.from_base64 e ∙ laws.from_base64-to_base64 j))
    | inr differ ↦ differ
  ]

  pub get_chain-update_chain_ne :
      (key other : Bytes) (c : Chain) (s : SessionEntry)
      → key ≢ other
      → get_chain p other (update_chain p key c s) ≡ get_chain p other s
  get_chain-update_chain_ne key other c s apart =
      get_chain-update_chain_other p key other c s ∙ rw (ids_differ key other apart) refl

  -- The chain of the remote key before this one is not there, or has been read to its end.
  abbrev pub IsFinished : Bytes → ℤ → SessionEntry → Type 0
  IsFinished key n s =
      (get_chain p key s ≡ none)
      ⊎ ((c : Chain) × (get_chain p key s ≡ some c) × (n ≤ℤ c.chain_key.counter))

  pub close_previous-ok :
      (n : ℤ) (s : SessionEntry)
      → IsFinished s.current_ratchet.last_remote_ephemeral_key n s
      → (d : Dict String Chain) × (close_previous p n s ≡ ok (record s { chains = d }))
        × ((key : Bytes)
            → key ≢ s.current_ratchet.last_remote_ephemeral_key
            → lookup (p.to_base64 key) d ≡ get_chain p key s)
        × ((key : Bytes) → get_chain p key s ≡ none → lookup (p.to_base64 key) d ≡ none)
  unfolding update_chain close_previous
  close_previous-ok n s (inl absent) = (
    s.chains,
    rw (absent, close_previous) refl,
    λ key _. unfold get_chain in refl,
    λ key h. unfold get_chain in h,
  )
  close_previous-ok n s (inr (c, found, read)) =
      let last : String = p.to_base64 s.current_ratchet.last_remote_ephemeral_key in
      (
        put last (record c { chain_key = record c.chain_key { key = none } }) s.chains,
        rw (found, close_previous, fill_message_keys-idle p n c read) refl,
        λ key apart.
            unfold get_chain in
            rw (lookup-put last (p.to_base64 key) _ s.chains)
              (rw (ids_differ _ key (λ e. apart (sym e))) refl),
        λ key absent. rw (lookup-put last (p.to_base64 key) _ s.chains) (
            rw (ids_differ s.current_ratchet.last_remote_ephemeral_key key (λ e. cc))
              (unfold get_chain in absent)),
      )

  -- The own chain is deleted, if there is one, and its counter kept.
  pub retire_sending-ok :
      (s : SessionEntry) (d : Dict String Chain) (key : Bytes) (c : Chain)
      → s.chains ≡ d ++ (p.to_base64 key, c) ∷ []
      → lookup (p.to_base64 key) d ≡ none
      → key ≢ s.current_ratchet.ephemeral_key_pair.pub_key
      → (b : Dict String Chain) × (m : ℤ) × (retire_sending p s
          ≡ ok (record s {
            current_ratchet = record s.current_ratchet { previous_counter = m };
            chains = b ++ (p.to_base64 key, c) ∷ [];
          }))
        × ((k : String) → lookup k d ≡ none → lookup k b ≡ none)
        × ((a : Chain)
            → lookup (p.to_base64 s.current_ratchet.ephemeral_key_pair.pub_key) d ≡ some a
            → m ≡ a.chain_key.counter)
  unfolding get_chain retire_sending delete
  retire_sending-ok s d key c chains new apart =
      let ours : String = p.to_base64 s.current_ratchet.ephemeral_key_pair.pub_key in
      let other : (p.to_base64 key == ours) ≡ false = ids_differ key _ apart in
      let here : lookup ours s.chains ≡ lookup ours d =
        rw (chains, lookup-append_last (p.to_base64 key) ours c d new, other) refl in
      elim (Option-cases (lookup ours d)) [
        | inl absent ↦ (
          d,
          s.current_ratchet.previous_counter,
          rw (here ∙ absent, retire_sending, chains) refl,
          λ k h. h,
          λ a e. absurd (cc),
        )
        | inr (a, found) ↦ (
          delete ours d,
          a.chain_key.counter,
          rw
              (
                here ∙ found,
                retire_sending,
                delete_chain-present p s.current_ratchet.ephemeral_key_pair.pub_key a
                    (record s {
                      current_ratchet = record s.current_ratchet {
                        previous_counter = a.chain_key.counter;
                      };
                    })
                    (here ∙ found),
                chains,
                delete-append,
                other,
              )
              refl,
          λ k h. ground (arith, lookup-delete ours k d),
          λ a' e. cc,
        )
      ]
