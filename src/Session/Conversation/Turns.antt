-- ===== src/Session/Conversation/Turns.antt =====
-- Two sessions that write to each other in turn: the double ratchet of src/session-cipher.ts.
use libsignal_node.Common.{
  ◌≡◌, ◌≢◌, ◌⊎◌, inl, inr, refl, sym, ap, ◌∙◌, arith, Bytes, none, some, length, ◌<◌, ◌^◌,
  string_eq, ℤ, pos, minus_one, ◌+ℤ◌, +ℤ-zero, ◌≤ℤ◌, pos_part, ok,
}
use mathlib.Core.Path.{subst}
use libsignal_node.Platform.{Platform, PlatformLaws, KeyPair}
use libsignal_node.Curve.{calculate_agreement}
use libsignal_node.Session.Entry.{Chain, ChainType, SessionEntry, get_chain, update_chain}
use libsignal_node.Session.Entry.Chains.{get_chain-update_chain}
use libsignal_node.Session.Chain.Keys.{chain_key_after-zero}
use libsignal_node.Session.Handshake.Agreement.{IsKeyPair, agreement_comm}
use libsignal_node.Session.Message.{encrypt_message, do_decrypt_whisper_message, to_uint32}
use libsignal_node.Session.Message.RoundTrip.{InSync, delivery, after_sending, after_reading}
use libsignal_node.Session.Ratchet.{new_chain}
use libsignal_node.Session.Ratchet.Stepping.{
  next_root, next_chain, length-next_root, IsFinished, get_chain-update_chain_ne,
}
use libsignal_node.Session.Ratchet.Turning.{Stepped, maybe_step_ratchet-Stepped}

abbrev pub key_of : SessionEntry → Bytes
key_of s = s.current_ratchet.ephemeral_key_pair.pub_key

-- It is the writer's turn: it has stepped its ratchet on the reader's current key, and the reader has not
-- yet seen the writer's. What both have read before is read to its end.
pub record Turn (p : Platform) (laws : PlatformLaws p) (ours theirs : Bytes)
    (writer reader : SessionEntry) : Type 0 where
  pub secret : Bytes
  pub writer_pair : IsKeyPair p writer.current_ratchet.ephemeral_key_pair
  pub agreed :
      calculate_agreement p (key_of writer) reader.current_ratchet.ephemeral_key_pair.priv_key
      ≡ ok secret
  pub root_size : length reader.current_ratchet.root_key ≡ 32
  pub root : writer.current_ratchet.root_key ≡ next_root p reader.current_ratchet.root_key secret
  pub sends :
      get_chain p (key_of writer) writer
      ≡ some (new_chain (next_chain p reader.current_ratchet.root_key secret) ChainType.sending)
  pub unseen : get_chain p (key_of writer) reader ≡ none
  pub last : writer.current_ratchet.last_remote_ephemeral_key ≡ key_of reader
  pub apart : key_of writer ≢ key_of reader
  pub apart' : key_of reader ≢ reader.current_ratchet.last_remote_ephemeral_key
  pub finished :
      IsFinished p laws reader.current_ratchet.last_remote_ephemeral_key
        (pos (to_uint32 writer.current_ratchet.previous_counter))
        reader
  pub matched :
      (get_chain p (key_of reader) writer ≡ none)
      ⊎ ((a : Chain) × (b : Chain) × (get_chain p (key_of reader) reader ≡ some a)
          × (get_chain p (key_of reader) writer ≡ some b)
          × (pos (to_uint32 a.chain_key.counter) ≤ℤ b.chain_key.counter))
  pub remote : writer.index_info.remote_identity_key ≡ theirs
  pub remote' : reader.index_info.remote_identity_key ≡ ours

-- Neither session has a chain for a key that has not been used.
abbrev pub IsUnused : Platform → SessionEntry → SessionEntry → Bytes → Type 0
IsUnused p s r key = (get_chain p key s ≡ none) × (get_chain p key r ≡ none)

module _ (p : Platform) (laws : PlatformLaws p) (ours theirs text : Bytes) (fresh : KeyPair)
    (secret' : Bytes) (s r : SessionEntry) where
  first_number : (c : ℤ) → c ≡ minus_one → pos_part (c +ℤ pos 1) ≡ 0
  unfolding ◌+ℤ◌
  first_number c e = rw e refl

  -- The first counter, as the message carries it.
  first_counter : (a b : ℤ) → a ≡ pos 0 → b ≡ pos 0 → pos (to_uint32 a) ≤ℤ b
  unfolding to_uint32
  first_counter a b ha hb = rw (ha, hb) (omega arith)

  -- After the step the two ends of the writer's chain are in sync.
  Stepped-InSync :
      (t : Turn p laws ours theirs s r) (r1 : SessionEntry)
      → Stepped p fresh (key_of s) t.secret secret' r r1
      → (sync : InSync p ours theirs 0 s r1) × (sync.sending.chain_key.counter ≡ minus_one)
  Stepped-InSync t r1 st = (
    record {
      sending = new_chain (next_chain p r.current_ratchet.root_key t.secret) ChainType.sending;
      receiving = new_chain (next_chain p r.current_ratchet.root_key t.secret) ChainType.receiving;
      chain_key = next_chain p r.current_ratchet.root_key t.secret;
      ephemeral_size =
          rw t.writer_pair.public
            (omega (arith, laws.length-public_of s.current_ratchet.ephemeral_key_pair.priv_key));
      sends = t.sends;
      sends_type = refl;
      receives = st.receives;
      receives_type = refl;
      sending_chain = record { started = omega arith; below = tt };
      receiving_chain = record { started = omega arith; below = tt };
      receiving_key = refl;
      sending_key =
          ap some (sym (chain_key_after-zero p (next_chain p r.current_ratchet.root_key t.secret)));
      counters = sym (+ℤ-zero minus_one);
      remote = t.remote;
      remote' = ap (λ i. i.remote_identity_key) st.identity ∙ t.remote';
    },
    refl,
  )

  -- Once both have worked on the message of the chain, the roles are exchanged.
  Turn-next :
      (t : Turn p laws ours theirs s r) (r1 : SessionEntry) (fs fr : Chain)
      → Stepped p fresh (key_of s) t.secret secret' r r1
      → IsKeyPair p fresh
      → calculate_agreement p (key_of s) fresh.priv_key ≡ ok secret'
      → get_chain p fresh.pub_key s ≡ none
      → fs.chain_key.counter ≡ pos 0
      → fr.chain_key.counter ≡ pos 0
      → Turn p laws theirs ours (after_reading p 0 (key_of s) fr r1) (after_sending p fs s)
  unfolding get_chain update_chain
  Turn-next t r1 fs fr st pair agreed' new_s at_s at_r =
      let key : key_of r1 ≡ fresh.pub_key = ap (λ k. k.pub_key) st.pair in
      let differ : key_of s ≢ fresh.pub_key = λ e. cc in
      let r' : SessionEntry = after_reading p 0 (key_of s) fr r1 in
      let s' : SessionEntry = after_sending p fs s in
      let other : get_chain p fresh.pub_key r' ≡ get_chain p fresh.pub_key r1 =
        get_chain-update_chain_ne p laws (key_of s) fresh.pub_key _ r1 differ in
      let other' : get_chain p fresh.pub_key s' ≡ get_chain p fresh.pub_key s =
        get_chain-update_chain_ne p laws (key_of s) fresh.pub_key _ s differ in
      let old : get_chain p (key_of r) s' ≡ get_chain p (key_of r) s =
        get_chain-update_chain_ne p laws (key_of s) (key_of r) _ s t.apart in
      let last : get_chain p s.current_ratchet.last_remote_ephemeral_key s'
          ≡ get_chain p (key_of r) s =
        ap (λ k. get_chain p k s') t.last ∙ old in
      record {
        secret = secret';
        writer_pair = subst (IsKeyPair p) (sym st.pair) pair;
        agreed =
            ap (λ k. calculate_agreement p k s.current_ratchet.ephemeral_key_pair.priv_key) key
            ∙ agreement_comm p laws fresh s.current_ratchet.ephemeral_key_pair pair t.writer_pair
            ∙ agreed';
        root_size =
            ap length t.root
            ∙ length-next_root p laws r.current_ratchet.root_key t.secret t.root_size;
        root = st.root ∙ ap (λ k. next_root p k secret') (sym t.root);
        sends =
            ap (λ k. get_chain p k r') key
            ∙ other
            ∙ st.sends
            ∙ ap (λ k. some (new_chain (next_chain p k secret') ChainType.sending)) (sym t.root);
        unseen = ap (λ k. get_chain p k s') key ∙ other' ∙ new_s;
        last = st.last;
        apart = λ e. differ (sym (sym key ∙ e));
        apart' = λ e. t.apart (e ∙ t.last);
        finished = elim t.matched [
          | inl absent ↦ inl (last ∙ absent)
          | inr (a, b, here, there, le) ↦ inr (
            b,
            last ∙ there,
            subst (λ n. pos (to_uint32 n) ≤ℤ b.chain_key.counter) (sym (st.previous a here)) le,
          )
        ];
        matched = inr (
          _,
          _,
          get_chain-update_chain p (key_of s) _ s,
          get_chain-update_chain p (key_of s) _ r1,
          first_counter _ _ at_s at_r,
        );
        remote = ap (λ i. i.remote_identity_key) st.identity ∙ t.remote';
        remote' = t.remote;
      }

  -- What else the turn leaves: the reader has the new pair, and other keys stay unused.
  after-Turn :
      (t : Turn p laws ours theirs s r) (r1 : SessionEntry) (fs fr : Chain)
      → Stepped p fresh (key_of s) t.secret secret' r r1
      → let r' : SessionEntry = after_reading p 0 (key_of s) fr r1 in
        (r'.current_ratchet.ephemeral_key_pair ≡ fresh)
        × ((key : Bytes)
            → fresh.pub_key ≢ key
            → IsUnused p s r key
            → IsUnused p r' (after_sending p fs s) key)
  unfolding get_chain update_chain
  after-Turn t r1 fs fr st = (
    st.pair,
    λ key ne unused.
        let apart : key_of s ≢ key = λ e. used_differ key unused t.sends e in
        (
          get_chain-update_chain_ne p laws (key_of s) key _ r1 apart
              ∙ st.others key apart ne unused.1,
          get_chain-update_chain_ne p laws (key_of s) key _ s apart ∙ unused.0,
        ),
  )
    where
      used_differ :
          (key : Bytes) {c : Chain}
          → IsUnused p s r key
          → get_chain p (key_of s) s ≡ some c
          → key_of s ≡ key
          → ⊥
      used_differ key unused sends e = let none_here = unused.0 in absurd (cc)

  -- One turn: on any text the writer's `encrypt` succeeds, the reader's decryption of the bytes steps its
  -- ratchet, succeeds and gives the text back, and then it is the reader's turn. The pair that the step
  -- draws is as key generation makes it, has an agreement with the writer's current key, and is new
  -- to both. Other keys that are unused stay so.
  pub decrypt-encrypt-Turn :
      Turn p laws ours theirs s r
      → IsKeyPair p fresh
      → calculate_agreement p (key_of s) fresh.priv_key ≡ ok secret'
      → get_chain p fresh.pub_key s ≡ none
      → get_chain p fresh.pub_key r ≡ none
      → (bytes : Bytes) × (s' : SessionEntry) × (r' : SessionEntry) × (encrypt_message p ours text s
          ≡ ok (bytes, s'))
        × (do_decrypt_whisper_message p fresh theirs bytes r ≡ ok (text, r'))
        × Turn p laws theirs ours r' s'
        × (r'.current_ratchet.ephemeral_key_pair ≡ fresh)
        × ((key : Bytes) → fresh.pub_key ≢ key → IsUnused p s r key → IsUnused p r' s' key)
  decrypt-encrypt-Turn t fresh_pair agreed' new_s new_r =
      let (r1, steps, st) =
        maybe_step_ratchet-Stepped p laws fresh (key_of s) t.secret secret'
          (pos (to_uint32 s.current_ratchet.previous_counter)) r t.root_size t.agreed agreed'
          t.unseen new_r (λ e. cc) t.apart t.apart' t.finished in
      let (sync, at) = Stepped-InSync t r1 st in
      let first : pos_part (sync.sending.chain_key.counter +ℤ pos 1) ≡ 0 =
        first_number sync.sending.chain_key.counter at in
      let (bytes, fs, fr, sent, read, at_s, at_r) =
        delivery p laws ours theirs text 0 fresh s r r1 sync (omega arith)
          (subst (λ n. n < 2 ^ 32) (sym first) (omega arith)) steps in
      let after = after-Turn t r1 fs fr st in
      (
        bytes,
        after_sending p fs s,
        after_reading p 0 (key_of s) fr r1,
        sent,
        read ∙ ap (λ n. ok (text, after_reading p n (key_of s) fr r1)) first,
        Turn-next t r1 fs fr st fresh_pair agreed' new_s (at_s ∙ ap pos first)
            (at_r ∙ ap pos first),
        after.0,
        after.1,
      )
