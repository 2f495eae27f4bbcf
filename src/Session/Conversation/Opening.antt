-- ===== src/Session/Conversation/Opening.antt =====
-- The handshake opens a conversation: it is the initiator's turn.
use libsignal_node.Common.{
  ℕ, ◌≡◌, ◌≢◌, inl, refl, sym, ap, ◌∙◌, Bytes, [], Option, Bool, none, some, true, false, length,
  ◌==◌, string_eq, ok, lookup, pos, minus_one, >>=-elim,
}
use libsignal_node.Platform.{Platform, PlatformLaws, KeyPair}
use libsignal_node.Crypto.{alloc, ascii, calculate_mac}
use libsignal_node.Crypto.Hkdf.{block1, derive_secrets-hkdf}
use libsignal_node.Curve.{calculate_agreement}
use libsignal_node.Session.Entry.{SessionEntry, ChainType, BaseKeyType, PendingPreKey, get_chain}
use libsignal_node.Session.Handshake.{agree, root_from, init_session, fourth_agreement}
use libsignal_node.Session.Handshake.Agreement.{
  IsKeyPair, AllKeyPairs, public_key, agreement_comm, agree_symmetric,
}
use libsignal_node.Session.Ratchet.Stepping.{ratcheted, calculate_sending_ratchet-ok, ids_differ}
use libsignal_node.Session.Conversation.Turns.{Turn, IsUnused}

module _ (p : Platform) (laws : PlatformLaws p) where
  length-root_from :
      (secret : Bytes) {root : Bytes} → root_from p secret ≡ ok root → length root ≡ 32
  unfolding root_from
  length-root_from secret {root} h =
      let (three, _, _, size, _, _) =
        derive_secrets-hkdf p laws secret (alloc 32) (ascii "WhisperText") refl in
      let block : Bytes = block1 p (calculate_mac p (alloc 32) secret) (ascii "WhisperText") in
      let first : root_from p secret ≡ ok block = rw three refl in
      let same : root ≡ block = cc in ap length same ∙ size

  length-agree :
      (initiator : Bool) (identity signed : KeyPair) (ephemeral : Option KeyPair)
      (their_identity their_signed : Bytes) (their_ephemeral : Option Bytes) {root : Bytes}
      → agree p initiator identity ephemeral signed their_identity their_ephemeral their_signed
        ≡ ok root
      → length root ≡ 32
  unfolding agree
  length-agree initiator identity signed ephemeral their_identity their_signed their_ephemeral h =
      >>=-elim (calculate_agreement p their_signed identity.priv_key) _ h λ a1 _ h1.
        >>=-elim (calculate_agreement p their_identity signed.priv_key) _ h1 λ a2 _ h2.
          >>=-elim (calculate_agreement p their_signed signed.priv_key) _ h2 λ a3 _ h3.
            >>=-elim (fourth_agreement p ephemeral their_ephemeral _) _ h3
              λ secret _ h4. length-root_from secret h4

module _ (p : Platform) (laws : PlatformLaws p) (a e b s f g : KeyPair) (o : Option KeyPair)
    (root secret : Bytes) where
  -- The session that the initiator's handshake leaves, before its ratchet.
  abbrev begun : ℕ → KeyPair → Bytes → Bytes → BaseKeyType → Option ℕ → SessionEntry
  begun now pair their_identity their_key type id = record {
    registration_id = id;
    current_ratchet = record {
      ephemeral_key_pair = pair;
      last_remote_ephemeral_key = their_key;
      previous_counter = pos 0;
      root_key = root;
    };
    index_info = record {
      base_key = e.pub_key;
      base_key_type = type;
      closed = minus_one;
      used = now;
      created = now;
      remote_identity_key = their_identity;
    };
    pending_pre_key = none;
    chains = [];
  }

  init_session_initiator :
      (now : ℕ) (id : Option ℕ)
      → length root ≡ 32
      → agree p true a (some e) e b.pub_key (public_key p laws o) s.pub_key ≡ ok root
      → calculate_agreement p s.pub_key f.priv_key ≡ ok secret
      → init_session p now f a true
          (some e)
          none
          b.pub_key
          (public_key p laws o)
          (some s.pub_key)
          id
        ≡ ok (
            ratcheted p f.pub_key ChainType.sending secret
              (begun now f b.pub_key s.pub_key BaseKeyType.ours id))
  unfolding init_session get_chain lookup
  init_session_initiator now id size h agreed =
      rw
        (
          h,
          calculate_sending_ratchet-ok p laws s.pub_key secret
              (begun now f b.pub_key s.pub_key BaseKeyType.ours id) size agreed refl,
        )
        refl

  init_session_responder :
      (now : ℕ) (id : Option ℕ)
      → agree p false b o s a.pub_key (some e.pub_key) e.pub_key ≡ ok root
      → init_session p now g b false o (some s) a.pub_key (some e.pub_key) none id
        ≡ ok (begun now s a.pub_key e.pub_key BaseKeyType.theirs id)
  unfolding init_session
  init_session_responder now id h = rw h refl

  -- Two devices, as the prekey bundle of the responder `b` brings them together: the initiator `a` with
  -- the base key `e`, the signed prekey `s` and, where one was used, the one-time prekey `o`, all pairs
  -- as key generation makes them. If the initiator's agreement gives a root key, and the first step
  -- of its ratchet, with the pair `f`, a secret, then both calls of `initSession` succeed and it is the
  -- initiator's turn, whatever prekey it marks as pending. No other key than that of `f` is in use.
  pub init_session-Turn :
      (now now' : ℕ) (id id' : Option ℕ) (pending : Option PendingPreKey)
      → IsKeyPair p a
      → IsKeyPair p e
      → IsKeyPair p b
      → IsKeyPair p s
      → IsKeyPair p f
      → AllKeyPairs p laws o
      → agree p true a (some e) e b.pub_key (public_key p laws o) s.pub_key ≡ ok root
      → calculate_agreement p s.pub_key f.priv_key ≡ ok secret
      → f.pub_key ≢ s.pub_key
      → s.pub_key ≢ e.pub_key
      → (ours : SessionEntry) × (theirs : SessionEntry) × (init_session p now f a true
            (some e)
            none
            b.pub_key
            (public_key p laws o)
            (some s.pub_key)
            id
          ≡ ok ours)
        × (init_session p now' g b false o (some s) a.pub_key (some e.pub_key) none id' ≡ ok theirs)
        × Turn p laws a.pub_key b.pub_key (record ours { pending_pre_key = pending }) theirs
        × (ours.current_ratchet.ephemeral_key_pair ≡ f)
        × ((key : Bytes)
            → f.pub_key ≢ key
            → IsUnused p (record ours { pending_pre_key = pending }) theirs key)
  unfolding get_chain lookup
  init_session-Turn now now' id id' pending ha he hb hs hf ho h agreed apart apart' =
      let size : length root ≡ 32 =
        length-agree p laws true a e (some e) b.pub_key s.pub_key (public_key p laws o) h in
      let differ : (p.to_base64 f.pub_key == p.to_base64 s.pub_key) ≡ false =
        ids_differ p laws f.pub_key s.pub_key apart in
      let theirs : SessionEntry = begun now' s a.pub_key e.pub_key BaseKeyType.theirs id' in
      (
        _,
        theirs,
        init_session_initiator now id size h agreed,
        init_session_responder now' id' (sym (agree_symmetric p laws a e b s o ha he hb hs ho) ∙ h),
        record {
          secret = secret;
          writer_pair = hf;
          agreed = agreement_comm p laws f s hf hs ∙ agreed;
          root_size = size;
          root = refl;
          sends = rw (string_eq.same_iff (p.to_base64 f.pub_key) (p.to_base64 f.pub_key)).1 refl;
          unseen = refl;
          last = refl;
          apart = apart;
          apart' = apart';
          finished = inl refl;
          matched = inl (rw differ refl);
          remote = refl;
          remote' = refl;
        },
        refl,
        λ key ne. (rw (ids_differ p laws f.pub_key key ne) refl, refl),
      )
