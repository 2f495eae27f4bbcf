-- ===== src/Session/Message/Replay.antt =====
-- A message key is used once: a message that has been decrypted is refused from then on.
use libsignal_node.Common.{
  ◌≡◌, sym, Bytes, none, some, true, require, or_throw, lookup, delete, lookup-delete_self, nat_eq,
  ℤ, pos, ◌≤ℤ◌, ok, err, message_counter_error, >>=-elim, ok-pair, require-eq-ok, or_throw-eq-ok,
  length, leb,
}
use libsignal_node.Platform.{Platform, KeyPair}
use libsignal_node.Session.Entry.{Chain, SessionEntry, get_chain, update_chain, is_receiving}
use libsignal_node.Session.Entry.Chains.{get_chain-update_chain}
use libsignal_node.Session.Chain.{fill_message_keys}
use libsignal_node.Session.Chain.Fill.{fill_message_keys-reaches, fill_message_keys-idle}
use libsignal_node.Session.Ratchet.{maybe_step_ratchet}
use libsignal_node.Crypto.{nth}
use libsignal_node.Wire.Whisper.{decode_whisper}
use libsignal_node.Session.Message.{
  ValidMessage, decrypt_on_chain, min_message_length, check_version, rethrow,
  assert_valid_whisper_message, do_decrypt_whisper_message, unseal,
}

pub maybe_step_ratchet-known :
    (p : Platform) (fresh : KeyPair) (key : Bytes) (n : ℤ) (s : SessionEntry) {c : Chain}
    → get_chain p key s ≡ some c
    → maybe_step_ratchet p fresh key n s ≡ ok s
unfolding maybe_step_ratchet
maybe_step_ratchet-known p fresh key n s e = rw (e, maybe_step_ratchet)

-- The session cannot decrypt the message: its chain is there, past the counter, and holds no key.
record IsSpent (p : Platform) (m : ValidMessage) (s : SessionEntry) : Type 0 where
  chain : Chain
  found : get_chain p m.ephemeral_key s ≡ some chain
  receives : is_receiving chain ≡ true
  reached : pos m.counter ≤ℤ chain.chain_key.counter
  absent : lookup m.counter chain.message_keys ≡ none

module _ (p : Platform) where
  IsSpent-chain :
      (m : ValidMessage) (s : SessionEntry) (chain filled : Chain) (s' : SessionEntry)
      → fill_message_keys p (pos m.counter) chain ≡ ok filled
      → is_receiving chain ≡ true
      → s'
        ≡ record (update_chain p m.ephemeral_key
            (record filled { message_keys = delete m.counter filled.message_keys })
            s) { pending_pre_key = none }
      → IsSpent p m s'
  IsSpent-chain m s chain filled s' fills receives e =
      let (reached, type) = fill_message_keys-reaches p (pos m.counter) chain filled fills in
      let chain' : Chain = record filled { message_keys = delete m.counter filled.message_keys } in
      rw e (record {
        chain = chain';
        found = unfold get_chain update_chain in get_chain-update_chain p m.ephemeral_key chain' s;
        receives = rw type receives;
        reached = reached;
        absent = lookup-delete_self m.counter filled.message_keys;
      })

  IsSpent-after :
      (our_identity proto mac : Bytes) (m : ValidMessage) (s : SessionEntry) {text : Bytes}
      {s' : SessionEntry}
      → decrypt_on_chain p our_identity proto mac m s ≡ ok (text, s')
      → IsSpent p m s'
  unfolding decrypt_on_chain
  IsSpent-after our_identity proto mac m s {text} {s'} h =
      >>=-elim (or_throw (get_chain p m.ephemeral_key s) _) _ h λ chain _ h1.
        >>=-elim (require (is_receiving chain) _) _ h1 λ _ receives h2.
          >>=-elim (fill_message_keys p (pos m.counter) chain) _ h2 λ filled fills h3.
            >>=-elim (or_throw (lookup m.counter filled.message_keys) _) _ h3 λ key _ h4.
              >>=-elim
                (unseal p key our_identity s.index_info.remote_identity_key proto mac m.ciphertext)
                _ h4
                λ _ _ h5.
                  IsSpent-chain m s chain filled s' fills (require-eq-ok _ _ receives)
                    (sym (ok-pair h5).1)

  refused_again :
      (our_identity proto mac : Bytes) (m : ValidMessage) (s : SessionEntry)
      → IsSpent p m s
      → decrypt_on_chain p our_identity proto mac m s
        ≡ err (message_counter_error "Key used already or never filled")
  unfolding decrypt_on_chain
  refused_again our_identity proto mac m s spent = rw (
    spent.found,
    spent.receives,
    fill_message_keys-idle p (pos m.counter) spent.chain spent.reached,
    spent.absent,
  )

  -- Once a message has been decrypted in a session, the session that results refuses the same bytes:
  -- whatever key pair is drawn, the second attempt throws the `MessageCounterError`.
  pub do_decrypt_whisper_message-replay :
      (fresh fresh' : KeyPair) (our_identity bytes text : Bytes) (s s' : SessionEntry)
      → do_decrypt_whisper_message p fresh our_identity bytes s ≡ ok (text, s')
      → do_decrypt_whisper_message p fresh' our_identity bytes s'
        ≡ err (message_counter_error "Key used already or never filled")
  unfolding do_decrypt_whisper_message
  do_decrypt_whisper_message-replay fresh fresh' our_identity bytes text s s' h =
      >>=-elim (require (leb min_message_length (length bytes)) _) _ h λ _ long h1.
        >>=-elim (nth bytes 0) _ h1 λ first first_e h2.
          >>=-elim (check_version first) _ h2 λ _ versions h3.
            >>=-elim (rethrow _ (decode_whisper p _)) _ h3 λ message decoded h4.
              >>=-elim (assert_valid_whisper_message message) _ h4 λ m valid h5.
                >>=-elim (maybe_step_ratchet p fresh m.ephemeral_key (pos m.previous_counter) s) _
                  h5
                  λ s1 _ h6.
                    let spent = IsSpent-after our_identity _ _ m s1 h6 in
                    rw
                      (
                        require-eq-ok _ _ long,
                        or_throw-eq-ok _ _ first_e,
                        versions,
                        decoded,
                        valid,
                        maybe_step_ratchet-known p fresh' m.ephemeral_key (pos m.previous_counter)
                            s' spent.found,
                      )
                      (refused_again our_identity _ _ m s' spent)
