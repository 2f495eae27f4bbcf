-- ===== src/Session/Message/RoundTrip.antt =====
-- A message that one side encrypts, the other side decrypts.
use libsignal_node.Common.{
  ℕ, suc, ◌+◌, ◌-◌, ◌%◌, ◌^◌, ◌<◌, ◌≡◌, refl, sym, ap, ◌∙◌, arith, Bytes, ◌∷◌, ◌++◌, none, some,
  true, false, length, take, drop, take-append, drop-append, length-append, leb, ◌==◌, nat_eq, ℤ,
  pos, minus_one, ◌+ℤ◌, ◌≤ℤ◌, pos_part, +ℤ-one, ok, lookup, delete,
}
use libsignal_node.Platform.{Platform, PlatformLaws, KeyPair}
use libsignal_node.Session.Entry.{Chain, SessionEntry, get_chain, update_chain, is_receiving}
use libsignal_node.Session.Chain.{fill_message_keys}
use libsignal_node.Session.Chain.Keys.{
  IsChain, chain_key_after, message_key_at, fill_message_keys-ahead, message_key_at-chain_key_after,
}
use libsignal_node.Session.Message.{
  encrypt_message, decrypt_on_chain, do_decrypt_whisper_message, seal, check_version,
  assert_valid_whisper_message, to_uint32, rethrow, min_message_length,
}
use libsignal_node.Session.Ratchet.{maybe_step_ratchet}
use libsignal_node.Session.Message.Replay.{maybe_step_ratchet-known}
use libsignal_node.Session.Message.Sealing.{Sealed, seal-Sealed}

-- The two ends of one chain: `sender` has advanced `gap` message keys further than `receiver` has seen.
pub record InSync (p : Platform) (ours theirs : Bytes) (gap : ℕ) (sender receiver : SessionEntry)
    : Type 0 where
  pub sending : Chain
  pub receiving : Chain
  pub chain_key : Bytes
  pub ephemeral_size : length sender.current_ratchet.ephemeral_key_pair.pub_key ≡ 33
  pub sends : get_chain p sender.current_ratchet.ephemeral_key_pair.pub_key sender ≡ some sending
  pub sends_type : is_receiving sending ≡ false
  pub receives :
      get_chain p sender.current_ratchet.ephemeral_key_pair.pub_key receiver ≡ some receiving
  pub receives_type : is_receiving receiving ≡ true
  pub sending_chain : IsChain sending
  pub receiving_chain : IsChain receiving
  pub receiving_key : receiving.chain_key.key ≡ some chain_key
  pub sending_key : sending.chain_key.key ≡ some (chain_key_after p gap chain_key)
  pub counters : sending.chain_key.counter ≡ receiving.chain_key.counter +ℤ pos gap
  pub remote : sender.index_info.remote_identity_key ≡ theirs
  pub remote' : receiver.index_info.remote_identity_key ≡ ours

counter_pos : (a : ℤ) → minus_one ≤ℤ a → a +ℤ pos 1 ≡ pos (pos_part (a +ℤ pos 1))
unfolding ◌+ℤ◌
counter_pos a h = ground arith

-- The receiver's session once the message of index `n` has been read.
abbrev pub after_reading : Platform → ℕ → Bytes → Chain → SessionEntry → SessionEntry
after_reading p n ephemeral f r =
    record (update_chain p ephemeral (record f { message_keys = delete n f.message_keys }) r) {
      pending_pre_key = none;
    }

-- The sender's session once a message has been written on the chain `f`.
abbrev pub after_sending : Platform → Chain → SessionEntry → SessionEntry
after_sending p f s =
    update_chain p s.current_ratchet.ephemeral_key_pair.pub_key
      (record f { message_keys = delete (pos_part f.chain_key.counter) f.message_keys }) s

module _ (p : Platform) (laws : PlatformLaws p) where
  -- Decrypting the bytes of a sealed message, where the chain is known and yields the message key.
  open-Sealed :
      (text key ours theirs ephemeral bytes : Bytes) (counter previous : ℤ) (fresh : KeyPair)
      (r0 r : SessionEntry) (c f : Chain)
      → Sealed p laws text key ours theirs ephemeral bytes counter previous
      → length ephemeral ≡ 33
      → maybe_step_ratchet p fresh ephemeral (pos (to_uint32 previous)) r0 ≡ ok r
      → r.index_info.remote_identity_key ≡ ours
      → get_chain p ephemeral r ≡ some c
      → is_receiving c ≡ true
      → fill_message_keys p (pos (to_uint32 counter)) c ≡ ok f
      → lookup (to_uint32 counter) f.message_keys ≡ some key
      → do_decrypt_whisper_message p fresh theirs bytes r0
        ≡ ok (text, after_reading p (to_uint32 counter) ephemeral f r)
  unfolding do_decrypt_whisper_message decrypt_on_chain check_version assert_valid_whisper_message
      rethrow
  open-Sealed text key ours theirs ephemeral bytes counter previous fresh r0 r c f s size steps
        remote found receives fills key_e =
      let body : Bytes = s.message ++ s.mac in
      let total : length (51 ∷ body) ≡ length s.message + 9 =
        omega (arith, length-append s.message s.mac, s.mac_size) in
      let long : leb min_message_length (length (51 ∷ body)) ≡ true =
        ground (arith, total, s.message_size) in
      let proto : take (length (51 ∷ body) - 9) body ≡ s.message =
        take-append (length (51 ∷ body) - 9) s.message s.mac (omega (arith, total)) in
      let tail : drop (length (51 ∷ body) - 8) (51 ∷ body) ≡ s.mac =
        drop-append (length (51 ∷ body) - 8) (51 ∷ s.message) s.mac (omega (arith, total)) in
      let eph : (length ephemeral == 33) ≡ true = ground arith in
      let nonempty : (length s.ciphertext == 0) ≡ false = ground (arith, s.ciphertext_size) in
      let blocks : (length s.ciphertext % 16 == 0) ≡ true = ground (arith, s.ciphertext_size) in
      rw
        (
          s.wire, long, proto, tail, s.decodes, eph, nonempty, blocks, steps, found, receives,
          fills, key_e, remote, s.opens,
        )
        refl

  encrypt_known :
      (ours text key bytes : Bytes) (s : SessionEntry) (c f : Chain)
      → get_chain p s.current_ratchet.ephemeral_key_pair.pub_key s ≡ some c
      → is_receiving c ≡ false
      → fill_message_keys p (c.chain_key.counter +ℤ pos 1) c ≡ ok f
      → lookup (pos_part f.chain_key.counter) f.message_keys ≡ some key
      → seal p key ours s.index_info.remote_identity_key
          s.current_ratchet.ephemeral_key_pair.pub_key f.chain_key.counter
          s.current_ratchet.previous_counter text
        ≡ ok bytes
      → encrypt_message p ours text s ≡ ok (bytes, after_sending p f s)
  unfolding encrypt_message
  encrypt_known ours text key bytes s c f found type fills key_e seals =
      rw (found, type, fills, key_e, seals) refl

  to_uint32_fits : (n : ℕ) → n < 2 ^ 32 → to_uint32 (pos n) ≡ n
  unfolding to_uint32
  to_uint32_fits n h = omega arith

  -- The same with what both sides hold afterwards, where the receiver's session `r` is in sync once its
  -- ratchet has been stepped.
  pub delivery :
      (ours theirs text : Bytes) (gap : ℕ) (fresh : KeyPair) (s r0 r : SessionEntry)
      (sync : InSync p ours theirs gap s r)
      → gap < 2000
      → pos_part (sync.sending.chain_key.counter +ℤ pos 1) < 2 ^ 32
      → maybe_step_ratchet p fresh s.current_ratchet.ephemeral_key_pair.pub_key
          (pos (to_uint32 s.current_ratchet.previous_counter))
          r0
        ≡ ok r
      → let n = pos_part (sync.sending.chain_key.counter +ℤ pos 1) in
        let key = s.current_ratchet.ephemeral_key_pair.pub_key in
        (bytes : Bytes) × (fs : Chain) × (fr : Chain) × (encrypt_message p ours text s
          ≡ ok (bytes, after_sending p fs s))
        × (do_decrypt_whisper_message p fresh theirs bytes r0
            ≡ ok (text, after_reading p n key fr r))
        × (fs.chain_key.counter ≡ pos n)
        × (fr.chain_key.counter ≡ pos n)
  delivery ours theirs text gap fresh s r0 r sync near fits steps =
      let ephemeral : Bytes = s.current_ratchet.ephemeral_key_pair.pub_key in
      let n : ℕ = pos_part (sync.sending.chain_key.counter +ℤ pos 1) in
      let (fs, fills_s, at_s, _, _, key_s) =
        fill_message_keys-ahead p 0 (chain_key_after p gap sync.chain_key) sync.sending
          sync.sending_key (omega arith) sync.sending_chain in
      let (fr, fills_r, at_r, _, _, key_r) =
        fill_message_keys-ahead p gap sync.chain_key sync.receiving sync.receiving_key near
          sync.receiving_chain in
      let key : Bytes = message_key_at p gap sync.chain_key in
      let here : fs.chain_key.counter ≡ pos n =
        at_s ∙ counter_pos sync.sending.chain_key.counter sync.sending_chain.started in
      let there : sync.receiving.chain_key.counter +ℤ pos (suc gap) ≡ pos n =
        sym (+ℤ-one sync.receiving.chain_key.counter gap)
        ∙ ap (λ x. x +ℤ pos 1) (sym sync.counters)
        ∙ counter_pos sync.sending.chain_key.counter sync.sending_chain.started in
      let (bytes, seals, sealed) =
        seal-Sealed p laws key ours theirs ephemeral text (pos n)
          s.current_ratchet.previous_counter in
      let index : to_uint32 (pos n) ≡ n = to_uint32_fits n fits in
      let opens =
        open-Sealed text key ours theirs ephemeral bytes (pos n) s.current_ratchet.previous_counter
          fresh r0 r sync.receiving fr sealed sync.ephemeral_size steps sync.remote' sync.receives
          sync.receives_type (rw (index, ← there) fills_r)
          (rw index (rw (ap pos_part (at_r ∙ there)) at key_r)) in
      let sent : lookup (pos_part fs.chain_key.counter) fs.message_keys ≡ some key =
        key_s ∙ ap some (message_key_at-chain_key_after p gap sync.chain_key) in
      (
        bytes,
        fs,
        fr,
        encrypt_known ours text key bytes s sync.sending fs sync.sends sync.sends_type fills_s sent
            (rw (here, sync.remote) seals),
        opens ∙ ap (λ (m : ℕ). ok (text, after_reading p m ephemeral fr r)) index,
        here,
        at_r ∙ there,
      )

  -- Let the platform's laws hold, and let the two ends of one chain be in sync: the sender's sending
  -- chain is `gap` message keys ahead of the receiver's receiving chain of the same ephemeral key
  -- (messages lost or still under way), and each side holds the other's identity key. With `gap`
  -- below 2000 and the counter within 32 bits, encrypting any text succeeds, and the receiver's
  -- decryption of those bytes succeeds and gives the text back.
  pub decrypt-encrypt :
      (ours theirs text : Bytes) (gap : ℕ) (fresh : KeyPair) (s r : SessionEntry)
      (sync : InSync p ours theirs gap s r)
      → gap < 2000
      → pos_part (sync.sending.chain_key.counter +ℤ pos 1) < 2 ^ 32
      → (bytes : Bytes) × (s' : SessionEntry) × (r' : SessionEntry) × (encrypt_message p ours text s
          ≡ ok (bytes, s'))
        × (do_decrypt_whisper_message p fresh theirs bytes r ≡ ok (text, r'))
  decrypt-encrypt ours theirs text gap fresh s r sync near fits =
      let steps =
        maybe_step_ratchet-known p fresh s.current_ratchet.ephemeral_key_pair.pub_key
          (pos (to_uint32 s.current_ratchet.previous_counter)) r sync.receives in
      let (bytes, fs, fr, sent, read, _, _) =
        delivery ours theirs text gap fresh s r r sync near fits steps in
      (bytes, after_sending p fs s, _, sent, read)
