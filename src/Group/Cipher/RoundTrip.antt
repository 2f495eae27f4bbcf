-- ===== src/Group/Cipher/RoundTrip.antt =====
-- What a sender sends to a group, a member reads, messages on the way being lost or not.
use libsignal_node.Common.{
  ℕ, suc, ◌+◌, ◌^◌, ◌<◌, ◌≤◌, ◌≡◌, refl, sym, ap, ◌∙◌, arith, Bytes, [], ◌∷◌, none, some, length,
  nat_eq, ok,
}
use mathlib.Core.Path.{subst}
use libsignal_node.Platform.{Platform, PlatformLaws}
use libsignal_node.Crypto.{encrypt, decrypt}
use libsignal_node.Group.ChainKey.{SenderChainKey, SenderMessageKey, message_key_seed, get_next}
use libsignal_node.Group.State.{SenderKeyState}
use libsignal_node.Group.Record.{SenderKeyRecord, get_sender_key_state, update_id, update_last}
use libsignal_node.Group.Message.{
  SenderKeyMessage, new_sender_key_message, parse_sender_key_message, check_signature,
}
use libsignal_node.Group.Cipher.{get_sender_key, group_encrypt, group_decrypt}
use libsignal_node.Group.Cipher.Keys.{
  SameHolder, message_key, new_message_key-ok, chain_after, chain_after-zero, get_next-chain_after,
  iteration-chain_after, get_sender_key-ahead, iteration-message_key,
}
use libsignal_node.Group.Cipher.Stored.{IsSound}
use libsignal_node.Group.Cipher.Finding.{get_sender_key_state-update_id}
use libsignal_node.Group.Cipher.Sealing.{
  sent, new_sender_key_message-ok, parse_sender_key_message-ok, check_signature-ok,
}

last?-update_last :
    (r : SenderKeyRecord) (s s' : SenderKeyState)
    → get_sender_key_state none r ≡ some s
    → get_sender_key_state none (update_last s' r) ≡ some s'
unfolding get_sender_key_state update_last
last?-update_last [] s s' h = absurd (cc)
last?-update_last (t ∷ []) s s' h = refl
last?-update_last (t ∷ u ∷ []) s s' h = refl
last?-update_last (t ∷ u ∷ v ∷ r) s s' h = last?-update_last (u ∷ v ∷ r) s s' h

module _ (p : Platform) (laws : PlatformLaws p) where
  -- The sender's newest state in `rs` and the member's state of the same id in `rr` hold one signing
  -- key, and the sender's chain is `gap` rounds ahead of the member's: so many messages have not
  -- been read.
  pub record IsMember (priv : Bytes) (gap : ℕ) (rs rr : SenderKeyRecord) : Type 0 where
    pub sender : SenderKeyState
    pub member : SenderKeyState
    pub sends : get_sender_key_state none rs ≡ some sender
    pub reads : get_sender_key_state (some sender.sender_key_id) rr ≡ some member
    pub priv_size : length priv ≡ 32
    pub signs : sender.signing_key_private ≡ some priv
    pub checks : member.signing_key_public ≡ 5 ∷ p.public_of priv
    pub id_fits : sender.sender_key_id < 2 ^ 32
    pub same_id : member.sender_key_id ≡ sender.sender_key_id
    pub ahead : sender.sender_chain_key ≡ chain_after p laws gap member.sender_chain_key
    pub sound : IsSound sender
    pub sound' : IsSound member

  encrypt_known :
      (text c priv : Bytes) (rs : SenderKeyRecord) (s s' : SenderKeyState) (k : SenderMessageKey)
      (m : SenderKeyMessage)
      → get_sender_key_state none rs ≡ some s
      → s.signing_key_private ≡ some priv
      → get_sender_key p s s.sender_chain_key.iteration ≡ ok (k, s')
      → p.aes_cbc_encrypt k.cipher_key text k.iv ≡ ok c
      → new_sender_key_message p s.sender_key_id k.iteration c priv ≡ ok m
      → group_encrypt p (some rs) text ≡ ok (m.serialized, update_last s' rs)
  unfolding group_encrypt encrypt
  encrypt_known text c priv rs s s' k m found signs run encrypts made =
      simp (found, signs, run, encrypts, made)

  decrypt_known :
      (bytes text : Bytes) (rr : SenderKeyRecord) (t t' : SenderKeyState) (k : SenderMessageKey)
      (m : SenderKeyMessage)
      → parse_sender_key_message p bytes ≡ ok m
      → get_sender_key_state (some m.key_id) rr ≡ some t
      → check_signature p t.signing_key_public m ≡ ok tt
      → get_sender_key p t m.iteration ≡ ok (k, t')
      → p.aes_cbc_decrypt k.cipher_key m.ciphertext k.iv ≡ ok text
      → group_decrypt p (some rr) bytes ≡ ok (text, update_id m.key_id t' rr)
  unfolding group_decrypt decrypt
  decrypt_known bytes text rr t t' k m parsed found checks run decrypts =
      rw (parsed, found, checks, run, decrypts) refl

  -- The newest state of a sender and the state of a member, after a message has been sent and read.
  next_IsMember :
      (priv : Bytes) (gap : ℕ) (rs rr : SenderKeyRecord) (m : IsMember priv gap rs rr)
      (s' t' : SenderKeyState)
      → SameHolder p laws m.sender s'
      → SameHolder p laws m.member t'
      → IsSound s'
      → IsSound t'
      → s'.sender_chain_key ≡ get_next p m.sender.sender_chain_key
      → t'.sender_chain_key ≡ s'.sender_chain_key
      → (read : IsMember priv 0 (update_last s' rs) (update_id m.sender.sender_key_id t' rr))
        × (lost : IsMember priv (suc gap) (update_last s' rs) rr) × (read.sender.sender_chain_key
            ≡ get_next p m.sender.sender_chain_key)
        × (lost.sender.sender_chain_key ≡ get_next p m.sender.sender_chain_key)
  next_IsMember priv gap rs rr m s' t' same same' sound sound' moved level = (
    record {
      sender = s';
      member = t';
      sends = last?-update_last rs m.sender s' m.sends;
      reads =
          subst
            (λ n. get_sender_key_state (some n) (update_id m.sender.sender_key_id t' rr) ≡ some t')
            (sym same.0)
            (get_sender_key_state-update_id m.sender.sender_key_id m.member t' rr
              (same'.0 ∙ m.same_id) m.reads);
      priv_size = m.priv_size;
      signs = same.2 ∙ m.signs;
      checks = same'.1 ∙ m.checks;
      id_fits = subst (λ n. n < 2 ^ 32) (sym same.0) m.id_fits;
      same_id = same'.0 ∙ m.same_id ∙ sym same.0;
      ahead = sym level ∙ sym (chain_after-zero p laws t'.sender_chain_key);
      sound = sound;
      sound' = sound';
    },
    record {
      sender = s';
      member = m.member;
      sends = last?-update_last rs m.sender s' m.sends;
      reads = subst (λ n. get_sender_key_state (some n) rr ≡ some m.member) (sym same.0) m.reads;
      priv_size = m.priv_size;
      signs = same.2 ∙ m.signs;
      checks = m.checks;
      id_fits = subst (λ n. n < 2 ^ 32) (sym same.0) m.id_fits;
      same_id = m.same_id ∙ sym same.0;
      ahead =
          moved
          ∙ ap (get_next p) m.ahead
          ∙ get_next-chain_after p laws gap m.member.sender_chain_key;
      sound = sound;
      sound' = m.sound';
    },
    moved,
    moved,
  )

  -- With a member up to 2000 messages behind, and an iteration that fits 32 bits, `encrypt` of any text
  -- succeeds and the member's `decrypt` of the bytes gives the text back. Then the member is level
  -- with the sender, or one message further behind if it has not read this one.
  pub group_encrypt-IsMember :
      (priv text : Bytes) (gap : ℕ) (rs rr : SenderKeyRecord) (m : IsMember priv gap rs rr)
      → gap ≤ 2000
      → m.sender.sender_chain_key.iteration < 2 ^ 32
      → (bytes : Bytes) × (rs' : SenderKeyRecord) × (rr' : SenderKeyRecord) × (group_encrypt p
            (some rs)
            text
          ≡ ok (bytes, rs'))
        × (group_decrypt p (some rr) bytes ≡ ok (text, rr'))
        × (read : IsMember priv 0 rs' rr') × (lost : IsMember priv (suc gap) rs' rr)
        × (read.sender.sender_chain_key ≡ get_next p m.sender.sender_chain_key)
        × (lost.sender.sender_chain_key ≡ get_next p m.sender.sender_chain_key)
  unfolding sent
  group_encrypt-IsMember priv text gap rs rr m near fits =
      let s : SenderKeyState = m.sender in
      let t : SenderKeyState = m.member in
      let n : ℕ = s.sender_chain_key.iteration in
      let at : n ≡ t.sender_chain_key.iteration + gap =
        ap (λ c. c.iteration) m.ahead ∙ iteration-chain_after p laws gap t.sender_chain_key in
      let (s', run_s, same_s, sound_s, _, _, chain_s) =
        get_sender_key-ahead p laws s n 0 m.sound (omega arith) (omega arith) in
      let (t', run_t, same_t, sound_t, _, _, chain_t) =
        get_sender_key-ahead p laws t n gap m.sound' at near in
      let c0 : SenderChainKey = chain_after p laws gap t.sender_chain_key in
      let k : SenderMessageKey = message_key p laws n (message_key_seed p c0.chain_key) in
      let same_chain : chain_after p laws 0 s.sender_chain_key ≡ c0 =
        chain_after-zero p laws s.sender_chain_key ∙ m.ahead in
      let run : get_sender_key p s n ≡ ok (k, s') =
        run_s
        ∙ ap
            (λ (c : SenderChainKey). ok (message_key p laws n (message_key_seed p c.chain_key), s'))
            same_chain in
      let (_, iv_size, key_size) = new_message_key-ok p laws n (message_key_seed p c0.chain_key) in
      let (c, encrypts, decrypts, _, _) =
        laws.aes_round_trip k.cipher_key text k.iv key_size iv_size in
      let id : ℕ = s.sender_key_id in
      let msg : SenderKeyMessage = sent p laws id n c priv m.id_fits fits m.priv_size in
      let moved : s'.sender_chain_key ≡ get_next p s.sender_chain_key =
        chain_s ∙ ap (get_next p) (chain_after-zero p laws s.sender_chain_key) in
      let level : t'.sender_chain_key ≡ s'.sender_chain_key =
        chain_t ∙ ap (get_next p) (sym m.ahead) ∙ sym moved in
      let (now, unread, on, on') =
        next_IsMember priv gap rs rr m s' t' same_s same_t sound_s sound_t moved level in
      (
        msg.serialized,
        update_last s' rs,
        update_id id t' rr,
        encrypt_known text c priv rs s s' k msg m.sends m.signs run encrypts (
            ap (λ i. new_sender_key_message p id i c priv)
              (iteration-message_key p laws n (message_key_seed p c0.chain_key))
            ∙ new_sender_key_message-ok p laws id n c priv m.id_fits fits m.priv_size),
        decrypt_known msg.serialized text rr t t' k msg
            (parse_sender_key_message-ok p laws id n c priv m.id_fits fits m.priv_size) m.reads
            (ap (λ key. check_signature p key msg) m.checks
              ∙ check_signature-ok p laws id n c priv m.id_fits fits m.priv_size)
            run_t decrypts,
        now,
        unread,
        on,
        on',
      )
