-- ===== src/Group/Cipher/Replay.antt =====
-- A group message is read once.
use libsignal_node.Common.{
  ℕ, ◌+◌, ◌-◌, ◌<◌, ◌≤◌, ◌≡◌, inl, inr, refl, sym, ap, ◌∙◌, arith, Bytes, List, [], ◌∷◌, some, true,
  false, any, find?, ltb, ◌==◌, nat_eq, ok, err, or_throw, >>=-elim, ok-pair, or_throw-eq-ok,
  Bool-cases, Option-cases, Result-cases, sender_key_error,
}
use mathlib.Core.Path.{subst}
use libsignal_node.Platform.{Platform, PlatformLaws}
use libsignal_node.Crypto.{decrypt}
use libsignal_node.Group.ChainKey.{SenderMessageKey, get_next}
use libsignal_node.Group.State.{
  SenderKeyState, StoredMessageKey, has_sender_message_key, remove_sender_message_key,
}
use libsignal_node.Group.Record.{SenderKeyRecord, get_sender_key_state, update_id}
use libsignal_node.Group.Message.{SenderKeyMessage, parse_sender_key_message, check_signature}
use libsignal_node.Group.Cipher.{take_stored_key, get_sender_key, group_decrypt}
use libsignal_node.Group.Cipher.Keys.{
  SameHolder, new_message_key-ok, iteration-chain_after, get_sender_key-ahead,
}
use libsignal_node.Group.Cipher.Stored.{
  IsSound, absent-AllBelow, AllBelow-remove, AllDistinct-remove, any-remove,
}
use libsignal_node.Group.Cipher.Finding.{
  some-injective, AllSound, get_sender_key_state-AllSound, id-get_sender_key_state,
  get_sender_key_state-update_id, get_sender_key_state-update_other, AllSound-update_id,
}

-- The state can no longer give the key of the iteration.
record IsSpent (iteration : ℕ) (s : SenderKeyState) : Type 0 where
  passed : iteration < s.sender_chain_key.iteration
  absent : has_sender_message_key iteration s ≡ false

module _ (p : Platform) (laws : PlatformLaws p) where
  After : ℕ → SenderKeyState → SenderKeyState → Type 0
  After iteration s s' =
      SameHolder p laws s s'
      × IsSound s'
      × IsSpent iteration s'
      × ((n : ℕ) → IsSpent n s → IsSpent n s')

  take_stored_key-After :
      (iteration : ℕ) (s : SenderKeyState) {k : SenderMessageKey} {s' : SenderKeyState}
      → IsSound s
      → iteration < s.sender_chain_key.iteration
      → take_stored_key p iteration s ≡ ok (k, s')
      → After iteration s s'
  unfolding take_stored_key remove_sender_message_key has_sender_message_key After
  take_stored_key-After iteration s {k} {s'} sound behind h =
      let test = λ (j : StoredMessageKey). j.iteration == iteration in
      elim (Bool-cases (any test s.sender_message_keys)) [
        | inr missing ↦ absurd (let h' = rw missing at h in cc)
        | inl there ↦ elim (Option-cases (find? test s.sender_message_keys)) [
          | inl none_found ↦
              absurd (let h' = rw (there, none_found, remove_sender_message_key) at h in cc)
          | inr (j, found) ↦
              let h' =
                rw
                  (
                    there,
                    found,
                    remove_sender_message_key,
                    (new_message_key-ok p laws j.iteration j.seed).0,
                  )
                  at h in
              let (distinct, gone) =
                AllDistinct-remove iteration s.sender_message_keys sound.distinct in
              subst (After iteration s) (ok-pair h').1 (
                (refl, refl, refl),
                record {
                  below = AllBelow-remove _ iteration s.sender_message_keys sound.below;
                  distinct = distinct;
                },
                record { passed = behind; absent = gone },
                λ n spent. record {
                  passed = spent.passed;
                  absent = any-remove n iteration s.sender_message_keys spent.absent;
                },
              )
        ]
      ]

  get_sender_key-After :
      (iteration : ℕ) (s : SenderKeyState) {k : SenderMessageKey} {s' : SenderKeyState}
      → IsSound s
      → get_sender_key p s iteration ≡ ok (k, s')
      → After iteration s s'
  unfolding get_sender_key After
  get_sender_key-After iteration s {k} {s'} sound h =
      elim (Bool-cases (ltb iteration s.sender_chain_key.iteration)) [
        | inl behind ↦ take_stored_key-After iteration s sound (ground arith) (rw behind at h)
        | inr ahead ↦ elim (Bool-cases (ltb 2000 (iteration - s.sender_chain_key.iteration))) [
          | inl far ↦ absurd (let h' = rw (ahead, far) at h in cc)
          | inr near ↦
              let gap : ℕ = iteration - s.sender_chain_key.iteration in
              let (s1, run, same, sound1, below, stays, chain) =
                get_sender_key-ahead p laws s iteration gap sound (ground arith) (ground arith) in
              let reached : s.sender_chain_key.iteration ≤ iteration = ground arith in
              let at : s1.sender_chain_key.iteration ≡ iteration + 1 =
                ap (λ c. c.iteration) chain
                ∙ (unfold get_next in
                    omega (arith, iteration-chain_after p laws gap s.sender_chain_key)) in
              subst (After iteration s) ((ok-pair (sym run ∙ h)).1) (
                same,
                sound1,
                record {
                  passed = omega (arith, at);
                  absent = unfold has_sender_message_key in absent-AllBelow iteration _ below;
                },
                λ n spent. record {
                  passed = let first = spent.passed in omega (arith, at);
                  absent =
                      unfold has_sender_message_key in
                      stays n spent.passed (unfold has_sender_message_key in spent.absent);
                },
              )
        ]
      ]

-- Messages that arrive; what cannot be read changes nothing.
pub read_all : Platform → List Bytes → SenderKeyRecord → SenderKeyRecord
read_all p [] r = r
read_all p (b ∷ bytes) r =
    read_all p bytes (elim (group_decrypt p (some r) b) [ err _ ↦ r | ok (_, r') ↦ r' ])

-- A record in which the state of an id, with its signing key, cannot give the key of the iteration.
record IsRefused (id iteration : ℕ) (key : Bytes) (r : SenderKeyRecord) : Type 0 where
  state : SenderKeyState
  found : get_sender_key_state (some id) r ≡ some state
  key_same : state.signing_key_public ≡ key
  all : AllSound r
  spent : IsSpent iteration state

module _ (p : Platform) (laws : PlatformLaws p) where
  -- What a successful decryption has found on its way.
  group_decrypt-ok {ℓ} :
      (r : SenderKeyRecord) (bytes : Bytes) {text : Bytes} {r' : SenderKeyRecord} {C : Type ℓ}
      → group_decrypt p (some r) bytes ≡ ok (text, r')
      → ((m : SenderKeyMessage) (s s' : SenderKeyState) (k : SenderMessageKey)
          → parse_sender_key_message p bytes ≡ ok m
          → get_sender_key_state (some m.key_id) r ≡ some s
          → check_signature p s.signing_key_public m ≡ ok tt
          → get_sender_key p s m.iteration ≡ ok (k, s')
          → r' ≡ update_id m.key_id s' r
          → C)
      → C
  unfolding group_decrypt
  group_decrypt-ok r bytes h give = >>=-elim (parse_sender_key_message p bytes) _ h λ m parsed h1.
      >>=-elim (or_throw (get_sender_key_state (some m.key_id) r) _) _ h1 λ s found h2.
        >>=-elim (check_signature p s.signing_key_public m) _ h2 λ _ signed h3.
          >>=-elim (get_sender_key p s m.iteration) _ h3 λ (k, s') got h4.
            >>=-elim (decrypt p k.cipher_key m.ciphertext k.iv) _ h4 λ _ _ h5.
              give m s s' k parsed (or_throw-eq-ok _ _ found) signed got (sym (ok-pair h5).1)

  -- A message that is read leaves what is refused refused.
  read-IsRefused :
      (id iteration : ℕ) (key : Bytes) (r : SenderKeyRecord) (m : SenderKeyMessage)
      (s s' : SenderKeyState) (k : SenderMessageKey)
      → IsRefused id iteration key r
      → get_sender_key_state (some m.key_id) r ≡ some s
      → get_sender_key p s m.iteration ≡ ok (k, s')
      → IsRefused id iteration key (update_id m.key_id s' r)
  unfolding After
  read-IsRefused id iteration key r m s s' k refused found got =
      let sound : IsSound s = get_sender_key_state-AllSound m.key_id r refused.all found in
      let (same, sound', _, keeps) = get_sender_key-After p laws m.iteration s sound got in
      let own : s'.sender_key_id ≡ m.key_id = same.0 ∙ id-get_sender_key_state m.key_id r found in
      let all : AllSound (update_id m.key_id s' r) =
        AllSound-update_id m.key_id s' r sound' refused.all in
      elim (Bool-cases (m.key_id == id)) [
        | inl here ↦
            let at : m.key_id ≡ id = (nat_eq.same_iff m.key_id id).0 here in
            let known : refused.state ≡ s =
              some-injective
                (sym refused.found ∙ ap (λ n. get_sender_key_state (some n) r) (sym at) ∙ found) in
            record {
              state = s';
              found =
                  subst (λ n. get_sender_key_state (some n) (update_id m.key_id s' r) ≡ some s') at
                    (get_sender_key_state-update_id m.key_id s s' r own found);
              key_same = same.1 ∙ ap (λ x. x.signing_key_public) (sym known) ∙ refused.key_same;
              all = all;
              spent = keeps iteration (subst (IsSpent iteration) known refused.spent);
            }
        | inr past ↦ record {
          state = refused.state;
          found = get_sender_key_state-update_other m.key_id id s' r own past ∙ refused.found;
          key_same = refused.key_same;
          all = all;
          spent = refused.spent;
        }
      ]

  read_all-IsRefused :
      (id iteration : ℕ) (key : Bytes) (others : List Bytes) (r : SenderKeyRecord)
      → IsRefused id iteration key r
      → IsRefused id iteration key (read_all p others r)
  unfolding read_all
  read_all-IsRefused id iteration key [] r refused = refused
  read_all-IsRefused id iteration key (b ∷ others) r refused =
      elim (Result-cases (group_decrypt p (some r) b)) [
        | inl (e, failed) ↦ rw failed (read_all-IsRefused id iteration key others r refused)
        | inr ((text, r'), read) ↦ rw read (
            read_all-IsRefused id iteration key others r' (
              group_decrypt-ok r b read λ m s s' k _ found _ got e.
                subst (IsRefused id iteration key) (sym e)
                  (read-IsRefused id iteration key r m s s' k refused found got)))
      ]

  refused_again :
      (m : SenderKeyMessage) (bytes key : Bytes) (r : SenderKeyRecord)
      → parse_sender_key_message p bytes ≡ ok m
      → check_signature p key m ≡ ok tt
      → IsRefused m.key_id m.iteration key r
      → group_decrypt p (some r) bytes ≡ err (sender_key_error "Received message with old counter")
  unfolding group_decrypt get_sender_key take_stored_key
  refused_again m bytes key r parsed signed refused =
      let behind : ltb m.iteration refused.state.sender_chain_key.iteration ≡ true =
        (let passed = refused.spent.passed in ground arith) in
      rw
        (
          parsed,
          refused.found,
          ap (λ k. check_signature p k m) refused.key_same ∙ signed,
          behind,
          refused.spent.absent,
        )
        refl

  -- A record whose states are as the code keeps them reads a message. Whatever messages then arrive, and
  -- whether they can be read or not, the same bytes are refused from then on: their key is gone.
  pub group_decrypt-replay :
      (r r' : SenderKeyRecord) (bytes text : Bytes) (others : List Bytes)
      → AllSound r
      → group_decrypt p (some r) bytes ≡ ok (text, r')
      → group_decrypt p (some (read_all p others r')) bytes
        ≡ err (sender_key_error "Received message with old counter")
  unfolding After
  group_decrypt-replay r r' bytes text others all h =
      group_decrypt-ok r bytes h λ m s s' k parsed found signed got e.
        let sound : IsSound s = get_sender_key_state-AllSound m.key_id r all found in
        let (same, sound', spent, _) = get_sender_key-After p laws m.iteration s sound got in
        let own : s'.sender_key_id ≡ m.key_id = same.0 ∙ id-get_sender_key_state m.key_id r found in
        let now : IsRefused m.key_id m.iteration s.signing_key_public (update_id m.key_id s' r) =
          record {
            state = s';
            found = get_sender_key_state-update_id m.key_id s s' r own found;
            key_same = same.1;
            all = AllSound-update_id m.key_id s' r sound' all;
            spent = spent;
          } in
        refused_again m bytes s.signing_key_public (read_all p others r') parsed signed (
          read_all-IsRefused m.key_id m.iteration s.signing_key_public others r'
            (subst (IsRefused m.key_id m.iteration s.signing_key_public) (sym e) now))
