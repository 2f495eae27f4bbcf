-- ===== src/Group/Cipher/Broadcast.antt =====
-- A member joins by a distribution message and reads what the sender then sends.
use libsignal_node.Common.{
  ℕ, suc, ◌+◌, ◌^◌, ◌<◌, ◌≤◌, ◌≡◌, refl, sym, ap, arith, Bytes, List, [], ◌∷◌, Option, none, some,
  true, false, Bool, length, ◌==◌, nat_eq, Result, ok, ◌>>=◌,
}
use libsignal_node.Platform.{Platform, PlatformLaws, KeyPair}
use libsignal_node.Session.Handshake.Agreement.{IsKeyPair}
use libsignal_node.Wire.Group.RoundTrip.{decode_distribution_message-encode_distribution_message}
use libsignal_node.Group.ChainKey.{get_next}
use libsignal_node.Group.State.{SenderKeyState, new_state}
use libsignal_node.Group.Record.{
  SenderKeyRecord, get_sender_key_state, add_sender_key_state, push_state, is_empty,
}
use libsignal_node.Group.Record.Bounds.{UniqueIds, add_sender_key_state_lem}
use libsignal_node.Group.Message.{
  SenderKeyDistributionMessage, new_distribution_message, parse_distribution_message,
}
use libsignal_node.Group.Cipher.{group_encrypt, group_decrypt, process, create, announce}
use libsignal_node.Group.Cipher.Keys.{chain_after-zero}
use libsignal_node.Group.Cipher.RoundTrip.{IsMember, group_encrypt-IsMember}

-- The sender sends each text; the messages that arrive are read, and what was read is returned.
pub broadcast :
    Platform → List (Bytes × Bool) → SenderKeyRecord → SenderKeyRecord → Result (List Bytes)
broadcast p [] rs rr = ok []
broadcast p ((text, true) ∷ rest) rs rr = do
  (bytes, rs') ← group_encrypt p (some rs) text
  (read, rr') ← group_decrypt p (some rr) bytes
  others ← broadcast p rest rs' rr'
  ok (read ∷ others)
broadcast p ((text, false) ∷ rest) rs rr = do
  (_, rs') ← group_encrypt p (some rs) text
  broadcast p rest rs' rr

abbrev pub arriving : List (Bytes × Bool) → List Bytes
arriving [] = []
arriving ((text, true) ∷ rest) = text ∷ arriving rest
arriving ((text, false) ∷ rest) = arriving rest

module _ (p : Platform) (laws : PlatformLaws p) where
  broadcast-IsMember :
      (turns : List (Bytes × Bool)) (priv : Bytes) (gap : ℕ) (rs rr : SenderKeyRecord)
      (m : IsMember p laws priv gap rs rr)
      → gap + length turns ≤ 2000
      → m.sender.sender_chain_key.iteration + length turns ≤ 2 ^ 32
      → broadcast p turns rs rr ≡ ok (arriving turns)
  unfolding broadcast get_next
  broadcast-IsMember [] priv gap rs rr m near fits = refl
  broadcast-IsMember ((text, true) ∷ turns) priv gap rs rr m near fits =
      let (bytes, rs', rr', sends, reads, read, lost, on, _) =
        group_encrypt-IsMember p laws priv text gap rs rr m (omega arith) (omega arith) in
      let at : read.sender.sender_chain_key.iteration ≡ m.sender.sender_chain_key.iteration + 1 =
        ap (λ c. c.iteration) on in
      rw
        (
          sends,
          reads,
          broadcast-IsMember turns priv 0 rs' rr' read (omega arith) (omega (arith, at)),
        )
        refl
  broadcast-IsMember ((text, false) ∷ turns) priv gap rs rr m near fits =
      let (bytes, rs', rr', sends, reads, read, lost, _, on) =
        group_encrypt-IsMember p laws priv text gap rs rr m (omega arith) (omega arith) in
      let at : lost.sender.sender_chain_key.iteration ≡ m.sender.sender_chain_key.iteration + 1 =
        ap (λ c. c.iteration) on in
      rw (
        sends,
        broadcast-IsMember turns priv (suc gap) rs' rr lost (omega arith) (omega (arith, at)),
      )

  -- A sender creates its key, and the bytes of the distribution message reach a member, which parses and
  -- processes them.
  pub joining :
      ℕ → Bytes → KeyPair → Option SenderKeyRecord → List (Bytes × Bool) → Result (List Bytes)
  joining id chain_key signing found turns = do
    (m, rs) ← create p id chain_key signing none
    received ← parse_distribution_message p m.serialized
    rr ← process p found received
    broadcast p turns rs rr

  abbrev pub record_of : Option SenderKeyRecord → SenderKeyRecord
  record_of none = []
  record_of (some r) = r

  process-ok :
      (id : ℕ) (chain_key key serialized : Bytes) (found : Option SenderKeyRecord)
      → length chain_key ≡ 32
      → length key ≡ 33
      → process p found (record {
        id = id;
        iteration = 0;
        chain_key = chain_key;
        signature_key = key;
        serialized = serialized;
      })
        ≡ ok (add_sender_key_state id 0 chain_key key none (record_of found))
  unfolding process
  process-ok id chain_key key serialized found size key_size =
      let whole : (length chain_key == 32) ≡ true = ground arith in
      let exact : (length key == 33) ≡ true = ground arith in
      let other : (length key == 32) ≡ false = ground arith in rw (whole, other, exact) refl

  abbrev announcement : ℕ → Bytes → Bytes → SenderKeyDistributionMessage
  announcement id chain_key key = new_distribution_message p id 0 chain_key key

  create-ok :
      (id : ℕ) (chain_key : Bytes) (signing : KeyPair)
      → create p id chain_key signing none
        ≡ ok (
          announcement id chain_key signing.pub_key,
          new_state id 0 chain_key signing.pub_key (some signing.priv_key) ∷ [],
        )
  unfolding create announce add_sender_key_state push_state is_empty get_sender_key_state
  create-ok id chain_key signing = refl

  parse_distribution_message-ok :
      (id : ℕ) (chain_key key : Bytes)
      → id < 2 ^ 32
      → parse_distribution_message p (announcement id chain_key key).serialized
        ≡ ok (record {
          id = id;
          iteration = 0;
          chain_key = chain_key;
          signature_key = key;
          serialized = (announcement id chain_key key).serialized;
        })
  unfolding parse_distribution_message new_distribution_message
  parse_distribution_message-ok id chain_key key fits =
      rw
        (
          decode_distribution_message-encode_distribution_message p laws
              (record { id = id; iteration = 0; chain_key = chain_key; signing_key = key }) fits
              (omega arith),
          parse_distribution_message,
        )
        refl

  -- Every text that arrives is read as it was sent: a sender whose key, key id and signing key are as the
  -- key helper draws them creates a key, and a member with at most five states of different ids, or
  -- none, parses and processes the bytes that announce it. Of the at most 2000 texts that the sender
  -- then sends, some lost on the way, `decrypt` gives back those that arrive, in order, and no call fails.
  pub joining-arriving :
      (id : ℕ) (chain_key : Bytes) (signing : KeyPair) (found : Option SenderKeyRecord)
      (turns : List (Bytes × Bool))
      → id < 2 ^ 32
      → length chain_key ≡ 32
      → IsKeyPair p signing
      → UniqueIds (record_of found)
      → length (record_of found) ≤ 5
      → length turns ≤ 2000
      → joining id chain_key signing found turns ≡ ok (arriving turns)
  unfolding joining
  joining-arriving id chain_key signing found turns id_fits size pair unique few near =
      let key_size : length signing.pub_key ≡ 33 =
        rw pair.public (omega (arith, laws.length-public_of signing.priv_key)) in
      let s : SenderKeyState = new_state id 0 chain_key signing.pub_key (some signing.priv_key) in
      let t : SenderKeyState = new_state id 0 chain_key signing.pub_key none in
      let (_, _, _, reads) =
        add_sender_key_state_lem id 0 chain_key signing.pub_key none (record_of found) unique few in
      let m : IsMember p laws signing.priv_key 0 (s ∷ [])
          (add_sender_key_state id 0 chain_key signing.pub_key none (record_of found)) =
        record {
          sender = s;
          member = t;
          sends = unfold get_sender_key_state in refl;
          reads = reads;
          priv_size = pair.priv_size;
          signs = refl;
          checks = pair.public;
          id_fits = id_fits;
          same_id = refl;
          ahead = sym (chain_after-zero p laws t.sender_chain_key);
          sound = record { below = tt; distinct = tt };
          sound' = record { below = tt; distinct = tt };
        } in
      rw
        (
          create-ok id chain_key signing,
          parse_distribution_message-ok id chain_key signing.pub_key id_fits,
          process-ok id chain_key signing.pub_key
              (announcement id chain_key signing.pub_key).serialized found size key_size,
        )
        (broadcast-IsMember turns signing.priv_key 0 _ _ m (omega arith) (omega arith))
