-- ===== src/Tests/Groups.antt =====
-- A group sender and a member on the sample platform.
use libsignal_node.Common.{
  ◌≡◌, refl, sym, arith, Bytes, List, [], ◌∷◌, Bool, none, some, true, false, replicate, ok, err,
  sender_key_error,
}
use libsignal_node.Platform.Sample.{sample, sample_laws}
use libsignal_node.Group.State.{SenderKeyState, new_state}
use libsignal_node.Group.Record.{SenderKeyRecord, get_sender_key_state}
use libsignal_node.Group.Cipher.{group_encrypt, group_decrypt}
use libsignal_node.Group.Cipher.Keys.{chain_after-zero}
use libsignal_node.Group.Cipher.RoundTrip.{IsMember, group_encrypt-IsMember}
use libsignal_node.Group.Cipher.Replay.{read_all, group_decrypt-replay}
use libsignal_node.Group.Cipher.Broadcast.{joining, arriving, joining-arriving}
use libsignal_node.Tests.Fixtures.{pair, first_key}

abbrev four : List (Bytes × Bool)
four = (1 ∷ [], true) ∷ (2 ∷ [], false) ∷ ([], true) ∷ (4 ∷ 5 ∷ [], true) ∷ []

-- The member has a state of another id already.
abbrev earlier : SenderKeyRecord
earlier = new_state 8 3 (replicate 32 4) (pair 2).pub_key none ∷ []

joining-arriving_example :
    joining sample sample_laws 7 first_key (pair 9) (some earlier) four ≡ ok (arriving four)
joining-arriving_example =
    joining-arriving sample sample_laws 7 first_key (pair 9) (some earlier) four (omega arith) refl
      (record { priv_size = refl; public = refl }) (refl, tt) (omega arith) (omega arith)

abbrev sender_state : SenderKeyState
sender_state = new_state 7 0 first_key (pair 9).pub_key (some (pair 9).priv_key)

abbrev member_state : SenderKeyState
member_state = new_state 7 0 first_key (pair 9).pub_key none

member : IsMember sample sample_laws (pair 9).priv_key 0 (sender_state ∷ []) (member_state ∷ [])
unfolding get_sender_key_state
member = record {
  sender = sender_state;
  member = member_state;
  sends = refl;
  reads = refl;
  priv_size = refl;
  signs = refl;
  checks = refl;
  id_fits = omega arith;
  same_id = refl;
  ahead = sym (chain_after-zero sample sample_laws member_state.sender_chain_key);
  sound = record { below = tt; distinct = tt };
  sound' = record { below = tt; distinct = tt };
}

-- One message, its bytes and the member's record once it has been read.
delivered :
    (bytes : Bytes) × (rs' : SenderKeyRecord) × (rr' : SenderKeyRecord) × (group_encrypt sample
        (some (sender_state ∷ []))
        (6 ∷ [])
      ≡ ok (bytes, rs'))
    × (group_decrypt sample (some (member_state ∷ [])) bytes ≡ ok (6 ∷ [], rr'))
unfolding member
delivered =
    let (bytes, rs', rr', sends, reads, _, _, _, _) =
      group_encrypt-IsMember sample sample_laws (pair 9).priv_key (6 ∷ []) 0 (sender_state ∷ [])
        (member_state ∷ []) member (omega arith) (omega arith) in
    (bytes, rs', rr', sends, reads)

abbrev others : List Bytes
others = delivered.0 ∷ (51 ∷ []) ∷ []

group_decrypt-replay_example :
    group_decrypt sample (some (read_all sample others delivered.2)) delivered.0
    ≡ err (sender_key_error "Received message with old counter")
group_decrypt-replay_example =
    group_decrypt-replay sample sample_laws (member_state ∷ []) delivered.2 delivered.0 (6 ∷ [])
      others (record { below = tt; distinct = tt }, tt) delivered.4
