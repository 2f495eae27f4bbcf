-- ===== src/Tests/Conversations.antt =====
-- A handshake and a conversation of three messages on the sample platform.
use libsignal_node.Common.{
  ℕ, ◌≡◌, ◌≢◌, refl, ap, arith, ◌+◌, Bytes, List, [], ◌∷◌, none, some, true, false, replicate, ok,
}
use libsignal_node.Platform.{KeyPair}
use libsignal_node.Platform.Sample.{sample, sample_laws}
use libsignal_node.Crypto.{ascii, set_bytes, calculate_mac, expand, derive_secrets}
use libsignal_node.Curve.{
  calculate_agreement, scrub_pub_key_format, validate_priv_key, assert_not_low_order_secret,
}
use libsignal_node.Session.Entry.{SessionEntry}
use libsignal_node.Session.Handshake.{
  agree, init_session, three_agreements, fourth_agreement, root_from,
}
use libsignal_node.Session.Handshake.Agreement.{IsKeyPair}
use libsignal_node.Session.Conversation.Whole.{converse, texts, AllDrawn, converse-init_session}
use libsignal_node.Tests.Fixtures.{pair}

pair-IsKeyPair : (n : ℕ) → IsKeyPair sample (pair n)
pair-IsKeyPair n = record { priv_size = refl; public = refl }

abbrev three : List (Bytes × KeyPair)
three = ((104 ∷ []), pair 7) ∷ ((105 ∷ []), pair 8) ∷ ([], pair 9) ∷ []

abbrev root : Bytes
unfolding agree calculate_agreement scrub_pub_key_format validate_priv_key
    assert_not_low_order_secret three_agreements fourth_agreement root_from derive_secrets
    calculate_mac expand ascii set_bytes
root =
    elim (agree sample true (pair 1) (some (pair 2)) (pair 2) (pair 3).pub_key
      (some (pair 5).pub_key) (pair 4).pub_key) [ ok r ↦ r | _ ↦ [] ]

agrees :
    agree sample true
      (pair 1)
      (some (pair 2))
      (pair 2)
      (pair 3).pub_key
      (some (pair 5).pub_key)
      (pair 4).pub_key
    ≡ ok root
unfolding agree calculate_agreement scrub_pub_key_format validate_priv_key
    assert_not_low_order_secret three_agreements fourth_agreement root_from derive_secrets
    calculate_mac expand ascii set_bytes
agrees = refl

abbrev Agreeing : ℕ → ℕ → Type 0
Agreeing m n =
    calculate_agreement sample (pair m).pub_key (pair n).priv_key ≡ ok (replicate 32 (m + n))

agreeing : Agreeing 4 6 × Agreeing 6 7 × Agreeing 7 8 × Agreeing 8 9
unfolding calculate_agreement scrub_pub_key_format validate_priv_key assert_not_low_order_secret
agreeing = (refl, refl, refl, refl)

second : Bytes → ℕ
second (x ∷ y ∷ b) = y
second _ = 0

apart : (m n : ℕ) → m ≢ n → (pair m).pub_key ≢ (pair n).pub_key
unfolding second
apart m n ne e = ne (ap second e)

three_drawn : AllDrawn sample (pair 6) ((pair 6).pub_key ∷ []) three
three_drawn = (
  pair-IsKeyPair 7,
  (_, agreeing.1),
  (apart 6 7 (omega arith), tt),
  (
    pair-IsKeyPair 8,
    (_, agreeing.2),
    (apart 7 8 (omega arith), (apart 6 8 (omega arith), tt)),
    (
      pair-IsKeyPair 9,
      (_, agreeing.3),
      (apart 8 9 (omega arith), (apart 7 9 (omega arith), (apart 6 9 (omega arith), tt))),
      tt,
    ),
  ),
)

converse-init_session_example :
    (ours : SessionEntry) × (theirs : SessionEntry) × (init_session sample 10
        (pair 6)
        (pair 1)
        true
        (some (pair 2))
        none
        (pair 3).pub_key
        (some (pair 5).pub_key)
        (some (pair 4).pub_key)
        (some 77)
      ≡ ok ours)
    × (init_session sample 11
          (pair 0)
          (pair 3)
          false
          (some (pair 5))
          (some (pair 4))
          (pair 1).pub_key
          (some (pair 2).pub_key)
          none
          (some 78)
        ≡ ok theirs)
    × (converse sample three
          (pair 1).pub_key
          (pair 3).pub_key
          (record ours { pending_pre_key = none })
          theirs
        ≡ ok (texts three))
converse-init_session_example =
    converse-init_session sample sample_laws (pair 1) (pair 2) (pair 3) (pair 4) (pair 6) (pair 0)
      (some (pair 5)) root (replicate 32 10) 10 11 (some 77) (some 78) none three (pair-IsKeyPair 1)
      (pair-IsKeyPair 2) (pair-IsKeyPair 3) (pair-IsKeyPair 4) (pair-IsKeyPair 6) (pair-IsKeyPair 5)
      agrees agreeing.0 (apart 6 4 (omega arith)) (apart 4 2 (omega arith)) three_drawn
