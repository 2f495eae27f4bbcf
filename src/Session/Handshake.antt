-- ===== src/Session/Handshake.antt =====
-- `initSession` and `calculateSendingRatchet` of src/session-builder.ts: the X3DH key agreement. The key
-- pair that the initiator's ratchet draws and the clock are arguments, and so is our identity.
pub mod Agreement
use libsignal_node.Common.{
  ℕ, ◌+◌, ◌*◌, ◌≡◌, Bytes, [], ◌∷◌, Option, none, some, Bool, true, false, replicate, length,
  minus_one, pos, if◌then◌else◌, Result, ok, err, ◌>>=◌, ◌>>◌, or_throw, require, plain_error,
  type_error, not,
}
use libsignal_node.Platform.{Platform, KeyPair}
use libsignal_node.Crypto.{ascii, alloc, set_bytes, nth, derive_secrets}
use libsignal_node.Curve.{calculate_agreement}
use libsignal_node.Session.Entry.{SessionEntry, ChainType, BaseKeyType, add_chain}
use libsignal_node.Session.Ratchet.{new_chain}

abbrev both_given : Option KeyPair → Option Bytes → Bool
both_given (some _) (some _) = true
both_given _ _ = false

abbrev pub is_given {ℓ} : {A : Type ℓ} → Option A → Bool
is_given none = false
is_given (some _) = true

-- The secret before the one-time agreement: 32 bytes of 0xff, then the three agreements. The two sides
-- write the first two the other way round.
unfoldable pub three_agreements : Bool → ℕ → Bytes → Bytes → Bytes → Bytes
three_agreements is_initiator size a1 a2 a3 =
    let filled = set_bytes (replicate 32 0xff) 0 (alloc size) in
    set_bytes a3 (32 * 3) (
      if is_initiator
      then set_bytes a2 (32 * 2) (set_bytes a1 32 filled)
      else set_bytes a2 32 (set_bytes a1 (32 * 2) filled))

module _ (p : Platform) where
  -- `if (ourEphemeralKey && theirEphemeralPubKey)`: the fourth agreement.
  unfoldable pub fourth_agreement : Option KeyPair → Option Bytes → Bytes → Result Bytes
  fourth_agreement (some ours) (some theirs) secret = do
    a4 ← calculate_agreement p theirs ours.priv_key
    ok (set_bytes a4 (32 * 4) secret)
  fourth_agreement (some ours) none secret = ok secret
  fourth_agreement none theirs secret = ok secret

  unfoldable pub calculate_sending_ratchet : Bytes → SessionEntry → Result SessionEntry
  calculate_sending_ratchet remote_key s = do
    shared_secret ← calculate_agreement p remote_key s.current_ratchet.ephemeral_key_pair.priv_key
    master_key ←
        derive_secrets p shared_secret s.current_ratchet.root_key (ascii "WhisperRatchet") none
    root_key ← nth master_key 0
    chain_key ← nth master_key 1
    s' ←
        add_chain p s.current_ratchet.ephemeral_key_pair.pub_key
          (new_chain chain_key ChainType.sending) s
    ok (record s' { current_ratchet = record s'.current_ratchet { root_key = root_key } })

  -- The root key is the first block derived from the secret.
  unfoldable pub root_from : Bytes → Result Bytes
  root_from secret = do
    master_key ← derive_secrets p secret (alloc 32) (ascii "WhisperText") none
    nth master_key 0

  -- The shared root key of the two sides.
  unfoldable pub agree :
      Bool → KeyPair → Option KeyPair → KeyPair → Bytes → Option Bytes → Bytes → Result Bytes
  agree is_initiator our_identity our_ephemeral our_signed their_identity their_ephemeral
        their_signed =
      do
        let size : ℕ = if both_given our_ephemeral their_ephemeral then 32 * 5 else 32 * 4
        a1 ← calculate_agreement p their_signed our_identity.priv_key
        a2 ← calculate_agreement p their_identity our_signed.priv_key
        a3 ← calculate_agreement p their_signed our_signed.priv_key
        secret ←
            fourth_agreement our_ephemeral their_ephemeral
              (three_agreements is_initiator size a1 a2 a3)
        root_from secret

  unfoldable pub init_session :
      ℕ
      → KeyPair
      → KeyPair
      → Bool
      → Option KeyPair
      → Option KeyPair
      → Bytes
      → Option Bytes
      → Option Bytes
      → Option ℕ
      → Result SessionEntry
  init_session now fresh our_identity is_initiator our_ephemeral our_signed_input their_identity
        their_ephemeral their_signed_input registration_id =
      do
        require (not (is_given (if is_initiator then our_signed_input else none)))
            (plain_error "Invalid call to initSession")
        require (not (is_given (if is_initiator then none else their_signed_input)))
            (plain_error "Invalid call to initSession")
        their_signed ←
            or_throw (if is_initiator then their_signed_input else their_ephemeral)
              (type_error "undefined")
        our_signed ←
            or_throw (if is_initiator then our_ephemeral else our_signed_input)
              (type_error "undefined")
        root_key ←
            agree is_initiator our_identity our_ephemeral our_signed their_identity their_ephemeral
              their_signed
        base_key ←
            or_throw
              (if is_initiator
                then elim our_ephemeral [ none ↦ none | some k ↦ some k.pub_key ]
                else their_ephemeral)
              (type_error "undefined")
        let session : SessionEntry = record {
          registration_id = registration_id;
          current_ratchet = record {
            ephemeral_key_pair = if is_initiator then fresh else our_signed;
            last_remote_ephemeral_key = their_signed;
            previous_counter = pos 0;
            root_key = root_key;
          };
          index_info = record {
            base_key = base_key;
            base_key_type = if is_initiator then BaseKeyType.ours else BaseKeyType.theirs;
            closed = minus_one;
            used = now;
            created = now;
            remote_identity_key = their_identity;
          };
          pending_pre_key = none;
          chains = [];
        }
        if is_initiator then calculate_sending_ratchet their_signed session else ok session
