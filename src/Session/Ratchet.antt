-- ===== src/Session/Ratchet.antt =====
-- `maybeStepRatchet` and `calculateRatchet` of src/session-cipher.ts. The key pair that the step
-- draws is an argument.
pub mod Trimming
pub mod Turning
pub mod Stepping
use libsignal_node.Common.{
  ℕ, Bytes, [], none, some, Bool, true, false, minus_one, ℤ, if◌then◌else◌, Result, ok, ◌>>=◌,
}
use libsignal_node.Platform.{Platform, KeyPair}
use libsignal_node.Crypto.{ascii, nth, derive_secrets}
use libsignal_node.Curve.{calculate_agreement}
use libsignal_node.Session.Entry.{
  Chain, ChainType, SessionEntry, get_chain, add_chain, delete_chain, update_chain,
  remove_old_receiver_chains,
}
use libsignal_node.Session.Chain.{fill_message_keys}

abbrev pub max_receiver_chains : ℕ
max_receiver_chains = 5

abbrev pub new_chain : Bytes → ChainType → Chain
new_chain key type = record {
  message_keys = [];
  chain_key = record { counter = minus_one; key = some key };
  chain_type = type;
}

module _ (p : Platform) where
  unfoldable pub calculate_ratchet : Bytes → Bool → SessionEntry → Result SessionEntry
  calculate_ratchet remote_key sending s = do
    shared_secret ← calculate_agreement p remote_key s.current_ratchet.ephemeral_key_pair.priv_key
    master_key ←
        derive_secrets p shared_secret s.current_ratchet.root_key (ascii "WhisperRatchet") (some 2)
    root_key ← nth master_key 0
    chain_key ← nth master_key 1
    s' ←
        add_chain p (if sending then s.current_ratchet.ephemeral_key_pair.pub_key else remote_key)
          (new_chain chain_key (if sending then ChainType.sending else ChainType.receiving)) s
    ok (record s' { current_ratchet = record s'.current_ratchet { root_key = root_key } })

  -- The chain of the last remote key is filled up to its end and closed.
  unfoldable pub close_previous : ℤ → SessionEntry → Result SessionEntry
  close_previous previous_counter s =
      let last = s.current_ratchet.last_remote_ephemeral_key in
      elim (get_chain p last s) [
        | none ↦ ok s
        | some c ↦ do
          filled ← fill_message_keys p previous_counter c
          ok (
              update_chain p last
                (record filled { chain_key = record filled.chain_key { key = none } }) s)
      ]

  -- The sending chain is deleted, and its counter is told to the remote side.
  unfoldable pub retire_sending : SessionEntry → Result SessionEntry
  retire_sending s =
      let ours = s.current_ratchet.ephemeral_key_pair.pub_key in
      elim (get_chain p ours s) [
        | none ↦ ok s
        | some c ↦ delete_chain p ours (record s {
          current_ratchet = record s.current_ratchet { previous_counter = c.chain_key.counter };
        })
      ]

  unfoldable pub step_ratchet : KeyPair → Bytes → ℤ → SessionEntry → Result SessionEntry
  step_ratchet fresh remote_key previous_counter s = do
    s1 ← close_previous previous_counter s
    s2 ← calculate_ratchet remote_key false s1
    s3 ← retire_sending s2
    let s4 : SessionEntry = record s3 {
      current_ratchet = record s3.current_ratchet { ephemeral_key_pair = fresh };
    }
    s5 ← calculate_ratchet remote_key true s4
    let s6 : SessionEntry = record s5 {
      current_ratchet = record s5.current_ratchet { last_remote_ephemeral_key = remote_key };
    }
    ok (remove_old_receiver_chains max_receiver_chains s6)

  unfoldable pub maybe_step_ratchet : KeyPair → Bytes → ℤ → SessionEntry → Result SessionEntry
  maybe_step_ratchet fresh remote_key previous_counter s = elim (get_chain p remote_key s) [
    | some _ ↦ ok s
    | none ↦ step_ratchet fresh remote_key previous_counter s
  ]
