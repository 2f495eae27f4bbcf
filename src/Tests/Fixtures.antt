-- ===== src/Tests/Fixtures.antt =====
-- Two parties and the two ends of one chain, on the sample platform.
use libsignal_node.Storage.Memory.{MemorySignalStorage, IdentityTrustPolicy}
use libsignal_node.Common.{
  ℕ, refl, arith, Bytes, [], ◌∷◌, none, some, replicate, pos, minus_one, ◌+ℤ◌, lookup,
}
use libsignal_node.Platform.{KeyPair}
use libsignal_node.Platform.Sample.{sample}
use libsignal_node.Session.Entry.{Chain, ChainType, BaseKeyType, SessionEntry, get_chain}
use libsignal_node.Session.Chain.Keys.{chain_key_after}
use libsignal_node.Session.Message.RoundTrip.{InSync}

abbrev pub pair : ℕ → KeyPair
pair n = record { pub_key = 5 ∷ replicate 32 n; priv_key = replicate 32 n }

abbrev pub alice : KeyPair
alice = pair 1

abbrev pub bob : KeyPair
bob = pair 2

abbrev pub ephemeral : KeyPair
ephemeral = pair 3

abbrev pub first_key : Bytes
first_key = replicate 32 7

abbrev pub sending : Chain
sending = record {
  message_keys = [];
  chain_key = record { counter = pos 0; key = some (chain_key_after sample 1 first_key) };
  chain_type = ChainType.sending;
}

abbrev pub receiving : Chain
receiving = record {
  message_keys = [];
  chain_key = record { counter = minus_one; key = some first_key };
  chain_type = ChainType.receiving;
}

abbrev pub session : KeyPair → Bytes → Chain → SessionEntry
session ours remote c = record {
  registration_id = some 77;
  current_ratchet = record {
    ephemeral_key_pair = ours;
    last_remote_ephemeral_key = ephemeral.pub_key;
    previous_counter = pos 0;
    root_key = replicate 32 9;
  };
  index_info = record {
    base_key = ephemeral.pub_key;
    base_key_type = BaseKeyType.theirs;
    closed = minus_one;
    used = 0;
    created = 0;
    remote_identity_key = remote;
  };
  pending_pre_key = none;
  chains = (sample.to_base64 ephemeral.pub_key, c) ∷ [];
}

abbrev pub sender : SessionEntry
sender = session ephemeral bob.pub_key sending

abbrev pub receiver : SessionEntry
receiver = session (pair 4) alice.pub_key receiving

-- One message of the sender's is lost.
unfoldable pub in_sync : InSync sample alice.pub_key bob.pub_key 1 sender receiver
unfolding get_chain lookup ◌+ℤ◌
in_sync = record {
  sending = sending;
  receiving = receiving;
  chain_key = first_key;
  ephemeral_size = refl;
  sends = refl;
  sends_type = refl;
  receives = refl;
  receives_type = refl;
  sending_chain = record { started = omega arith; below = tt };
  receiving_chain = record { started = omega arith; below = tt };
  receiving_key = refl;
  sending_key = refl;
  counters = refl;
  remote = refl;
  remote' = refl;
}

abbrev pub store : MemorySignalStorage
store = record {
  identity_key_pair = alice;
  registration_id = 77;
  sessions = [];
  pre_keys = (3, pair 3) ∷ (4, pair 4) ∷ [];
  published_pre_keys = 4 ∷ [];
  signed_pre_keys = [];
  trusted_identities = [];
  sender_keys = [];
  retired_signed_pre_keys = [];
  next_pre_key_id = 5;
  latest_signed_pre_key = none;
  signed_pre_key_grace_period = 0;
  identity_trust_policy = IdentityTrustPolicy.tofu;
  identity_changes = [];
  removed_pre_keys = [];
}
