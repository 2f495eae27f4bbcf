-- ===== src/Tests/Stores.antt =====
-- The storage in memory and the sender key record on concrete values.
use libsignal_node.Common.{
  nat_eq, ◌≤◌, ◌≡◌, refl, arith, [], ◌∷◌, none, some, true, ◌==◌, bytes_eq, false, replicate,
  length, lookup, bytes_eq,
}
use libsignal_node.Storage.Interface.{Direction}
use libsignal_node.PreKey.KeyHelper.{SignedPreKey}
use libsignal_node.Storage.Memory.Signed.{store_signed_pre_key_lem, store_signed_pre_key-expired}
use libsignal_node.Storage.Memory.{
  store_signed_pre_key, load_signed_pre_key, MemorySignalStorage, is_trusted_identity,
  save_identity, reserve_pre_key, has_pre_key,
}
use libsignal_node.Storage.Memory.Trust.{
  is_trusted_identity-is_trusted_identity, is_trusted_identity-save_identity,
  reserve_pre_key-reserve_pre_key,
}
use libsignal_node.Group.State.{new_state}
use libsignal_node.Group.Record.{
  SenderKeyRecord, max_states, get_sender_key_state, add_sender_key_state,
}
use libsignal_node.Group.Record.Bounds.{UniqueIds, add_sender_key_state_lem}
use libsignal_node.Tests.Fixtures.{pair, store, alice, bob}

first_use : (is_trusted_identity "bob" bob.pub_key Direction.sending store).0 ≡ true
unfolding is_trusted_identity lookup
first_use = refl

is_trusted_identity-is_trusted_identity_example :
    is_trusted_identity "bob" alice.pub_key Direction.receiving
      (is_trusted_identity "bob" bob.pub_key Direction.sending store).1
    ≡ (
      bob.pub_key == alice.pub_key,
      (is_trusted_identity "bob" bob.pub_key Direction.sending store).1,
    )
is_trusted_identity-is_trusted_identity_example =
    is_trusted_identity-is_trusted_identity "bob" bob.pub_key alice.pub_key Direction.sending
      Direction.receiving store first_use

is_trusted_identity-save_identity_example :
    is_trusted_identity "bob" alice.pub_key Direction.sending
      (save_identity "bob" alice.pub_key store).1
    ≡ (alice.pub_key == alice.pub_key, (save_identity "bob" alice.pub_key store).1)
is_trusted_identity-save_identity_example =
    is_trusted_identity-save_identity "bob" alice.pub_key alice.pub_key Direction.sending store

reserved : (reserve_pre_key 3 store).0 ≡ true
unfolding reserve_pre_key has_pre_key lookup
reserved = refl

reserve_pre_key-reserve_pre_key_example :
    reserve_pre_key 3 (reserve_pre_key 3 store).1 ≡ (false, (reserve_pre_key 3 store).1)
reserve_pre_key-reserve_pre_key_example = reserve_pre_key-reserve_pre_key 3 store reserved

-- A full record.
abbrev five_states : SenderKeyRecord
five_states =
    new_state 1 0 [] [] none
    ∷ new_state 2 0 [] [] none
    ∷ new_state 3 0 [] [] none
    ∷ new_state 4 0 [] [] none
    ∷ new_state 5 0 [] [] none
    ∷ []

add_sender_key_state_lem_example :
    let r' = add_sender_key_state 6 0 (replicate 32 9) bob.pub_key none five_states in
    let s = new_state 6 0 (replicate 32 9) bob.pub_key none in
    (length r' ≤ max_states)
    × UniqueIds r'
    × (get_sender_key_state none r' ≡ some s)
    × (get_sender_key_state (some 6) r' ≡ some s)
add_sender_key_state_lem_example =
    add_sender_key_state_lem 6 0 (replicate 32 9) bob.pub_key none five_states
      (refl, (refl, (refl, (refl, (refl, tt))))) (omega arith)

-- Signed prekeys: the second is the latest, and the first was retired at time 10.
abbrev first_signed : SignedPreKey
first_signed = record { key_id = 1; key_pair = pair 5; signature = replicate 64 1; created_at = 0 }

abbrev second_signed : SignedPreKey
second_signed = record first_signed { key_id = 2; key_pair = pair 6 }

abbrev third_signed : SignedPreKey
third_signed = record first_signed { key_id = 3; key_pair = pair 7 }

abbrev rotated : MemorySignalStorage
rotated = record store {
  signed_pre_keys = (1, pair 5) ∷ (2, pair 6) ∷ [];
  latest_signed_pre_key = some second_signed;
  retired_signed_pre_keys = (1, 10) ∷ [];
  signed_pre_key_grace_period = 100;
}

rotated_2 : load_signed_pre_key 2 rotated ≡ some (pair 6)
unfolding load_signed_pre_key lookup
rotated_2 = refl

absent_2 : lookup 2 rotated.retired_signed_pre_keys ≡ none
unfolding lookup
absent_2 = refl

absent_3 : lookup 3 rotated.retired_signed_pre_keys ≡ none
unfolding lookup
absent_3 = refl

retired_1 : lookup 1 rotated.retired_signed_pre_keys ≡ some 10
unfolding lookup
retired_1 = refl

store_signed_pre_key_lem_example :
    let m' = store_signed_pre_key 50 third_signed rotated in
    (m'.latest_signed_pre_key ≡ some third_signed)
    × (load_signed_pre_key 3 m' ≡ some (pair 7))
    × (load_signed_pre_key 2 m' ≡ some (pair 6))
store_signed_pre_key_lem_example =
    store_signed_pre_key_lem 50 third_signed second_signed (pair 6) rotated refl rotated_2 absent_3
      absent_2 (omega arith) (omega arith)

store_signed_pre_key-expired_example :
    let m' = store_signed_pre_key 500 first_signed rotated in
    (m'.latest_signed_pre_key ≡ some first_signed) × (load_signed_pre_key 1 m' ≡ none)
store_signed_pre_key-expired_example =
    store_signed_pre_key-expired 500 10 first_signed second_signed rotated refl (omega arith)
      retired_1 refl
