-- ===== src/Tests/Pools.antt =====
-- Two bundles from one pool.
use libsignal_node.Common.{lookup, put, ◌≡◌, ◌≢◌, refl, [], ◌∷◌, none, some, false, ok, replicate}
use libsignal_node.Platform.Sample.{sample}
use libsignal_node.PreKey.KeyHelper.{
  SignedPreKey, batch_from, should_rotate_signed_pre_key, pre_keys_batch, wrap_pre_key_id,
}
use libsignal_node.PreKey.Validator.{PreKeyBundle, assert_valid_device_key_bundle}
use libsignal_node.Storage.Memory.{
  MemorySignalStorage, sort_numbers, list_available_pre_key_ids, load_pre_key, reserve_pre_key,
  store_pre_key, set_next_pre_key_id,
}
use libsignal_node.PreKey.Pool.{PreKeyPoolManager, Draws, memory_pool}
use libsignal_node.PreKey.Pool.Bundles.{CreatePreKeyBundleOptions, create_bundle, bundle_with}
use libsignal_node.PreKey.Pool.Distinct.{create_bundle-create_bundle}
use libsignal_node.Tests.Fixtures.{pair, alice, store}

abbrev pool : PreKeyPoolManager
pool = record {
  identity_key_pair = alice;
  min_count = 1;
  replenish_count = 2;
  signed_pre_key_max_age = 1000;
}

abbrev signed : SignedPreKey
signed = record { key_id = 1; key_pair = pair 9; signature = replicate 64 1; created_at = 100 }

abbrev stocked : MemorySignalStorage
stocked = record store { latest_signed_pre_key = some signed }

abbrev draws : Draws
draws = record { now = 200; ensured = λ i. pair 8; replenished = λ i. pair 7; signed = pair 6 }

abbrev options : CreatePreKeyBundleOptions
options = record { registration_id = none; pre_key_id = none; reserve = none }

by_default : options.reserve ≢ some false
by_default e = cc

-- The storage after the first bundle, which publishes prekey 3.
abbrev after : MemorySignalStorage
after = record stocked { published_pre_keys = 4 ∷ 3 ∷ [] }

first :
    create_bundle memory_pool pool sample draws options stocked
    ≡ (ok (bundle_with memory_pool pool signed 77 3 (pair 3)), after)
unfolding create_bundle list_available_pre_key_ids sort_numbers should_rotate_signed_pre_key
    load_pre_key lookup assert_valid_device_key_bundle reserve_pre_key
first = refl

-- No prekey is left, so two are made.
abbrev last : MemorySignalStorage
last = record stocked {
  pre_keys = (3, pair 3) ∷ (4, pair 4) ∷ (5, pair 8) ∷ (6, pair 8) ∷ [];
  published_pre_keys = 4 ∷ 3 ∷ 5 ∷ [];
  next_pre_key_id = 7;
}

second :
    create_bundle memory_pool pool sample draws options after
    ≡ (ok (bundle_with memory_pool pool signed 77 5 (pair 8)), last)
unfolding create_bundle list_available_pre_key_ids sort_numbers should_rotate_signed_pre_key
    load_pre_key lookup assert_valid_device_key_bundle reserve_pre_key put store_pre_key
    pre_keys_batch wrap_pre_key_id set_next_pre_key_id batch_from
second = refl

create_bundle-create_bundle_example :
    (k : PreKeyBundle) × (k' : PreKeyBundle) × ((bundle_with memory_pool pool signed 77 3
        (pair 3)).pre_key
      ≡ some k)
    × ((bundle_with memory_pool pool signed 77 5 (pair 8)).pre_key ≡ some k')
    × (k.key_id ≢ k'.key_id)
create_bundle-create_bundle_example =
    create_bundle-create_bundle sample pool draws draws options options stocked after last
      (bundle_with memory_pool pool signed 77 3 (pair 3))
      (bundle_with memory_pool pool signed 77 5 (pair 8)) by_default by_default first second
