-- ===== src/Tests/Jobs.antt =====
-- The job queue and the prekey ids on concrete values.
use libsignal_node.Common.{ℕ, ◌+◌, ◌≤◌, ◌≡◌, arith, List, [], ◌∷◌, ◌++◌, none, some, ok, ◌⊎◌}
use libsignal_node.Queue.{Bucket, active}
use libsignal_node.Queue.Fifo.{Event, queued, settled, pending, run, run_fifo}
use libsignal_node.PreKey.Validator.{max_key_id, assert_key_id, assert_registration_id}
use libsignal_node.PreKey.KeyHelper.{
  wrap_pre_key_id, pre_keys_batch, batch_from, generate_registration_id,
}
use libsignal_node.PreKey.Batch.{generate_pre_keys_batch}
use libsignal_node.PreKey.Batch.Complete.{generate_pre_keys_batch_lem}
use libsignal_node.PreKey.Ids.{AllClear, wrap_pre_key_id_range, generate_registration_id_valid}
use libsignal_node.Tests.Fixtures.{pair}

abbrev busy : Bucket
busy = active (record { queue = 4 ∷ 6 ∷ []; index = 0; limit = 1 })

abbrev history : List Event
history = settled ∷ queued 8 ∷ settled ∷ settled ∷ settled ∷ queued 9 ∷ []

run_fifo_example : (run busy history).0 ++ pending (run busy history).1 ≡ 4 ∷ 6 ∷ 8 ∷ 9 ∷ []
run_fifo_example = run_fifo busy history (omega arith, omega arith)

wrap_pre_key_id_range_example :
    (1 ≤ wrap_pre_key_id 0)
    × (assert_key_id (wrap_pre_key_id 0) "preKey.keyId" ≡ ok tt)
    × (wrap_pre_key_id (wrap_pre_key_id 0) ≡ wrap_pre_key_id 0)
    × (wrap_pre_key_id (0 + max_key_id) ≡ wrap_pre_key_id 0)
wrap_pre_key_id_range_example = wrap_pre_key_id_range 0

generate_pre_keys_batch_lem_example :
    let keys = batch_from 16777215 3 0 pair in
    ((generate_pre_keys_batch 16777215 3 pair 2 (1 ∷ 0 ∷ []) ≡ ok none)
      ⊎ (generate_pre_keys_batch 16777215 3 pair 2 (1 ∷ 0 ∷ []) ≡ ok (some keys)))
    × (generate_pre_keys_batch 16777215 3 pair 2 (1 ∷ 0 ∷ 0 ∷ 0 ∷ 0 ∷ []) ≡ ok (some keys))
    × (pre_keys_batch 16777215 3 pair ≡ ok keys)
generate_pre_keys_batch_lem_example =
    generate_pre_keys_batch_lem 16777215 3 pair 2 (1 ∷ 0 ∷ []) (omega arith)

generate_registration_id_valid_example :
    ((id : ℕ) × (generate_registration_id (0x4000 ∷ 5 ∷ []) ≡ some id)
      × (assert_registration_id id ≡ ok tt))
    ⊎ ((generate_registration_id (0x4000 ∷ 5 ∷ []) ≡ none) × AllClear (0x4000 ∷ 5 ∷ []))
generate_registration_id_valid_example = generate_registration_id_valid (0x4000 ∷ 5 ∷ [])
