-- ===== src/Tests/Files.antt =====
-- The file storage on concrete files.
use libsignal_node.Common.{
  lookup, ℕ, ◌≡◌, refl, [], none, some, true, false, ℤ, ok, err, ◌⊎◌, plain_error,
  storage_conflict_error, if◌then◌else◌, ◌==◌, string_eq, nat_eq,
}
use libsignal_node.Platform.Sample.{sample, sample_laws}
use libsignal_node.Storage.Memory.{MemorySignalStorage, sort_numbers}
use libsignal_node.Storage.Memory
use libsignal_node.Storage.File.Snapshot.{
  raw_of, to_snapshot, apply_snapshot, deserialize_all, normalize_persisted_state,
  assert_key_pair_map, assert_number_array, assert_retired_signed_pre_keys, assert_buffer_map,
  assert_signed_pre_key, distinct_ids,
}
use libsignal_node.Storage.File.Disk.{
  FilePlatform, Files, run_ops, save_ops, recovered_text, state, invalid, load_persisted_state,
  as_corrupt,
}
use libsignal_node.Storage.File.Saving.{
  FileSignalStorage, World, Attempt, save_unlocked, save_now, assert_revision_current,
}
use libsignal_node.Storage.File.Methods.{reserve_pre_key}
use libsignal_node.Storage.File.Opening.{
  FileSignalStorageOptions, create, new_storage, default_grace_period,
}
use libsignal_node.Storage.File.Crash.{recovered_text-run_ops, IsRestored, save_unlocked-err}
use libsignal_node.Storage.File.Conflict.{save_now-save_now}
use libsignal_node.Storage.File.Reserving.{reserve_pre_key-IsAtomic, IsAtomic}
use libsignal_node.Storage.File.Recovery.{create-run_ops}
use libsignal_node.Tests.Fixtures.{alice, store}

-- Two texts, of the storage at its first and at its second revision.
abbrev json : FilePlatform
json = record {
  stringify_state =
      λ r. elim r.revision [ none ↦ "" | some n ↦ if n == 1 then "first" else "second" ];
  stringify_payload = λ e. "";
  parse = λ text.
      if text == "first"
      then state (raw_of (to_snapshot sample 1 store))
      else if text == "second"
      then state (raw_of (to_snapshot sample 2 store))
      else invalid;
  gcm_encrypt = λ key iv text. ([], []);
  gcm_decrypt = λ key iv tag text. err (plain_error "no key");
}

abbrev opened : FileSignalStorage
opened = record {
  memory = store;
  revision = 0;
  encryption_key = none;
  backup_enabled = true;
  lock_enabled = true;
  save_timer = false;
  dirty = false;
  closed = false;
  save_errors = [];
}

abbrev no_files : Files
no_files = record { main = none; backup = none; temporary = none }

abbrev world : World
world = record { storage = opened; files = no_files }

abbrev attempt : ℕ → Attempt
attempt n = record { lock = ok tt; completed = n; cleaned = true; restored = true; iv = [] }

abbrev old_files : Files
old_files = record { main = some "first"; backup = none; temporary = none }

recovered_text-run_ops_example :
    (recovered_text true (run_ops 3 (save_ops true "second" old_files) old_files)
      ≡ recovered_text true old_files)
    ⊎ (recovered_text true (run_ops 3 (save_ops true "second" old_files) old_files) ≡ some "second")
recovered_text-run_ops_example = recovered_text-run_ops true "second" 3 old_files

stopped :
    save_unlocked sample json (attempt 1) world
    ≡ (err (plain_error "save failed"), (save_unlocked sample json (attempt 1) world).1)
unfolding save_unlocked save_ops
stopped = refl

save_unlocked-err_example :
    let w' = (save_unlocked sample json (attempt 1) world).1 in
    (w'.storage ≡ opened)
    × (recovered_text true w'.files ≡ recovered_text true no_files)
    × IsRestored true no_files w'.files
save_unlocked-err_example =
    save_unlocked-err sample json (attempt 1) world (save_unlocked sample json (attempt 1) world).1
      (plain_error "save failed") stopped

saved : save_now sample json (attempt 2) world ≡ (ok tt, (save_now sample json (attempt 2) world).1)
unfolding save_now save_ops assert_revision_current
saved = refl

reads :
    json.parse (json.stringify_state (raw_of (to_snapshot sample 1 store)))
    ≡ state (raw_of (to_snapshot sample 1 store))
unfolding raw_of to_snapshot
reads = refl

save_now-save_now_example :
    let w' = (save_now sample json (attempt 2) world).1 in
    (n : ℤ) × (save_now sample json (attempt 4) (record { storage = opened; files = w'.files }) ≡ (
      err (storage_conflict_error 0 n),
      record { storage = record opened { dirty = true }; files = w'.files },
    ))
save_now-save_now_example =
    save_now-save_now sample sample_laws json (attempt 2) (attempt 4) world
      (save_now sample json (attempt 2) world).1 opened saved refl refl refl refl reads

reserve_pre_key-IsAtomic_example :
    IsAtomic sample json
      (attempt 2)
      world
      (Memory.reserve_pre_key 3 store)
      (reserve_pre_key sample json 3 (attempt 2) world)
reserve_pre_key-IsAtomic_example = reserve_pre_key-IsAtomic sample json 3 (attempt 2) world

abbrev options : FileSignalStorageOptions
options = record {
  signed_pre_key_grace_period = none;
  encryption_key = none;
  identity_trust_policy = none;
  lock = none;
  backup = none;
}

abbrev loaded : MemorySignalStorage
loaded = record store { signed_pre_key_grace_period = default_grace_period }

abbrev at_revision : ℕ → FileSignalStorage
at_revision n = record opened { memory = loaded; revision = n }

-- Both texts can be read.
first_loads :
    load_persisted_state sample json (some "first") none true
    ≡ ok (to_snapshot sample 1 store, false)
unfolding load_persisted_state raw_of to_snapshot as_corrupt normalize_persisted_state
    assert_key_pair_map assert_number_array sort_numbers assert_retired_signed_pre_keys
    assert_buffer_map assert_signed_pre_key deserialize_all distinct_ids
first_loads = refl

second_loads :
    load_persisted_state sample json (some "second") none true
    ≡ ok (to_snapshot sample 2 store, false)
unfolding load_persisted_state raw_of to_snapshot as_corrupt normalize_persisted_state
    assert_key_pair_map assert_number_array sort_numbers assert_retired_signed_pre_keys
    assert_buffer_map assert_signed_pre_key deserialize_all distinct_ids
second_loads = refl

applies :
    (n : ℕ)
    → apply_snapshot sample (to_snapshot sample n store) (new_storage alice 77 options).memory
      ≡ ok loaded
unfolding apply_snapshot to_snapshot new_storage deserialize_all sort_numbers lookup
applies n = refl

recovers : recovered_text true old_files ≡ some "first"
unfolding recovered_text
recovers = refl

create-run_ops_example :
    ((create sample json options alice 77
        (attempt 2)
        (run_ops 3 (save_ops true "second" old_files) old_files)).0
      ≡ ok (at_revision 1))
    ⊎ ((create sample json options alice 77
          (attempt 2)
          (run_ops 3 (save_ops true "second" old_files) old_files)).0
        ≡ ok (at_revision 2))
unfolding new_storage to_snapshot
create-run_ops_example =
    create-run_ops sample json options alice 77 (attempt 2) old_files 3 "first" "second"
      (at_revision 1) (at_revision 2) refl refl recovers
      (to_snapshot sample 1 store, loaded, first_loads, applies 1, refl)
      (to_snapshot sample 2 store, loaded, second_loads, applies 2, refl)
