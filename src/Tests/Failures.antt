-- ===== src/Tests/Failures.antt =====
-- Jobs that throw, on the storage in memory.
use libsignal_node.Common.{◌≡◌, string_eq, [], none}
use libsignal_node.PreKey.Validator.{DeviceKeyBundle}
use libsignal_node.Storage.Memory.{MemorySignalStorage}
use libsignal_node.Tests.Fixtures.{pair, store}

-- A bundle whose signature is too short.
abbrev device : DeviceKeyBundle
device = record {
  registration_id = 5;
  identity_key = (pair 2).pub_key;
  signed_pre_key = record { key_id = 1; public_key = (pair 4).pub_key; signature = [] };
  pre_key = none;
}

-- The sessions and the prekeys are those of `store`.
abbrev Same : MemorySignalStorage → Type 0
Same m = (m.sessions ≡ store.sessions) × (m.pre_keys ≡ store.pre_keys)
