-- ===== src/Storage/File/Opening.antt =====
-- `FileSignalStorage.create` of src/file-storage.ts and the constructor. The keys of a new identity are drawn;
-- the operations on the files of `create` itself are taken to succeed, except those of its save. Log messages,
-- file modes and the copy of a corrupt snapshot that is kept aside are not modelled.
use libsignal_node.Common.{
  ℕ, ◌*◌, String, Bytes, Option, none, some, Bool, true, false, not, nat_eq, [], if◌then◌else◌,
  Result, SignalError, ok, err, plain_error, range_error, corrupt_storage_file,
}
use libsignal_node.Platform.{Platform, KeyPair}
use libsignal_node.Storage.Memory.{IdentityTrustPolicy}
use libsignal_node.Storage.File.Snapshot.{PersistedState, value_or, apply_snapshot}
use libsignal_node.Storage.File.Disk.{FilePlatform, Files, load_persisted_state}
use libsignal_node.Storage.File.Saving.{FileSignalStorage, Attempt, save_unlocked, key_size_ok}

pub record FileSignalStorageOptions : Type 0 where
  pub signed_pre_key_grace_period : Option ℕ
  pub encryption_key : Option Bytes
  pub identity_trust_policy : Option IdentityTrustPolicy
  pub lock : Option Bool
  pub backup : Option Bool

abbrev pub default_grace_period : ℕ
default_grace_period = 3 * 24 * 60 * 60 * 1000

-- `option !== false`
abbrev pub not_false : Option Bool → Bool
not_false o = value_or o true

unfoldable pub new_storage : KeyPair → ℕ → FileSignalStorageOptions → FileSignalStorage
new_storage identity_key_pair registration_id options = record {
  memory = record {
    identity_key_pair = identity_key_pair;
    registration_id = registration_id;
    sessions = [];
    pre_keys = [];
    published_pre_keys = [];
    signed_pre_keys = [];
    trusted_identities = [];
    sender_keys = [];
    retired_signed_pre_keys = [];
    next_pre_key_id = 1;
    latest_signed_pre_key = none;
    signed_pre_key_grace_period = value_or options.signed_pre_key_grace_period default_grace_period;
    identity_trust_policy = value_or options.identity_trust_policy IdentityTrustPolicy.tofu;
    identity_changes = [];
    removed_pre_keys = [];
  };
  revision = 0;
  encryption_key = options.encryption_key;
  backup_enabled = not_false options.backup;
  lock_enabled = not_false options.lock;
  save_timer = false;
  dirty = false;
  closed = false;
  save_errors = [];
}

abbrev is_corrupt : SignalError → Bool
is_corrupt (corrupt_storage_file text) = true
is_corrupt _ = false

abbrev usable_backup : FileSignalStorageOptions → Files → Option String
usable_backup options d = if not_false options.backup then d.backup else none

module _ (p : Platform) (f : FilePlatform) where
  abbrev Loaded : Type 0
  Loaded = Option (PersistedState × Bool)

  -- The state that `create` finds, and the files once it has restored the backup.
  unfoldable pub find_state : FileSignalStorageOptions → Files → Result Loaded × Files
  find_state options d = elim d.main [
    | some text ↦ elim (load_persisted_state p f (some text) options.encryption_key true) [
      | ok loaded ↦ (ok (some loaded), d)
      | err e ↦
          if is_corrupt e
          then elim (usable_backup options d) [
            | none ↦ (err e, d)
            | some saved ↦
                elim (load_persisted_state p f (some saved) options.encryption_key true) [
                  | ok loaded ↦ (ok (some loaded), record d { main = some saved })
                  | err _ ↦ (err (plain_error "backup recovery failed"), d)
                ]
          ]
          else (err e, d)
    ]
    | none ↦ elim (usable_backup options d) [
      | none ↦ (ok none, d)
      | some saved ↦ elim (load_persisted_state p f (some saved) options.encryption_key true) [
        | ok loaded ↦ (ok (some loaded), record d { main = some saved })
        | err _ ↦ (err (plain_error "backup recovery failed"), d)
      ]
    ]
  ]

  -- `storage.dirty = true; storage.saveUnlocked()`
  abbrev saved : Attempt → FileSignalStorage → Files → Result FileSignalStorage × Files
  saved a storage d =
      let (r, w) =
        save_unlocked p f a (record { storage = record storage { dirty = true }; files = d }) in
      elim r [ err e ↦ (err e, w.files) | ok _ ↦ (ok w.storage, w.files) ]

  -- What is made of the state that was found.
  unfoldable pub open_state :
      FileSignalStorageOptions
      → KeyPair
      → ℕ
      → Attempt
      → Loaded
      → Files
      → Result FileSignalStorage × Files
  unfolding new_storage
  open_state options identity registration_id a none d =
      saved a (new_storage identity registration_id options) d
  open_state options identity registration_id a (some (found, migrated)) d =
      let fresh = new_storage found.identity_key_pair found.registration_id options in
      elim (apply_snapshot p found fresh.memory) [
        | err e ↦ (err e, d)
        | ok memory ↦
            let storage = record fresh { memory = memory; revision = found.revision } in
            if migrated then saved a storage d else (ok storage, d)
      ]

  unfoldable pub create :
      FileSignalStorageOptions → KeyPair → ℕ → Attempt → Files → Result FileSignalStorage × Files
  unfolding find_state open_state
  create options identity registration_id a d =
      if not (key_size_ok options.encryption_key)
      then (err (range_error "encryptionKey must be 32 bytes"), d)
      else elim (if not_false options.lock then a.lock else ok tt) [
        | err e ↦ (err e, d)
        | ok _ ↦
            let clean = record d { temporary = none } in
            let (found, d') = find_state options clean in
            elim found [
              | err e ↦ (err e, d')
              | ok loaded ↦ open_state options identity registration_id a loaded d'
            ]
      ]
