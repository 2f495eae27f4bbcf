-- ===== src/Storage/File/Recovery.antt =====
-- `create` of src/file-storage.ts after a save that was cut short.
use libsignal_node.Common.{
  ℕ, ◌≡◌, refl, ◌∙◌, Option, none, some, Bool, true, false, String, ok, ◌⊎◌, inl, inr, Bool-cases,
}
use libsignal_node.Platform.{Platform, KeyPair}
use libsignal_node.Storage.Memory.{MemorySignalStorage}
use libsignal_node.Storage.File.Snapshot.{PersistedState, apply_snapshot}
use libsignal_node.Storage.File.Disk.{
  FilePlatform, Files, load_persisted_state, run_ops, save_ops, recovered_text,
}
use libsignal_node.Storage.File.Saving.{FileSignalStorage, Attempt, key_size_ok, save_unlocked}
use libsignal_node.Storage.File.Opening.{
  FileSignalStorageOptions, new_storage, not_false, find_state, open_state, create,
}
use libsignal_node.Storage.File.Crash.{recovered_text-run_ops}

module _ (p : Platform) (f : FilePlatform) (options : FileSignalStorageOptions) where
  -- The text holds a state of the current version that passes the validation and becomes the storage.
  abbrev pub IsReadable : String → FileSignalStorage → Type 0
  IsReadable text s =
      (d : PersistedState) × (m : MemorySignalStorage) × (load_persisted_state p f (some text)
          options.encryption_key true
        ≡ ok (d, false))
      × (apply_snapshot p d (new_storage d.identity_key_pair d.registration_id options).memory
          ≡ ok m)
      × (s ≡ record (new_storage d.identity_key_pair d.registration_id options) {
        memory = m;
        revision = d.revision;
      })

  find_state-main :
      (d : Files) (text : String) (loaded : PersistedState × Bool)
      → d.main ≡ some text
      → load_persisted_state p f (some text) options.encryption_key true ≡ ok loaded
      → (find_state p f options d).0 ≡ ok (some loaded)
  unfolding find_state
  find_state-main d text loaded h k = rw (h, find_state, k) refl

  find_state-backup :
      (d : Files) (text : String) (loaded : PersistedState × Bool)
      → d.main ≡ none
      → not_false options.backup ≡ true
      → d.backup ≡ some text
      → load_persisted_state p f (some text) options.encryption_key true ≡ ok loaded
      → (find_state p f options d).0 ≡ ok (some loaded)
  unfolding find_state
  find_state-backup d text loaded h enabled b k = rw (h, find_state, enabled, b, k) refl

  recovered_text-cases :
      (enabled : Bool) (main backup temporary : Option String) (text : String)
      → recovered_text enabled (record { main = main; backup = backup; temporary = temporary })
        ≡ some text
      → (main ≡ some text) ⊎ ((main ≡ none) × (enabled ≡ true) × (backup ≡ some text))
  unfolding recovered_text
  recovered_text-cases enabled (some t) backup temporary text h = inl h
  recovered_text-cases true none backup temporary text h = inr (refl, refl, h)
  recovered_text-cases false none backup temporary text h = absurd cc

  find_state-recovered :
      (d : Files) (text : String) (loaded : PersistedState × Bool)
      → recovered_text (not_false options.backup) d ≡ some text
      → load_persisted_state p f (some text) options.encryption_key true ≡ ok loaded
      → (find_state p f options d).0 ≡ ok (some loaded)
  find_state-recovered d text loaded h k =
      elim (recovered_text-cases (not_false options.backup) d.main d.backup d.temporary text h) [
        | inl main ↦ find_state-main d text loaded main k
        | inr (main, enabled, backup) ↦ find_state-backup d text loaded main enabled backup k
      ]

  open_state-readable :
      (identity : KeyPair) (registration_id : ℕ) (a : Attempt) (d : PersistedState)
      (m : MemorySignalStorage) (files : Files)
      → apply_snapshot p d (new_storage d.identity_key_pair d.registration_id options).memory ≡ ok m
      → (open_state p f options identity registration_id a (some (d, false)) files).0
        ≡ ok (record (new_storage d.identity_key_pair d.registration_id options) {
          memory = m;
          revision = d.revision;
        })
  unfolding open_state
  open_state-readable identity registration_id a d m files h = rw (open_state, h) refl

  create-open_state :
      (identity : KeyPair) (registration_id : ℕ) (a : Attempt) (d : Files)
      (loaded : PersistedState × Bool)
      → key_size_ok options.encryption_key ≡ true
      → a.lock ≡ ok tt
      → (find_state p f options (record d { temporary = none })).0 ≡ ok (some loaded)
      → create p f options identity registration_id a d
        ≡ open_state p f options identity registration_id a
            (some loaded)
            (find_state p f options (record d { temporary = none })).1
  unfolding create save_unlocked
  create-open_state identity registration_id a d loaded key lock found =
      elim (Bool-cases (not_false options.lock)) [
        | inl e ↦ rw (key, create, e, lock, found) refl
        | inr e ↦ rw (key, create, e, found) refl
      ]

  -- `create` opens what the snapshot holds, or what the backup holds if there is no snapshot.
  pub create-recovered :
      (identity : KeyPair) (registration_id : ℕ) (a : Attempt) (d : Files) (text : String)
      (s : FileSignalStorage)
      → key_size_ok options.encryption_key ≡ true
      → a.lock ≡ ok tt
      → recovered_text (not_false options.backup) d ≡ some text
      → IsReadable text s
      → (create p f options identity registration_id a d).0 ≡ ok s
  unfolding recovered_text
  create-recovered identity registration_id a d text s key lock h (state, m, loads, applies, same) =
      let clean = record d { temporary = none } in
      let found = find_state-recovered clean text (state, false) h loads in
      rw (create-open_state identity registration_id a d (state, false) key lock found, same)
        (open_state-readable identity registration_id a state m (find_state p f options clean).1
          applies)

  -- The process stops after any number of the file operations of a save. If the old text and the new one can
  -- both be read, `create` then opens the storage that the old one holds or the storage that the new one
  -- holds: it neither throws nor opens anything else.
  pub create-run_ops :
      (identity : KeyPair) (registration_id : ℕ) (a : Attempt) (d : Files) (n : ℕ)
      (old new : String) (before after : FileSignalStorage)
      → key_size_ok options.encryption_key ≡ true
      → a.lock ≡ ok tt
      → recovered_text (not_false options.backup) d ≡ some old
      → IsReadable old before
      → IsReadable new after
      → let stopped = run_ops n (save_ops (not_false options.backup) new d) d in
        ((create p f options identity registration_id a stopped).0 ≡ ok before)
        ⊎ ((create p f options identity registration_id a stopped).0 ≡ ok after)
  create-run_ops identity registration_id a d n old new before after key lock h readable readable' =
      let stopped = run_ops n (save_ops (not_false options.backup) new d) d in
      elim (recovered_text-run_ops (not_false options.backup) new n d) [
        | inl same ↦ inl (
            create-recovered identity registration_id a stopped old before key lock (same ∙ h)
              readable)
        | inr now ↦
            inr
              (create-recovered identity registration_id a stopped new after key lock now readable')
      ]
