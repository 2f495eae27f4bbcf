-- ===== src/Storage/File/Methods.antt =====
-- The methods of `FileSignalStorage` in src/file-storage.ts. One whose change must not be lost writes
-- the file at once; the others leave the writing to the timer.
use libsignal_node.Common.{
  ℕ, Bytes, none, some, Bool, true, false, not, ◌||◌, String, [], ◌∷◌, ◌++◌, lookup, put, delete,
  nat_eq, string_eq, if◌then◌else◌, ok, err,
}
use libsignal_node.Common.Jobs.{Job}
use libsignal_node.Platform.{Platform, KeyPair}
use libsignal_node.PreKey.KeyHelper.{SignedPreKey}
use libsignal_node.Group.Record.{SenderKeyRecord}
use libsignal_node.Session.Record.{SessionRecord}
use libsignal_node.Storage.Interface.{Direction}
use libsignal_node.Storage.Memory.{
  MemorySignalStorage, IdentityTrustPolicy, tofu, strict, has_pre_key, contains, discard,
}
use libsignal_node.Storage.Memory
use libsignal_node.Storage.Memory.SenderKeys
use libsignal_node.Storage.File.Disk.{FilePlatform}
use libsignal_node.Storage.File.Saving.{
  FileSignalStorage, World, Attempt, map_storage, save_now, schedule_save,
}

abbrev pub map_memory :
    (MemorySignalStorage → MemorySignalStorage) → FileSignalStorage → FileSignalStorage
map_memory g s = record s { memory = g s.memory }

-- A change of the maps, and then `scheduleSave`.
abbrev pub scheduled :
    (MemorySignalStorage → MemorySignalStorage) → FileSignalStorage → FileSignalStorage
scheduled g s = schedule_save (map_memory g s)

unfoldable pub store_session : String → SessionRecord → FileSignalStorage → FileSignalStorage
store_session id session s = scheduled (Memory.store_session id session) s

unfoldable pub store_sender_key : String → SenderKeyRecord → FileSignalStorage → FileSignalStorage
store_sender_key name r s = scheduled (SenderKeys.store_sender_key name r) s

unfoldable pub remove_sender_key : String → FileSignalStorage → FileSignalStorage
remove_sender_key name s = scheduled (SenderKeys.remove_sender_key name) s

unfoldable pub remove_group_sessions : String → FileSignalStorage → FileSignalStorage
remove_group_sessions group_id s = scheduled (SenderKeys.remove_group_sessions group_id) s

-- Only an identity that is trusted on first use is written.
unfoldable pub is_trusted_identity :
    String → Bytes → Direction → FileSignalStorage → Bool × FileSignalStorage
is_trusted_identity identifier identity_key direction s =
    let (trusted, m) = Memory.is_trusted_identity identifier identity_key direction s.memory in
    elim (lookup identifier s.memory.trusted_identities) [
      | some existing ↦ (trusted, s)
      | none ↦ elim s.memory.identity_trust_policy [
        | strict ↦ (trusted, s)
        | tofu ↦ (trusted, scheduled (λ _. m) s)
      ]
    ]

unfoldable pub save_identity : String → Bytes → FileSignalStorage → Bool × FileSignalStorage
save_identity identifier identity_key s =
    let (changed, m) = Memory.save_identity identifier identity_key s.memory in
    (changed, scheduled (λ _. m) s)

unfoldable pub remove_identity : String → FileSignalStorage → FileSignalStorage
remove_identity identifier s = scheduled (Memory.remove_identity identifier) s

unfoldable pub store_pre_key : ℕ → KeyPair → FileSignalStorage → FileSignalStorage
store_pre_key id key_pair s = scheduled (Memory.store_pre_key id key_pair) s

unfoldable pub remove_signed_pre_key : ℕ → FileSignalStorage → FileSignalStorage
remove_signed_pre_key id s = scheduled (Memory.remove_signed_pre_key id) s

module _ (p : Platform) (f : FilePlatform) where
  -- A change of the maps that is written at once. An error of the save leaves the change in place.
  abbrev pub written : (MemorySignalStorage → MemorySignalStorage) → Attempt → Job World (Unit {0})
  written g a w = save_now p f a (map_storage (map_memory g) w)

  -- `catch (e) { undo; throw e }`
  abbrev pub written_or_undone :
      (MemorySignalStorage → MemorySignalStorage)
      → (MemorySignalStorage → MemorySignalStorage)
      → Attempt
      → Job World Bool
  written_or_undone g undo a w =
      let (saved, w') = written g a w in
      elim saved [ ok _ ↦ (ok true, w') | err e ↦ (err e, map_storage (map_memory undo) w') ]

  -- The listeners of `onPreKeyRemoved` are called whether the prekey was there or not.
  unfoldable pub remove_pre_key : ℕ → Attempt → Job World (Unit {0})
  remove_pre_key id a w =
      let (saved, w') =
        written
          (λ m. record m {
            pre_keys = delete id m.pre_keys;
            published_pre_keys = discard id m.published_pre_keys;
          })
          a w in
      elim saved [
        | err e ↦ (err e, w')
        | ok _ ↦ (
          ok tt,
          map_storage
              (map_memory (λ m. record m { removed_pre_keys = m.removed_pre_keys ++ id ∷ [] })) w',
        )
      ]

  unfoldable pub reserve_pre_key : ℕ → Attempt → Job World Bool
  reserve_pre_key id a w =
      if not (has_pre_key id w.storage.memory) || contains id w.storage.memory.published_pre_keys
      then (ok false, w)
      else written_or_undone
          (λ m. record m { published_pre_keys = m.published_pre_keys ++ id ∷ [] })
          (λ m. record m { published_pre_keys = discard id m.published_pre_keys }) a w

  -- An id that is put back is the last of the set, not where it was.
  unfoldable pub release_pre_key : ℕ → Attempt → Job World Bool
  release_pre_key id a w =
      if not (contains id w.storage.memory.published_pre_keys)
      then (ok false, w)
      else written_or_undone
          (λ m. record m { published_pre_keys = discard id m.published_pre_keys })
          (λ m. record m { published_pre_keys = m.published_pre_keys ++ id ∷ [] }) a w

  -- `storeSignedPreKey` with a number and a key pair, and with a record.
  unfoldable pub store_signed_key_pair : ℕ → KeyPair → Attempt → Job World (Unit {0})
  store_signed_key_pair id key_pair =
      written (λ m. record m { signed_pre_keys = put id key_pair m.signed_pre_keys })

  unfoldable pub store_signed_pre_key : ℕ → SignedPreKey → Attempt → Job World (Unit {0})
  store_signed_pre_key now k = written (Memory.store_signed_pre_key now k)

  unfoldable pub set_next_pre_key_id : ℕ → Attempt → Job World (Unit {0})
  set_next_pre_key_id id = written (Memory.set_next_pre_key_id id)
