-- ===== src/Storage/File/Saving.antt =====
-- How src/file-storage.ts writes its state: `saveUnlocked`, `assertRevisionCurrent`, `save`,
-- `scheduleSave`, `flush`, `rotateEncryptionKey` and `close`.
use libsignal_node.Common.{
  ℕ, ◌+◌, Bytes, Option, none, some, Bool, true, false, not, ◌&&◌, String, List, [], ◌∷◌, ◌++◌,
  length, leb, ◌==◌, nat_eq, if◌then◌else◌, pos, minus_one, Result, SignalError, ok, err,
  plain_error, range_error, storage_conflict_error,
}
use libsignal_node.Common.Jobs.{Job}
use libsignal_node.Platform.{Platform}
use libsignal_node.Storage.Memory.{MemorySignalStorage}
use libsignal_node.Storage.File.Snapshot.{to_snapshot}
use libsignal_node.Storage.File.Disk.{
  FilePlatform, Files, file_text, load_persisted_state, run_ops, save_ops, undo_save,
}

-- The maps are those of `MemorySignalStorage`. A timer that is set saves when it fires.
pub record FileSignalStorage : Type 0 where
  pub memory : MemorySignalStorage
  pub revision : ℕ
  pub encryption_key : Option Bytes
  pub backup_enabled : Bool
  pub lock_enabled : Bool
  pub save_timer : Bool
  pub dirty : Bool
  pub closed : Bool
  -- the errors that `onSaveError` was called with, oldest first
  pub save_errors : List SignalError

-- One storage and the files that it writes to.
pub record World : Type 0 where
  pub storage : FileSignalStorage
  pub files : Files

-- What the outside decides in one save: whether the lock is acquired, how many of the file operations
-- complete before one fails, whether the two of the `catch` succeed, and the random iv.
pub record Attempt : Type 0 where
  pub lock : Result (Unit {0})
  pub completed : ℕ
  pub cleaned : Bool
  pub restored : Bool
  pub iv : Bytes

abbrev pub map_storage : (FileSignalStorage → FileSignalStorage) → World → World
map_storage g w = record w { storage = g w.storage }

unfoldable pub with_lock : Attempt → Job World (Unit {0}) → Job World (Unit {0})
with_lock a action w =
    if w.storage.lock_enabled
    then elim a.lock [ err e ↦ (err e, w) | ok _ ↦ action w ]
    else action w

abbrev pub key_size_ok : Option Bytes → Bool
key_size_ok none = true
key_size_ok (some key) = length key == 32

module _ (p : Platform) (f : FilePlatform) where
  -- The text that a save writes.
  unfoldable pub next_text : Bytes → FileSignalStorage → String
  next_text iv s = file_text p f s.encryption_key iv (to_snapshot p (s.revision + 1) s.memory)

  unfoldable pub save_unlocked : Attempt → Job World (Unit {0})
  unfolding next_text
  save_unlocked a w =
      let ops = save_ops w.storage.backup_enabled (next_text a.iv w.storage) w.files in
      let files = run_ops a.completed ops w.files in
      if leb (length ops) a.completed
      then (
        ok tt,
        record {
          storage = record w.storage { revision = w.storage.revision + 1; dirty = false };
          files = files;
        },
      )
      else (
        err (plain_error "save failed"),
        record w { files = undo_save a.cleaned a.restored w.storage.backup_enabled files },
      )

  unfoldable pub assert_revision_current : Option Bytes → World → Result (Unit {0})
  assert_revision_current key w = elim w.files.main [
    | none ↦
        if w.storage.revision == 0
        then ok tt
        else err (storage_conflict_error w.storage.revision (pos 0))
    | some text ↦ elim (load_persisted_state p f (some text) key false) [
      | err _ ↦ err (storage_conflict_error w.storage.revision minus_one)
      | ok (d, migrated) ↦
          if d.revision == w.storage.revision
          then ok tt
          else err (storage_conflict_error w.storage.revision (pos d.revision))
    ]
  ]

  -- The action of `withLock` in `save`.
  unfoldable pub checked_save : Option Bytes → Attempt → Job World (Unit {0})
  unfolding save_unlocked
  checked_save key a w = elim (assert_revision_current key w) [
    | err e ↦ (err e, w)
    | ok _ ↦ save_unlocked a w
  ]

  unfoldable pub save : Bool → Option Bytes → Attempt → Job World (Unit {0})
  unfolding checked_save with_lock
  save force key a w =
      if w.storage.closed
      then (err (plain_error "FileSignalStorage is closed"), w)
      else if not w.storage.dirty && not force
      then (ok tt, w)
      else with_lock a (checked_save key a) w

  -- `this.dirty = true; this.save()`
  unfoldable pub save_now : Attempt → Job World (Unit {0})
  unfolding save
  save_now a w =
      let w' = map_storage (λ s. record s { dirty = true }) w in
      save false w.storage.encryption_key a w'

  unfoldable pub flush : Attempt → Job World (Unit {0})
  unfolding save
  flush a w =
      let w' = map_storage (λ s. record s { save_timer = false }) w in
      if w.storage.closed then (ok tt, w') else save false w.storage.encryption_key a w'

  -- The timer's callback: an error goes to `onSaveError`.
  unfoldable pub timer_fires : Attempt → World → World
  unfolding save
  timer_fires a w =
      let w' = map_storage (λ s. record s { save_timer = false }) w in
      let (saved, w'') = save false w.storage.encryption_key a w' in
      elim saved [
        | ok _ ↦ w''
        | err e ↦ map_storage (λ s. record s { save_errors = s.save_errors ++ e ∷ [] }) w''
      ]

  unfoldable pub close : Attempt → Job World (Unit {0})
  unfolding flush
  close a w =
      if w.storage.closed
      then (ok tt, w)
      else (let (flushed, w') = flush a w in
          elim flushed [
            | err e ↦ (err e, w')
            | ok _ ↦ (ok tt, map_storage (λ s. record s { closed = true }) w')
          ])

  -- A save that fails leaves the old key in place, and the storage dirty.
  unfoldable pub rotate_encryption_key : Option Bytes → Attempt → Job World (Unit {0})
  unfolding save
  rotate_encryption_key key a w =
      if not (key_size_ok key)
      then (err (range_error "encryptionKey must be 32 bytes"), w)
      else if w.storage.closed
      then (err (plain_error "FileSignalStorage is closed"), w)
      else (let previous = w.storage.encryption_key in
          let w' = map_storage (λ s. record s { encryption_key = key; dirty = true }) w in
          let (saved, w'') = save true previous a w' in
          elim saved [
            | ok _ ↦ (ok tt, w'')
            | err e ↦ (err e, map_storage (λ s. record s { encryption_key = previous }) w'')
          ])

-- `scheduleSave`
unfoldable pub schedule_save : FileSignalStorage → FileSignalStorage
schedule_save s = record s { dirty = true; save_timer = if s.closed then s.save_timer else true }
