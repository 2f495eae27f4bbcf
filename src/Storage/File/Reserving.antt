-- ===== src/Storage/File/Reserving.antt =====
-- `reservePreKey` of src/file-storage.ts does what the one of the memory storage does and writes it, or
-- fails and changes nothing.
use libsignal_node.Common.{
  ℕ, ◌+◌, ◌≡◌, refl, ap, arith, List, [], ◌∷◌, ◌++◌, some, Bool, true, false, not, ◌||◌, nat_eq,
  Result, SignalError, ok, err, ◌⊎◌, inl, inr, Bool-cases, Result-cases,
}
use libsignal_node.Platform.{Platform}
use libsignal_node.Storage.Memory.{MemorySignalStorage, has_pre_key, contains, discard}
use libsignal_node.Storage.Memory
use libsignal_node.Storage.Memory.Trust.{reserve_pre_key-refused, reserve_pre_key-free}
use libsignal_node.Storage.File.Snapshot.{to_snapshot}
use libsignal_node.Storage.File.Disk.{FilePlatform, file_text, recovered_text}
use libsignal_node.Storage.File.Saving.{World, Attempt, map_storage, save_now, next_text}
use libsignal_node.Storage.File.Methods.{written_or_undone, map_memory, reserve_pre_key}
use libsignal_node.Storage.File.Outcome.{save_now-ok, save_now-err}

discard-append :
    (id : ℕ) (ids : List ℕ) → contains id ids ≡ false → discard id (ids ++ id ∷ []) ≡ ids
discard-append id [] h = ground arith
discard-append id (j ∷ ids) h = grind (arith, discard-append id ids)

abbrev is_refused : ℕ → MemorySignalStorage → Bool
is_refused id m = not (has_pre_key id m) || contains id m.published_pre_keys

-- What the memory storage does, and the file written; or an error, and nothing done.
unfoldable pub IsAtomic :
    (p : Platform) (f : FilePlatform) (a : Attempt) (w : World)
    → Bool × MemorySignalStorage
    → Result Bool × World
    → Type 0
IsAtomic p f a w (b, m) (r, w') =
    ((r ≡ ok b)
      × (w'.storage.memory ≡ m)
      × ((b ≡ false)
          ⊎ (w'.files.main
              ≡ some (
                  file_text p f w.storage.encryption_key a.iv
                    (to_snapshot p (w.storage.revision + 1) m)))))
    ⊎ ((e : SignalError) × (r ≡ err e)
        × (w'.storage.memory ≡ w.storage.memory)
        × (recovered_text w.storage.backup_enabled w'.files
            ≡ recovered_text w.storage.backup_enabled w.files))

module _ (p : Platform) (f : FilePlatform) where
  reserve_pre_key-taken :
      (id : ℕ) (a : Attempt) (w : World)
      → is_refused id w.storage.memory ≡ true
      → reserve_pre_key p f id a w ≡ (ok false, w)
  unfolding reserve_pre_key
  reserve_pre_key-taken id a w h = rw (h, reserve_pre_key) refl

  -- The world in which the save of a reservation starts.
  abbrev reserved : ℕ → World → World
  reserved id w =
      map_storage
        (map_memory (λ m. record m { published_pre_keys = m.published_pre_keys ++ id ∷ [] })) w

  reserve_pre_key-saved :
      (id : ℕ) (a : Attempt) (w : World)
      → is_refused id w.storage.memory ≡ false
      → (save_now p f a (reserved id w)).0 ≡ ok tt
      → reserve_pre_key p f id a w ≡ (ok true, (save_now p f a (reserved id w)).1)
  unfolding reserve_pre_key
  reserve_pre_key-saved id a w h saved = rw (h, reserve_pre_key, written_or_undone, saved) refl

  reserve_pre_key-unsaved :
      (id : ℕ) (a : Attempt) (w : World) (e : SignalError)
      → is_refused id w.storage.memory ≡ false
      → (save_now p f a (reserved id w)).0 ≡ err e
      → reserve_pre_key p f id a w ≡ (
        err e,
        map_storage
            (map_memory (λ m. record m { published_pre_keys = discard id m.published_pre_keys }))
            (save_now p f a (reserved id w)).1,
      )
  unfolding reserve_pre_key
  reserve_pre_key-unsaved id a w e h saved = rw (h, reserve_pre_key, written_or_undone, saved) refl

  reserve_pre_key-free_lem :
      (id : ℕ) (a : Attempt) (w : World)
      → is_refused id w.storage.memory ≡ false
      → IsAtomic p f a w (true, (reserved id w).storage.memory) (reserve_pre_key p f id a w)
  unfolding IsAtomic next_text
  reserve_pre_key-free_lem id a w h = elim (Result-cases (save_now p f a (reserved id w)).0) [
    | inr (u, saved) ↦
        let w' = (save_now p f a (reserved id w)).1 in
        let done = save_now-ok p f a (reserved id w) w' (rw (← saved) refl) in
        rw (reserve_pre_key-saved id a w h saved)
          (inl (refl, ap (λ s. s.memory) done.1, inr done.0))
    | inl (e, unsaved) ↦
        let w' = (save_now p f a (reserved id w)).1 in
        let kept = save_now-err p f a (reserved id w) w' e (rw (← unsaved) refl) in
        let free : contains id w.storage.memory.published_pre_keys ≡ false = ground arith in
        let undone : record w'.storage.memory {
          published_pre_keys = discard id w'.storage.memory.published_pre_keys;
        }
            ≡ w.storage.memory =
          rw (kept.0, discard-append id w.storage.memory.published_pre_keys free) refl in
        rw (reserve_pre_key-unsaved id a w e h unsaved) (inr (e, refl, undone, kept.1))
  ]

  -- `reservePreKey` of the file storage implements the one of the memory storage: it gives the same
  -- result with the same prekeys, and if it reserves, the file holds the snapshot with the reservation;
  -- or it throws, and then the maps and the text that `create` would read are as before.
  pub reserve_pre_key-IsAtomic :
      (id : ℕ) (a : Attempt) (w : World)
      → IsAtomic p f a w (Memory.reserve_pre_key id w.storage.memory) (reserve_pre_key p f id a w)
  unfolding IsAtomic
  reserve_pre_key-IsAtomic id a w = elim (Bool-cases (is_refused id w.storage.memory)) [
    | inl taken ↦
        rw (reserve_pre_key-refused id w.storage.memory taken, reserve_pre_key-taken id a w taken)
          (inl (refl, refl, inl refl))
    | inr free ↦
        rw (reserve_pre_key-free id w.storage.memory free) (reserve_pre_key-free_lem id a w free)
  ]
