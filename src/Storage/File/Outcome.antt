-- ===== src/Storage/File/Outcome.antt =====
-- How a save ends: it has written the whole of the next text, or it has changed neither the storage nor
-- what `create` reads.
use libsignal_node.Common.{
  ◌+◌, ◌≡◌, refl, sym, ap, ◌∙◌, arith, Bytes, Option, some, true, false, length, leb, SignalError,
  ok, err, ◌⊎◌, inl, inr, Bool-cases, Result-cases, plain_error,
}
use libsignal_node.Common.Jobs.{Job}
use libsignal_node.Platform.{Platform}
use libsignal_node.Storage.File.Disk.{FilePlatform, recovered_text}
use libsignal_node.Storage.File.Saving.{
  World, Attempt, map_storage, save_now, save, save_unlocked, checked_save, with_lock, next_text,
  assert_revision_current,
}
use libsignal_node.Storage.File.Crash.{
  save_unlocked-err, save_unlocked-completes, save_unlocked-fails, main-run_ops, ops_of,
}

module _ (p : Platform) (f : FilePlatform) where
  -- A save that succeeds has written the whole of the next text.
  save_unlocked-ok :
      (a : Attempt) (w w' : World)
      → save_unlocked p f a w ≡ (ok tt, w')
      → (w'.files.main ≡ some (next_text p f a.iv w.storage))
        × (w'.storage ≡ record w.storage { revision = w.storage.revision + 1; dirty = false })
  save_unlocked-ok a w w' h = elim (Bool-cases (leb (length (ops_of p f a w)) a.completed)) [
    | inl all ↦
        let after : _ ≡ w' = ap (λ x. x.1) (sym (save_unlocked-completes p f a w all) ∙ h) in
        rw (← after) (
          main-run_ops w.storage.backup_enabled (next_text p f a.iv w.storage) a.completed
              w.files.main w.files.backup w.files.temporary (ground arith),
          refl,
        )
    | inr few ↦
        let no : err (plain_error "save failed") ≡ ok tt =
          ap (λ x. x.0) (sym (save_unlocked-fails p f a w few) ∙ h) in
        cc
  ]

  with_lock-ok :
      (a : Attempt) (action : Job World (Unit {0})) (w w' : World)
      → with_lock a action w ≡ (ok tt, w')
      → action w ≡ (ok tt, w')
  unfolding with_lock
  with_lock-ok a action w w' h = ground arith

  pub with_lock-acquired :
      (a : Attempt) (action : Job World (Unit {0})) (w : World)
      → a.lock ≡ ok tt
      → with_lock a action w ≡ action w
  unfolding with_lock
  with_lock-acquired a action w h = ground arith

  checked_save-ok :
      (key : Option Bytes) (a : Attempt) (w w' : World)
      → checked_save p f key a w ≡ (ok tt, w')
      → save_unlocked p f a w ≡ (ok tt, w')
  unfolding checked_save
  checked_save-ok key a w w' h = elim (Result-cases (assert_revision_current p f key w)) [
    | inl (e, c) ↦
        let refused : checked_save p f key a w ≡ (err e, w) = rw (checked_save, c) refl in
        let no : err e ≡ ok tt = ap (λ x. x.0) (sym refused ∙ h) in cc
    | inr (u, c) ↦ sym (rw (checked_save, c) refl) ∙ h
  ]

  -- What `save_now` does to a storage that is not closed.
  pub save_now-unclosed :
      (a : Attempt) (w : World)
      → w.storage.closed ≡ false
      → save_now p f a w
        ≡ with_lock a
            (checked_save p f w.storage.encryption_key a)
            (map_storage (λ s. record s { dirty = true }) w)
  unfolding save_now save
  save_now-unclosed a w h = rw (h, save_now) refl

  save_now-checked_save :
      (a : Attempt) (w w' : World)
      → save_now p f a w ≡ (ok tt, w')
      → checked_save p f w.storage.encryption_key a (map_storage (λ s. record s { dirty = true }) w)
        ≡ (ok tt, w')
  unfolding save_now save
  save_now-checked_save a w w' h = elim (Bool-cases w.storage.closed) [
    | inl c ↦
        let refused : (save_now p f a w).0 ≡ err (plain_error "FileSignalStorage is closed") =
          rw (c, save_now) refl in
        let no : err (plain_error "FileSignalStorage is closed") ≡ ok tt =
          sym refused ∙ ap (λ x. x.0) h in
        cc
    | inr c ↦
        with_lock-ok a (checked_save p f w.storage.encryption_key a)
          (map_storage (λ s. record s { dirty = true }) w) w' (sym (save_now-unclosed a w c) ∙ h)
  ]

  pub save_now-ok :
      (a : Attempt) (w w' : World)
      → save_now p f a w ≡ (ok tt, w')
      → (w'.files.main ≡ some (next_text p f a.iv w.storage))
        × (w'.storage ≡ record w.storage { revision = w.storage.revision + 1; dirty = false })
  unfolding next_text
  save_now-ok a w w' h =
      let dirty = map_storage (λ s. record s { dirty = true }) w in
      let saved =
        checked_save-ok w.storage.encryption_key a dirty w' (save_now-checked_save a w w' h) in
      save_unlocked-ok a dirty w' saved

  -- What a save that is refused or fails leaves as it was.
  abbrev pub IsKept : World → World → Type 0
  IsKept w w' =
      (w'.storage ≡ w.storage)
      × (recovered_text w.storage.backup_enabled w'.files
          ≡ recovered_text w.storage.backup_enabled w.files)

  checked_save-err :
      (key : Option Bytes) (a : Attempt) (w w' : World) (e : SignalError)
      → checked_save p f key a w ≡ (err e, w')
      → IsKept w w'
  unfolding checked_save
  checked_save-err key a w w' e h = elim (Result-cases (assert_revision_current p f key w)) [
    | inl (e', c) ↦
        let refused : checked_save p f key a w ≡ (err e', w) = rw (checked_save, c) refl in
        let same : w ≡ w' = ap (λ x. x.1) (sym refused ∙ h) in rw (← same) (refl, refl)
    | inr (u, c) ↦
        let went : checked_save p f key a w ≡ save_unlocked p f a w = rw (checked_save, c) refl in
        let kept = save_unlocked-err p f a w w' e (sym went ∙ h) in (kept.0, kept.1)
  ]

  with_lock-err :
      (a : Attempt) (action : Job World (Unit {0})) (w w' : World) (e : SignalError)
      → with_lock a action w ≡ (err e, w')
      → (w ≡ w') ⊎ (action w ≡ (err e, w'))
  unfolding with_lock
  with_lock-err a action w w' e h = ground arith

  pub save_now-err :
      (a : Attempt) (w w' : World) (e : SignalError)
      → save_now p f a w ≡ (err e, w')
      → IsKept (map_storage (λ s. record s { dirty = true }) w) w'
  unfolding save_now save
  save_now-err a w w' e h = elim (Bool-cases w.storage.closed) [
    | inl c ↦
        let dirty = map_storage (λ s. record s { dirty = true }) w in
        let refused : save_now p f a w ≡ (err (plain_error "FileSignalStorage is closed"), dirty) =
          rw (c, save_now) refl in
        let same : dirty ≡ w' = ap (λ x. x.1) (sym refused ∙ h) in rw (← same) (refl, refl)
    | inr c ↦
        let dirty = map_storage (λ s. record s { dirty = true }) w in
        elim (with_lock-err a (checked_save p f w.storage.encryption_key a) dirty w' e
          (sym (save_now-unclosed a w c) ∙ h)) [
            | inl same ↦ rw (← same) (refl, refl)
            | inr went ↦ checked_save-err w.storage.encryption_key a dirty w' e went
          ]
  ]
