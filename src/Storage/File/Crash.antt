-- ===== src/Storage/File/Crash.antt =====
-- A save that is cut short loses neither the old state nor the new one.
use libsignal_node.Common.{
  ℕ, zero, suc, ◌+◌, ◌≤◌, ◌<◌, ◌≡◌, refl, arith, List, [], ◌∷◌, Option, none, some, Bool, true,
  false, String, length, leb, Result, sym, ap, ◌∙◌, SignalError, ok, err, ◌⊎◌, inl, inr, Bool-cases,
  plain_error,
}
use libsignal_node.Platform.{Platform}
use libsignal_node.Storage.File.Disk.{
  FilePlatform, Files, FileOp, write_temporary, temporary_to_main, run_ops, save_ops, undo_save,
  recovered_text,
}
use libsignal_node.Storage.File.Saving.{World, Attempt, save_unlocked, next_text}

run_ops-nil : (n : ℕ) (d : Files) → run_ops n [] d ≡ d
unfolding run_ops
run_ops-nil zero d = refl
run_ops-nil (suc n) d = refl

abbrev files_of : Option String → Option String → Option String → Files
files_of main backup temporary = record { main = main; backup = backup; temporary = temporary }

-- What `create` reads is as before, or the new text.
abbrev IsOldOrNew : Bool → String → ℕ → Files → Type 0
IsOldOrNew backup_enabled text n d =
    (recovered_text backup_enabled (run_ops n (save_ops backup_enabled text d) d)
      ≡ recovered_text backup_enabled d)
    ⊎ (recovered_text backup_enabled (run_ops n (save_ops backup_enabled text d) d) ≡ some text)

-- Where two operations write the snapshot, and where four do.
two_ops :
    (backup_enabled : Bool) (text : String) (n : ℕ) (d : Files)
    → let r = run_ops n (write_temporary text ∷ temporary_to_main ∷ []) d in
      (recovered_text backup_enabled r ≡ recovered_text backup_enabled d)
      ⊎ (recovered_text backup_enabled r ≡ some text)
unfolding recovered_text run_ops
two_ops backup_enabled text zero d = inl refl
two_ops backup_enabled text (suc zero) d = inl refl
two_ops backup_enabled text (suc (suc n)) d =
    inr (rw (run_ops-nil n (record d { main = some text; temporary = none })) refl)

four_ops :
    (text old : String) (backup temporary : Option String) (n : ℕ)
    → IsOldOrNew true text n (files_of (some old) backup temporary)
unfolding recovered_text run_ops save_ops
four_ops text old backup temporary zero = inl refl
four_ops text old backup temporary (suc zero) = inl refl
four_ops text old backup temporary (suc (suc zero)) = inl refl
four_ops text old backup temporary (suc (suc (suc zero))) = inl refl
four_ops text old backup temporary (suc (suc (suc (suc n)))) =
    inr (rw (run_ops-nil n (files_of (some text) (some old) none)) refl)

old_or_new :
    (backup_enabled : Bool) (text : String) (n : ℕ) (main backup temporary : Option String)
    → IsOldOrNew backup_enabled text n (files_of main backup temporary)
unfolding save_ops
old_or_new false text n main backup temporary =
    two_ops false text n (files_of main backup temporary)
old_or_new true text n none backup temporary = two_ops true text n (files_of none backup temporary)
old_or_new true text n (some old) backup temporary = four_ops text old backup temporary n

-- The process may stop after any number of the operations of a save. The text that `create` then
-- reads, from the snapshot or from its backup, is the one that it would have read before the save, or
-- the whole of the new one.
pub recovered_text-run_ops :
    (backup_enabled : Bool) (text : String) (n : ℕ) (d : Files)
    → (recovered_text backup_enabled (run_ops n (save_ops backup_enabled text d) d)
        ≡ recovered_text backup_enabled d)
      ⊎ (recovered_text backup_enabled (run_ops n (save_ops backup_enabled text d) d) ≡ some text)
recovered_text-run_ops backup_enabled text n d =
    old_or_new backup_enabled text n d.main d.backup d.temporary

pub main-run_ops :
    (backup_enabled : Bool) (text : String) (n : ℕ) (main backup temporary : Option String)
    → let d = files_of main backup temporary in
      length (save_ops backup_enabled text d) ≤ n
      → (run_ops n (save_ops backup_enabled text d) d).main ≡ some text
unfolding run_ops save_ops
main-run_ops backup_enabled text zero main backup temporary h = absurd (ground arith)
main-run_ops backup_enabled text (suc zero) main backup temporary h = absurd (ground arith)
main-run_ops false text (suc (suc n)) main backup temporary h =
    rw (run_ops-nil n (files_of (some text) backup none)) refl
main-run_ops true text (suc (suc n)) none backup temporary h =
    rw (run_ops-nil n (files_of (some text) backup none)) refl
main-run_ops true text (suc (suc zero)) (some old) backup temporary h = absurd (omega arith)
main-run_ops true text (suc (suc (suc zero))) (some old) backup temporary h = absurd (omega arith)
main-run_ops true text (suc (suc (suc (suc n)))) (some old) backup temporary h =
    rw (run_ops-nil n (files_of (some text) (some old) none)) refl

-- The snapshot is where it was, if there was one, or is still the backup.
abbrev pub IsRestored : Bool → Files → Files → Type 0
IsRestored restored d d' =
    (d.main ≡ none)
    ⊎ ((d'.main ≡ d.main) ⊎ ((restored ≡ false) × (d'.main ≡ none) × (d'.backup ≡ d.main)))

-- What an undone save keeps of the files.
abbrev IsUndone : Bool → Bool → Files → Files → Type 0
IsUndone restored backup_enabled d d' =
    (recovered_text backup_enabled d' ≡ recovered_text backup_enabled d) × IsRestored restored d d'

two-IsUndone :
    (cleaned restored backup_enabled : Bool) (text : String) (n : ℕ)
    (main backup temporary : Option String)
    → n < 2
    → let d = files_of main backup temporary in
      IsUndone restored backup_enabled d (
        undo_save cleaned restored backup_enabled
          (run_ops n (write_temporary text ∷ temporary_to_main ∷ []) d))
unfolding recovered_text run_ops undo_save
two-IsUndone cleaned restored backup_enabled text (suc (suc n)) main backup temporary h =
    absurd (omega arith)
two-IsUndone cleaned restored false text zero none backup temporary h = (refl, inl refl)
two-IsUndone cleaned restored true text zero none none temporary h = (refl, inl refl)
two-IsUndone cleaned true true text zero none (some b) temporary h = (refl, inl refl)
two-IsUndone cleaned false true text zero none (some b) temporary h = (refl, inl refl)
two-IsUndone cleaned restored backup_enabled text zero (some old) backup temporary h =
    (refl, inr (inl refl))
two-IsUndone cleaned restored false text (suc zero) none backup temporary h = (refl, inl refl)
two-IsUndone cleaned restored true text (suc zero) none none temporary h = (refl, inl refl)
two-IsUndone cleaned true true text (suc zero) none (some b) temporary h = (refl, inl refl)
two-IsUndone cleaned false true text (suc zero) none (some b) temporary h = (refl, inl refl)
two-IsUndone cleaned restored backup_enabled text (suc zero) (some old) backup temporary h =
    (refl, inr (inl refl))

undone :
    (cleaned restored backup_enabled : Bool) (text : String) (n : ℕ)
    (main backup temporary : Option String)
    → let d = files_of main backup temporary in
      n < length (save_ops backup_enabled text d)
      → IsUndone restored backup_enabled d
          (undo_save cleaned restored backup_enabled (run_ops n (save_ops backup_enabled text d) d))
unfolding recovered_text run_ops undo_save save_ops
undone cleaned restored false text n main backup temporary h =
    two-IsUndone cleaned restored false text n main backup temporary h
undone cleaned restored true text n none backup temporary h =
    two-IsUndone cleaned restored true text n none backup temporary h
undone cleaned restored true text zero (some old) backup temporary h = (refl, inr (inl refl))
undone cleaned restored true text (suc zero) (some old) backup temporary h = (refl, inr (inl refl))
undone cleaned restored true text (suc (suc zero)) (some old) backup temporary h =
    (refl, inr (inl refl))
undone cleaned true true text (suc (suc (suc zero))) (some old) backup temporary h =
    (refl, inr (inl refl))
undone cleaned false true text (suc (suc (suc zero))) (some old) backup temporary h =
    (refl, inr (inr (refl, refl, refl)))
undone cleaned restored true text (suc (suc (suc (suc n)))) (some old) backup temporary h =
    absurd (omega arith)

module _ (p : Platform) (f : FilePlatform) where
  -- The operations of a save, in a world.
  abbrev pub ops_of : Attempt → World → List FileOp
  ops_of a w = save_ops w.storage.backup_enabled (next_text p f a.iv w.storage) w.files

  pub save_unlocked-fails :
      (a : Attempt) (w : World)
      → leb (length (ops_of a w)) a.completed ≡ false
      → save_unlocked p f a w ≡ (
        err (plain_error "save failed"),
        record w {
          files =
              undo_save a.cleaned a.restored w.storage.backup_enabled
                (run_ops a.completed (ops_of a w) w.files);
        },
      )
  unfolding save_unlocked
  save_unlocked-fails a w h = rw h refl

  pub save_unlocked-completes :
      (a : Attempt) (w : World)
      → leb (length (ops_of a w)) a.completed ≡ true
      → save_unlocked p f a w ≡ (
        ok tt,
        record {
          storage = record w.storage { revision = w.storage.revision + 1; dirty = false };
          files = run_ops a.completed (ops_of a w) w.files;
        },
      )
  unfolding save_unlocked
  save_unlocked-completes a w h = rw h refl

  -- A save that fails leaves the storage as it was, and the text that `create` would read. A snapshot
  -- that was there is there again, or, if the `catch` fails to move it back, is the backup.
  pub save_unlocked-err :
      (a : Attempt) (w w' : World) (e : SignalError)
      → save_unlocked p f a w ≡ (err e, w')
      → (w'.storage ≡ w.storage)
        × (recovered_text w.storage.backup_enabled w'.files
            ≡ recovered_text w.storage.backup_enabled w.files)
        × IsRestored a.restored w.files w'.files
  save_unlocked-err a w w' e h = elim (Bool-cases (leb (length (ops_of a w)) a.completed)) [
    | inl all ↦
        let no : Result.ok tt ≡ err e = ap (λ x. x.0) (sym (save_unlocked-completes a w all) ∙ h) in
        cc
    | inr few ↦
        let after : _ ≡ w' = ap (λ x. x.1) (sym (save_unlocked-fails a w few) ∙ h) in
        let kept =
          undone a.cleaned a.restored w.storage.backup_enabled (next_text p f a.iv w.storage)
            a.completed w.files.main w.files.backup w.files.temporary (ground arith) in
        rw (← after) (refl, kept.0, kept.1)
  ]
