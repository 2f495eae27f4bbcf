-- ===== src/Storage/File/Conflict.antt =====
-- Two storages on one file: the second to save is refused.
use libsignal_node.Common.{
  ℕ, ◌+◌, ◌≡◌, ◌≢◌, refl, sym, ◌∙◌, arith, Bytes, Option, none, some, Bool, true, false, ◌==◌,
  nat_eq, nat_beq, ℤ, pos, minus_one, Result, ok, err, inl, inr, Result-cases,
  storage_conflict_error, unsupported_format_version, >>=-elim,
}
use mathlib.Core.Path.{subst}
use libsignal_node.Platform.{Platform, PlatformLaws}
use libsignal_node.Storage.File.Snapshot.{
  PersistedState, RawState, raw_of, normalize_persisted_state, value_or, to_snapshot,
}
use libsignal_node.Storage.File.Disk.{
  FilePlatform, ReadsBack, state, file_text, encrypt_payload, decrypt_payload, read_state,
  as_corrupt, load_persisted_state,
}
use libsignal_node.Storage.File.Saving.{
  FileSignalStorage, World, Attempt, map_storage, save_now, checked_save, assert_revision_current,
  next_text,
}
use libsignal_node.Storage.File.Outcome.{save_now-ok, save_now-unclosed, with_lock-acquired}

differs-nat_beq : (a b : ℕ) → a ≢ b → nat_beq a b ≡ false
differs-nat_beq a b h = ground arith

revision-normalize_persisted_state :
    (r : RawState) (d : PersistedState)
    → normalize_persisted_state r ≡ ok d
    → d.revision ≡ value_or r.revision 0
unfolding normalize_persisted_state
revision-normalize_persisted_state r d h = ground arith

as_corrupt-eq-ok {ℓ} : {A : Type ℓ} (m : Result A) {a : A} → as_corrupt m ≡ ok a → m ≡ ok a
unfolding as_corrupt
as_corrupt-eq-ok (ok a) h = h
as_corrupt-eq-ok (err (unsupported_format_version text)) h = cc
as_corrupt-eq-ok (err e) h = cc

module _ (p : Platform) (laws : PlatformLaws p) (f : FilePlatform) where
  -- The state that a text holds is read back from it, before it is validated.
  pub load_persisted_state-file_text :
      (key : Option Bytes) (iv : Bytes) (d : PersistedState) (validate_records : Bool)
      → ReadsBack p f key iv (raw_of d)
      → load_persisted_state p f (some (file_text p f key iv d)) key validate_records
        ≡ read_state p f validate_records (state (raw_of d))
  unfolding load_persisted_state file_text encrypt_payload decrypt_payload
  load_persisted_state-file_text none iv d validate_records h = rw (h, load_persisted_state) refl
  load_persisted_state-file_text (some key) iv d validate_records (h, sealed, opened) =
      let text = f.stringify_state (raw_of d) in
      rw
        (
          sealed,
          load_persisted_state,
          laws.from_base64-to_base64 iv,
          laws.from_base64-to_base64 (f.gcm_encrypt key iv text).1,
          laws.from_base64-to_base64 (f.gcm_encrypt key iv text).0,
          opened,
          h,
        )
        refl

  read_state-revision :
      (r : RawState) (d : PersistedState) (migrated : Bool)
      → read_state p f false (state r) ≡ ok (d, migrated)
      → d.revision ≡ value_or r.revision 0
  unfolding read_state
  read_state-revision r d migrated h =
      >>=-elim (normalize_persisted_state r) _ (as_corrupt-eq-ok _ h) λ d' e h1.
        let same = revision-normalize_persisted_state r d' e in
        let pairs : d' ≡ d = cc in rw (← pairs) same

  -- The file holds a state that another storage wrote since.
  abbrev IsOvertaken : Option Bytes → World → Type 0
  IsOvertaken key w =
      (iv : Bytes) × (d : PersistedState) × (w.files.main ≡ some (file_text p f key iv d))
      × ReadsBack p f key iv (raw_of d)
      × (d.revision ≢ w.storage.revision)

  assert_revision_current-conflict :
      (key : Option Bytes) (w : World)
      → IsOvertaken key w
      → (n : ℤ) × (assert_revision_current p f key w
          ≡ err (storage_conflict_error w.storage.revision n))
  unfolding assert_revision_current raw_of
  assert_revision_current-conflict key w (iv, d, m, sizes, differs) =
      let loaded = load_persisted_state-file_text key iv d false sizes in
      elim (Result-cases (read_state p f false (state (raw_of d)))) [
        | inl (e, h) ↦ (minus_one, rw (m, assert_revision_current, loaded, h) refl)
        | inr (r, h) ↦
            let same = read_state-revision (raw_of d) r.0 r.1 h in
            let same' : r.0.revision ≡ d.revision = same in
            let no : (r.0.revision == w.storage.revision) ≡ false =
              differs-nat_beq _ _
                (λ (e : r.0.revision ≡ w.storage.revision). differs (sym same' ∙ e)) in
            (pos r.0.revision, rw (m, assert_revision_current, loaded, h, no) refl)
      ]

  checked_save-conflict :
      (key : Option Bytes) (a : Attempt) (w : World)
      → IsOvertaken key w
      → (n : ℤ) × (checked_save p f key a w
          ≡ (err (storage_conflict_error w.storage.revision n), w))
  unfolding checked_save
  checked_save-conflict key a w h =
      let (n, conflict) = assert_revision_current-conflict key w h in
      (n, rw (checked_save, conflict) refl)

  -- Of two storages on one file with one key, opened at one revision, the first saves. If JSON, and the cipher
  -- where there is a key, read back the text it wrote, the save of the second, once it has the lock, is a
  -- conflict error: it neither overwrites the file nor changes its own state, except that it stays dirty.
  pub save_now-save_now :
      (a a' : Attempt) (w w' : World) (s : FileSignalStorage)
      → save_now p f a w ≡ (ok tt, w')
      → a'.lock ≡ ok tt
      → s.closed ≡ false
      → s.revision ≡ w.storage.revision
      → s.encryption_key ≡ w.storage.encryption_key
      → ReadsBack p f w.storage.encryption_key a.iv
          (raw_of (to_snapshot p (w.storage.revision + 1) w.storage.memory))
      → (n : ℤ) × (save_now p f a' (record { storage = s; files = w'.files }) ≡ (
        err (storage_conflict_error s.revision n),
        record { storage = record s { dirty = true }; files = w'.files },
      ))
  unfolding to_snapshot file_text next_text
  save_now-save_now a a' w w' s saved lock unclosed revision key reads =
      let d = to_snapshot p (w.storage.revision + 1) w.storage.memory in
      let before : World = record { storage = s; files = w'.files } in
      let after = map_storage (λ s. record s { dirty = true }) before in
      let newer : d.revision ≢ s.revision = omega arith in
      let overtaken : IsOvertaken w.storage.encryption_key after =
        (a.iv, d, (save_now-ok p f a w w' saved).0, reads, newer) in
      let (n, refused) =
        checked_save-conflict s.encryption_key a' after
          (subst (λ k. IsOvertaken k after) (sym key) overtaken) in
      (
        n,
        save_now-unclosed p f a' before unclosed
            ∙ (with_lock-acquired p f a' (checked_save p f s.encryption_key a') after lock
                ∙ refused),
      )
