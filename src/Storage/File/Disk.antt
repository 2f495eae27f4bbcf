-- ===== src/Storage/File/Disk.antt =====
-- The files of src/file-storage.ts and what is in them: `encryptPayload`, `decryptPayload`,
-- `loadPersistedState`, and the file operations of a save. JSON and AES-256-GCM are parameters.
use libsignal_node.Common.{
  ℕ, zero, suc, ◌≡◌, Bytes, List, [], ◌∷◌, Option, none, some, Bool, true, false, not, String, ◌==◌,
  nat_eq, if◌then◌else◌, Result, ok, err, ◌>>=◌, ◌>>◌, plain_error, corrupt_storage_file,
  unsupported_format_version,
}
use libsignal_node.Platform.{Platform}
use libsignal_node.Storage.File.Snapshot.{
  PersistedState, RawState, normalize_persisted_state, deserialize_all, raw_of,
}

pub record EncryptedPayload : Type 0 where
  pub iv : String
  pub auth_tag : String
  pub ciphertext : String

-- What `JSON.parse` makes of a text: an error, an encrypted payload, a state, or some other value.
pub data Json : Type 0 where
  invalid other : Json
  payload : EncryptedPayload → Json
  state : RawState → Json

pub record FilePlatform : Type 0 where
  pub stringify_state : RawState → String
  pub stringify_payload : EncryptedPayload → String
  pub parse : String → Json
  -- key, iv and text to the ciphertext and the tag, and back
  pub gcm_encrypt : Bytes → Bytes → String → Bytes × Bytes
  pub gcm_decrypt : Bytes → Bytes → Bytes → Bytes → Result String

-- `catch (e)`: an unsupported version passes, any other error becomes a corrupt file.
unfoldable pub as_corrupt {ℓ} : {A : Type ℓ} → Result A → Result A
as_corrupt (ok a) = ok a
as_corrupt (err (unsupported_format_version text)) = err (unsupported_format_version text)
as_corrupt (err e) = err (corrupt_storage_file "Invalid FileSignalStorage state")

abbrev is_current_version : Option ℕ → Bool
is_current_version none = false
is_current_version (some n) = n == 1

module _ (p : Platform) (f : FilePlatform) where
  unfoldable pub encrypt_payload : String → Bytes → Bytes → String
  encrypt_payload plaintext key iv =
      let (ciphertext, auth_tag) = f.gcm_encrypt key iv plaintext in
      f.stringify_payload (record {
        iv = p.to_base64 iv;
        auth_tag = p.to_base64 auth_tag;
        ciphertext = p.to_base64 ciphertext;
      })

  unfoldable pub decrypt_payload : EncryptedPayload → Bytes → Result String
  decrypt_payload e key =
      f.gcm_decrypt key (p.from_base64 e.iv) (p.from_base64 e.auth_tag) (p.from_base64 e.ciphertext)

  -- JSON, and with a key AES-256-GCM, read back the texts of one state.
  abbrev pub ReadsBack : Option Bytes → Bytes → RawState → Type 0
  ReadsBack none iv r = f.parse (f.stringify_state r) ≡ state r
  ReadsBack (some key) iv r =
      let (ciphertext, auth_tag) = f.gcm_encrypt key iv (f.stringify_state r) in
      let e : EncryptedPayload = record {
        iv = p.to_base64 iv;
        auth_tag = p.to_base64 auth_tag;
        ciphertext = p.to_base64 ciphertext;
      } in
      (f.parse (f.stringify_state r) ≡ state r)
      × (f.parse (f.stringify_payload e) ≡ payload e)
      × (f.gcm_decrypt key iv auth_tag ciphertext ≡ ok (f.stringify_state r))

  -- The text of a state in the file, as `saveUnlocked` makes it; `iv` is drawn.
  unfoldable pub file_text : Option Bytes → Bytes → PersistedState → String
  unfolding encrypt_payload
  file_text none iv d = f.stringify_state (raw_of d)
  file_text (some key) iv d = encrypt_payload (f.stringify_state (raw_of d)) key iv

  -- The state in a JSON text, and whether its version makes it be written again.
  unfoldable pub read_state : Bool → Json → Result (PersistedState × Bool)
  read_state validate_records invalid = err (corrupt_storage_file "Invalid FileSignalStorage state")
  read_state validate_records other = err (corrupt_storage_file "Invalid FileSignalStorage state")
  read_state validate_records (payload e) =
      err (corrupt_storage_file "Invalid FileSignalStorage state")
  read_state validate_records (state r) = as_corrupt (do
    d ← normalize_persisted_state r
    (if validate_records then (do sessions ← deserialize_all p d.sessions; ok tt) else ok tt)
    ok (d, not (is_current_version r.format_version)))

  -- `loadPersistedState`; `none` is a file that cannot be read.
  unfoldable pub load_persisted_state :
      Option String → Option Bytes → Bool → Result (PersistedState × Bool)
  unfolding read_state decrypt_payload
  load_persisted_state none key validate_records =
      err (plain_error "Failed to read FileSignalStorage")
  load_persisted_state (some raw) key validate_records = elim (f.parse raw) [
    | invalid ↦ err (corrupt_storage_file "Invalid FileSignalStorage JSON")
    | payload e ↦ elim key [
      | none ↦ err (plain_error "File is encrypted; encryptionKey is required")
      | some k ↦ elim (decrypt_payload e k) [
        | err _ ↦ err (plain_error "Failed to decrypt FileSignalStorage")
        | ok json ↦ read_state validate_records (f.parse json)
      ]
    ]
    | other ↦ read_state validate_records other
    | state r ↦ read_state validate_records (state r)
  ]

-- The snapshot, its backup and the temporary file of a save; `none` is a file that is not there.
pub record Files : Type 0 where
  pub main : Option String
  pub backup : Option String
  pub temporary : Option String

-- The calls of `fs` in `saveUnlocked`.
pub data FileOp : Type 0 where
  write_temporary : String → FileOp
  remove_backup main_to_backup temporary_to_main : FileOp

unfoldable pub apply_op : FileOp → Files → Files
apply_op (write_temporary text) d = record d { temporary = some text }
apply_op remove_backup d = record d { backup = none }
apply_op main_to_backup d = record d { main = none; backup = d.main }
apply_op temporary_to_main d = record d { main = d.temporary; temporary = none }

-- The first `n` operations.
unfoldable pub run_ops : ℕ → List FileOp → Files → Files
unfolding apply_op
run_ops zero ops d = d
run_ops (suc n) [] d = d
run_ops (suc n) (op ∷ ops) d = run_ops n ops (apply_op op d)

-- The operations of a save, in order: the old snapshot moves to the backup if there are both.
unfoldable pub save_ops : Bool → String → Files → List FileOp
save_ops false text d = write_temporary text ∷ temporary_to_main ∷ []
save_ops true text d = elim d.main [
  | none ↦ write_temporary text ∷ temporary_to_main ∷ []
  | some _ ↦ write_temporary text ∷ remove_backup ∷ main_to_backup ∷ temporary_to_main ∷ []
]

-- The `catch` of `saveUnlocked`: the temporary file goes, and a snapshot that was moved aside comes
-- back. Either call may fail, which is ignored: `cleaned` and `restored` tell whether they succeed.
unfoldable pub undo_save : Bool → Bool → Bool → Files → Files
undo_save cleaned restored backup_enabled d =
    let d' = record d { temporary = if cleaned then none else d.temporary } in
    elim d.main [
      | some _ ↦ d'
      | none ↦
          if backup_enabled
          then elim d.backup [
            | none ↦ d'
            | some _ ↦ if restored then record d' { main = d.backup; backup = none } else d'
          ]
          else d'
    ]

-- The text that `create` reads: the snapshot, or the backup if there is no snapshot.
unfoldable pub recovered_text : Bool → Files → Option String
recovered_text backup_enabled d = elim d.main [
  | some text ↦ some text
  | none ↦ if backup_enabled then d.backup else none
]
