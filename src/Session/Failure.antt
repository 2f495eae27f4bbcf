-- ===== src/Session/Failure.antt =====
-- What a job of the session cipher or builder that throws has done to the storage, whose methods may
-- throw too.
pub mod Rules
use libsignal_node.Common.{
  ℕ, ◌≡◌, ◌⊎◌, refl, sym, arith, Bytes, String, SignalError, ok, err, Option-cases,
}
use mathlib.Core.Path.{subst}
use libsignal_node.Common.Jobs.{continue, throw, lift, ◌>>◌, ◌>>=◌, or_throw, require}
use libsignal_node.Session.Failure.Rules.{IfThrown}
use libsignal_node.Platform.{Platform}
use libsignal_node.Session.Entry.{SessionEntry}
use libsignal_node.Session.Record.{SessionRecord}
use libsignal_node.Session.Cipher.{EncryptedMessage}
use libsignal_node.Storage.Interface.{SignalStorage, Direction}

-- What each method of the storage keeps, however it ends: what a job reads, the trust check for `id`, and
-- a `storeSession` that throws.
pub record Keeps {W : Type 0} (storage : SignalStorage W) (id : String) (P : W → Type 0)
    : Type 0 where
  pub session : (address : String) (w : W) → P w → P (storage.load_session address w).1
  pub trust :
      (key : Bytes) (direction : Direction) (w : W)
      → P w
      → P (storage.is_trusted_identity id key direction w).1
  pub identity : (w : W) → P w → P (storage.load_identity id w).1
  pub pre_key : (n : ℕ) (w : W) → P w → P (storage.load_pre_key n w).1
  pub signed_pre_key : (n : ℕ) (w : W) → P w → P (storage.load_signed_pre_key n w).1
  pub our_identity : (w : W) → P w → P (storage.get_our_identity w).1
  pub not_stored :
      (address : String) (r : SessionRecord) (w : W)
      → P w
      → IfThrown P (storage.store_session address r w)

module _ {W : Type 0} (p : Platform) (storage : SignalStorage W) (max_age : ℕ) (id : String)
    (P : W → Type 0) (keeps : Keeps storage id P) where
  open storage use {
    load_session, is_trusted_identity, load_identity, get_our_identity, get_our_registration_id,
    load_pre_key, remove_pre_key, load_signed_pre_key,
  }

  abbrev Any : W → Type 0
  Any w = Unit {0}

  -- The state may be that of a throw of `getOurRegistrationId`, or of `removePreKey`.
  abbrev pub OrUnregistered : W → Type 0
  OrUnregistered w' =
      P w' ⊎ ((w : W) × (e : SignalError) × (get_our_registration_id w ≡ (err e, w')))

  abbrev pub OrUnremoved : W → Type 0
  OrUnremoved w' =
      P w' ⊎ ((w : W) × (n : ℕ) × (e : SignalError) × (remove_pre_key n w ≡ (err e, w')))
