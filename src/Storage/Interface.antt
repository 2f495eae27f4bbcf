-- ===== src/Storage/Interface.antt =====
-- The interface `SignalStorage` of src/types.ts over a state `W`: what the session code calls. Every
-- method may throw, and may have changed the state when it does.
use libsignal_node.Common.{ℕ, Bytes, Option, Bool, String}
use libsignal_node.Common.Jobs.{Job}
use libsignal_node.Platform.{KeyPair}
use libsignal_node.Session.Record.{SessionRecord}

pub data Direction : Type 0 where
  sending receiving : Direction

pub record SignalStorage (W : Type 0) : Type 0 where
  pub load_session : String → Job W (Option SessionRecord)
  pub store_session : String → SessionRecord → Job W (Unit {0})
  -- May remember the identity, as trust on first use does.
  pub is_trusted_identity : String → Bytes → Direction → Job W Bool
  -- `none` too where the storage has no `loadIdentity`.
  pub load_identity : String → Job W (Option Bytes)
  pub load_pre_key : ℕ → Job W (Option KeyPair)
  pub remove_pre_key : ℕ → Job W (Unit {0})
  pub load_signed_pre_key : ℕ → Job W (Option KeyPair)
  pub get_our_registration_id : Job W ℕ
  pub get_our_identity : Job W KeyPair
