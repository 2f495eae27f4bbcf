-- ===== src/PreKey/Pool/Fresh.antt =====
-- Bundles that `createBundle` of src/prekey-pool.ts makes from the memory storage do not share a prekey.
use libsignal_node.Common.{
  plain_error, ℕ, ◌≡◌, refl, sym, ap, ◌∙◌, arith, [], ◌∷◌, ◌++◌, Option, none, some, Bool, true,
  false, not, ◌||◌, Result, ok, err, inl, inr, Bool-cases, Option-cases,
}
use libsignal_node.Common.Jobs.{Job, ◌>>◌, lift, pure, gets}
use libsignal_node.Platform.{KeyPair}
use libsignal_node.PreKey.KeyHelper.{SignedPreKey}
use libsignal_node.PreKey.Validator.{DeviceKeyBundle, PreKeyBundle, assert_valid_device_key_bundle}
use libsignal_node.Storage.Memory.{
  MemorySignalStorage, contains, has_pre_key, reserve_pre_key, load_pre_key,
}
use libsignal_node.Storage.Memory.Trust.{reserve_pre_key-refused, reserve_pre_key-free}
use libsignal_node.PreKey.Pool.{PreKeyPoolManager, memory_pool}
use libsignal_node.PreKey.Pool.Bundles.{bundle_with, build_bundle}
use libsignal_node.PreKey.Pool.Quiet.{>>=-ok}

-- The bundle publishes a prekey that was not reserved, and now is.
abbrev pub IsFresh : DeviceKeyBundle → MemorySignalStorage → MemorySignalStorage → Type 0
IsFresh bundle m m' =
    (assert_valid_device_key_bundle bundle ≡ ok tt)
    × ((k : PreKeyBundle) × (bundle.pre_key ≡ some k)
        × (contains k.key_id m.published_pre_keys ≡ false)
        × (m'.published_pre_keys ≡ m.published_pre_keys ++ k.key_id ∷ []))

abbrev pub reserve : ℕ → Job MemorySignalStorage Bool
reserve id m = let (b, m') = reserve_pre_key id m in (ok b, m')

reserve_refused :
    (id : ℕ) (m : MemorySignalStorage)
    → (not (has_pre_key id m) || contains id m.published_pre_keys) ≡ true
    → reserve id m ≡ (ok false, m)
reserve_refused id m h = rw (reserve_pre_key-refused id m h) refl

reserve_free :
    (id : ℕ) (m : MemorySignalStorage)
    → (not (has_pre_key id m) || contains id m.published_pre_keys) ≡ false
    → reserve id m ≡ (ok true, record m { published_pre_keys = m.published_pre_keys ++ id ∷ [] })
reserve_free id m h = rw (reserve_pre_key-free id m h) refl

pub reserve_true :
    (id : ℕ) (m m' : MemorySignalStorage)
    → reserve id m ≡ (ok true, m')
    → (contains id m.published_pre_keys ≡ false)
      × (m'.published_pre_keys ≡ m.published_pre_keys ++ id ∷ [])
reserve_true id m m' h =
    elim (Bool-cases (not (has_pre_key id m) || contains id m.published_pre_keys)) [
      | inl refused ↦
          let no : Result.ok false ≡ ok true =
            ap (λ x. x.0) (sym (reserve_refused id m refused) ∙ h) in
          absurd cc
      | inr free ↦ (ground arith, ap (λ x. x.1.published_pre_keys) (sym h ∙ reserve_free id m free))
    ]

pub reserve_false :
    (id : ℕ) (m m' : MemorySignalStorage)
    → reserve id m ≡ (ok false, m')
    → m'.published_pre_keys ≡ m.published_pre_keys
reserve_false id m m' h =
    elim (Bool-cases (not (has_pre_key id m) || contains id m.published_pre_keys)) [
      | inl refused ↦ ap (λ x. x.1.published_pre_keys) (sym h ∙ reserve_refused id m refused)
      | inr free ↦
          let no : Result.ok true ≡ ok false = ap (λ x. x.0) (sym (reserve_free id m free) ∙ h) in
          absurd cc
    ]

-- A job that builds a bundle with the prekey of an id.
abbrev pub IsBuilder : (ℕ → Job MemorySignalStorage DeviceKeyBundle) → Type 0
IsBuilder build =
    (id : ℕ) (m m' : MemorySignalStorage) (bundle : DeviceKeyBundle)
    → build id m ≡ (ok bundle, m')
    → (m'.published_pre_keys ≡ m.published_pre_keys)
      × (assert_valid_device_key_bundle bundle ≡ ok tt)
      × ((k : PreKeyBundle) × (bundle.pre_key ≡ some k) × (k.key_id ≡ id))

pub build_bundle-IsBuilder :
    (pool : PreKeyPoolManager) (signed : SignedPreKey) (registration_id : ℕ)
    → IsBuilder (λ id.
      build_bundle memory_pool pool (λ id. gets (load_pre_key id)) id signed registration_id)
unfolding build_bundle
build_bundle-IsBuilder pool signed registration_id id m m' bundle h =
    let load : ℕ → Job MemorySignalStorage (Option KeyPair) = λ id. gets (load_pre_key id) in
    elim (Option-cases (load_pre_key id m)) [
      | inl missing ↦
          let thrown : build_bundle memory_pool pool load id signed registration_id m
              ≡ (err (plain_error "No prekey found"), m) =
            rw (build_bundle, missing) refl in
          let no : err (plain_error "No prekey found") ≡ ok bundle =
            ap (λ x. x.0) (sym thrown ∙ h) in
          absurd cc
      | inr (key_pair, e) ↦
          let made = bundle_with memory_pool pool signed registration_id id key_pair in
          let checked : Job MemorySignalStorage (Unit {0}) =
            lift (assert_valid_device_key_bundle made) in
          let went : build_bundle memory_pool pool load id signed registration_id m
              ≡ (checked >> pure made) m =
            rw (build_bundle, e) refl in
          let (u, v, h1, h2) = >>=-ok checked (λ _. pure made) m m' bundle (sym went ∙ h) in
          let given : Result.ok made ≡ ok bundle = ap (λ x. x.0) h2 in
          let same : made ≡ bundle = cc in
          let valid : assert_valid_device_key_bundle made ≡ ok tt = ap (λ x. x.0) h1 in
          (
            ap (λ x. x.1.published_pre_keys) (sym h2) ∙ ap (λ x. x.1.published_pre_keys) (sym h1),
            rw (← same) valid,
            (record { key_id = id; public_key = key_pair.pub_key }, rw (← same) refl, refl),
          )
    ]

-- What the loop over the candidates gives: a fresh bundle, or none and no reservation.
abbrev pub IsTried : Option DeviceKeyBundle → MemorySignalStorage → MemorySignalStorage → Type 0
IsTried none m m' = m'.published_pre_keys ≡ m.published_pre_keys
IsTried (some bundle) m m' = IsFresh bundle m m'
