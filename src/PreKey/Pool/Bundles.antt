-- ===== src/PreKey/Pool/Bundles.antt =====
-- `createBundle`, `buildBundle`, `listCandidatePreKeyIds` and `releasePreKey` of src/prekey-pool.ts.
use libsignal_node.Common.{
  ℕ, List, [], ◌∷◌, Option, none, some, Bool, true, false, if◌then◌else◌, plain_error,
}
use libsignal_node.Common.Jobs.{Job, pure, throw, lift, or_throw, ◌>>=◌, ◌>>◌}
use libsignal_node.Platform.{Platform, KeyPair}
use libsignal_node.PreKey.KeyHelper.{SignedPreKey}
use libsignal_node.PreKey.Validator.{DeviceKeyBundle, assert_valid_device_key_bundle}
use libsignal_node.Storage.Memory.{contains, sort_numbers}
use libsignal_node.PreKey.Pool.{
  PreKeyPoolStorage, PreKeyPoolManager, Draws, ensure_pre_keys, ensure_signed_pre_key,
  replenish_pre_keys,
}

pub record CreatePreKeyBundleOptions : Type 0 where
  pub registration_id : Option ℕ
  pub pre_key_id : Option ℕ
  pub reserve : Option Bool

module _ {S : Type 0} (storage : PreKeyPoolStorage S) (pool : PreKeyPoolManager) where
  abbrev pub bundle_with : SignedPreKey → ℕ → ℕ → KeyPair → DeviceKeyBundle
  bundle_with signed registration_id pre_key_id key_pair = record {
    registration_id = registration_id;
    identity_key = pool.identity_key_pair.pub_key;
    signed_pre_key = record {
      key_id = signed.key_id;
      public_key = signed.key_pair.pub_key;
      signature = signed.signature;
    };
    pre_key = some (record { key_id = pre_key_id; public_key = key_pair.pub_key });
  }

  unfoldable pub build_bundle :
      (ℕ → Job S (Option KeyPair)) → ℕ → SignedPreKey → ℕ → Job S DeviceKeyBundle
  build_bundle load_pre_key pre_key_id signed registration_id = do
    loaded ← load_pre_key pre_key_id
    key_pair ← or_throw loaded (plain_error "No prekey found")
    let bundle = bundle_with signed registration_id pre_key_id key_pair
    lift (assert_valid_device_key_bundle bundle)
    pure bundle

  -- The operation to reserve with, if the options and the storage have one.
  unfoldable pub reservation : CreatePreKeyBundleOptions → Option (ℕ → Job S Bool)
  reservation options = elim options.reserve [ some false ↦ none | _ ↦ storage.reserve_pre_key ]

  abbrev sorted : Job S (List ℕ) → Job S (List ℕ)
  sorted m = m >>= λ ids. pure (sort_numbers ids)

  abbrev all_ids : Job S (List ℕ)
  all_ids w = elim storage.list_pre_key_ids [
    | none ↦ throw (plain_error "No prekeys available to create a bundle") w
    | some ids ↦ sorted ids w
  ]

  unfoldable pub list_candidate_pre_key_ids : Bool → Job S (List ℕ)
  list_candidate_pre_key_ids false w = all_ids w
  list_candidate_pre_key_ids true w = elim storage.list_available_pre_key_ids [
    | none ↦ all_ids w
    | some ids ↦ sorted ids w
  ]

  -- Whether a candidate is the caller's: without reservations every one is.
  unfoldable pub take_candidate : Option (ℕ → Job S Bool) → ℕ → Job S Bool
  take_candidate none id = pure true
  take_candidate (some reserve_pre_key) id = reserve_pre_key id

  abbrev pub is_some {ℓ} : {A : Type ℓ} → Option A → Bool
  is_some none = false
  is_some (some _) = true

  -- The inner loop of `createBundle`: the first candidate that can be taken, and the ids attempted.
  unfoldable pub try_candidates :
      Option (ℕ → Job S Bool)
      → (ℕ → Job S DeviceKeyBundle)
      → List ℕ
      → List ℕ
      → Job S (Option DeviceKeyBundle × List ℕ)
  unfolding take_candidate
  try_candidates reserve build [] attempted = pure (none, attempted)
  try_candidates reserve build (id ∷ ids) attempted =
      let rest = try_candidates reserve build ids in
      if contains id attempted then rest attempted else (do
        bundle ← build id
        taken ← take_candidate reserve id
        if taken then pure (some bundle, id ∷ attempted) else rest (id ∷ attempted))

  -- The two rounds: the pool is replenished after the first.
  unfoldable pub find_bundle :
      Option (ℕ → Job S Bool) → (ℕ → Job S DeviceKeyBundle) → (ℕ → KeyPair) → Job S DeviceKeyBundle
  unfolding try_candidates list_candidate_pre_key_ids replenish_pre_keys
  find_bundle reserve build draw = do
    ids ← list_candidate_pre_key_ids (is_some reserve)
    (found, attempted) ← try_candidates reserve build ids []
    elim found [
      | some bundle ↦ pure bundle
      | none ↦ (do
        generated ← replenish_pre_keys storage pool pool.replenish_count draw
        ids' ← list_candidate_pre_key_ids (is_some reserve)
        (found', _) ← try_candidates reserve build ids' attempted
        or_throw found' (plain_error "No available prekeys to create a bundle"))
    ]

  abbrev pub registration : CreatePreKeyBundleOptions → Job S ℕ
  registration options w = elim options.registration_id [
    | some n ↦ (pure n) w
    | none ↦ elim storage.get_our_registration_id [
      | some get ↦ get w
      | none ↦ throw (plain_error "registrationId is required to create a bundle") w
    ]
  ]

  unfoldable pub create_bundle :
      Platform → Draws → CreatePreKeyBundleOptions → Job S DeviceKeyBundle
  unfolding find_bundle build_bundle reservation ensure_pre_keys ensure_signed_pre_key
  create_bundle p draws options = do
    ensure_pre_keys storage pool draws.ensured
    load_pre_key ←
        or_throw storage.load_pre_key (plain_error "PreKeyPoolStorage must implement loadPreKey()")
    signed ← ensure_signed_pre_key storage pool p draws.now draws.signed
    registration_id ← registration options
    let reserve = reservation options
    let build : ℕ → Job S DeviceKeyBundle =
        λ id. build_bundle load_pre_key id signed registration_id
    elim options.pre_key_id [
      | none ↦ find_bundle reserve build draws.replenished
      | some id ↦ (do
        bundle ← build id
        taken ← take_candidate reserve id
        if taken then pure bundle else throw (plain_error "Prekey has already been published"))
    ]

  unfoldable pub release_pre_key : ℕ → Job S Bool
  release_pre_key id w = elim storage.release_pre_key [
    | none ↦ throw (plain_error "PreKeyPoolStorage must implement releasePreKey()") w
    | some release ↦ release id w
  ]
