-- ===== src/PreKey/Pool/Distinct.antt =====
-- Two bundles of `createBundle` in src/prekey-pool.ts never publish one prekey.
use libsignal_node.Common.{
  plain_error, ℕ, ◌≡◌, ◌≢◌, refl, sym, ap, ◌∙◌, Option, none, some, Bool, true, false, Result, ok,
  err, inl, inr, Option-cases, if◌then◌else◌,
}
use mathlib.Core.Path.{subst}
use libsignal_node.Common.Jobs.{Job, ◌>>=◌, pure, throw, gets}
use libsignal_node.Platform.{Platform, KeyPair}
use libsignal_node.PreKey.KeyHelper.{SignedPreKey}
use libsignal_node.PreKey.Validator.{DeviceKeyBundle, PreKeyBundle}
use libsignal_node.Storage.Memory.{MemorySignalStorage, contains, load_pre_key}
use libsignal_node.Storage.Memory.Trust.{contains-append}
use libsignal_node.PreKey.Pool.{
  PreKeyPoolManager, Draws, memory_pool, ensure_pre_keys, ensure_signed_pre_key,
}
use libsignal_node.PreKey.Pool.Bundles.{
  CreatePreKeyBundleOptions, build_bundle, take_candidate, find_bundle, create_bundle, reservation,
}
use libsignal_node.PreKey.Pool.Quiet.{
  IsQuiet, >>=-ok, ensure_pre_keys-IsQuiet, ensure_signed_pre_key-IsQuiet,
}
use libsignal_node.PreKey.Pool.Fresh.{IsFresh, IsBuilder, reserve, build_bundle-IsBuilder}
use libsignal_node.PreKey.Pool.Bundles.{registration}
use libsignal_node.PreKey.Pool.Candidates.{found_IsTried, some_IsTried, IsTried-quiet}
use libsignal_node.PreKey.Pool.Rounds.{find_bundle-IsFresh}

reservation-reserve :
    (pool : PreKeyPoolManager) (options : CreatePreKeyBundleOptions)
    → options.reserve ≢ some false
    → reservation memory_pool pool options ≡ some reserve
unfolding reservation
reservation-reserve pool options h = elim (Option-cases options.reserve) [
  | inl e ↦ rw (reservation, e) refl
  | inr (true, e) ↦ rw (reservation, e) refl
  | inr (false, e) ↦ absurd (h e)
]

registration-IsQuiet :
    (pool : PreKeyPoolManager) (options : CreatePreKeyBundleOptions)
    → IsQuiet (registration memory_pool pool options)
registration-IsQuiet pool options m m' n h = elim (Option-cases options.registration_id) [
  | inl e ↦
      let same : registration memory_pool pool options m ≡ (ok m.registration_id, m) =
        rw (registration, e) refl in
      ap (λ x. x.1.published_pre_keys) (sym h ∙ same)
  | inr (k, e) ↦
      let same : registration memory_pool pool options m ≡ (ok k, m) = rw (registration, e) refl in
      ap (λ x. x.1.published_pre_keys) (sym h ∙ same)
]

module _ (pool : PreKeyPoolManager) (build : ℕ → Job MemorySignalStorage DeviceKeyBundle) where
  -- `createBundle` once it knows what to build with.
  abbrev chosen :
      (ℕ → KeyPair)
      → Option ℕ
      → Option (ℕ → Job MemorySignalStorage Bool)
      → Job MemorySignalStorage DeviceKeyBundle
  chosen draw id_option reserve_option = elim id_option [
    | none ↦ find_bundle memory_pool pool reserve_option build draw
    | some id ↦ build id >>= λ bundle.
        take_candidate memory_pool pool reserve_option id >>= λ taken.
        if taken then pure bundle else throw (plain_error "Prekey has already been published")
  ]

module _ (pool : PreKeyPoolManager) (build : ℕ → Job MemorySignalStorage DeviceKeyBundle)
    (builds : IsBuilder build) where
  taken_IsFresh :
      (built bundle : DeviceKeyBundle) (taken : Bool) (id : ℕ) (m v v' m' : MemorySignalStorage)
      → build id m ≡ (ok built, v)
      → reserve id v ≡ (ok taken, v')
      → (if taken then pure built else throw (plain_error "Prekey has already been published")) v'
        ≡ (ok bundle, m')
      → IsFresh bundle m m'
  taken_IsFresh built bundle true id m v v' m' h1 h2 h3 =
      let (quiet, valid, made) = builds id m v built h1 in
      let given : Result.ok built ≡ ok bundle = ap (λ x. x.0) h3 in
      let same : built ≡ bundle = cc in
      some_IsTried built bundle m v' m' same (ap (λ x. x.1) h3)
        (found_IsTried pool build builds built id m v v' valid made quiet h2)
  taken_IsFresh built bundle false id m v v' m' h1 h2 h3 =
      let no : err (plain_error "Prekey has already been published") ≡ ok bundle =
        ap (λ x. x.0) h3 in
      absurd cc

  chosen-IsFresh :
      (draw : ℕ → KeyPair) (id_option : Option ℕ) (m m' : MemorySignalStorage)
      (bundle : DeviceKeyBundle)
      → chosen pool build draw id_option (some reserve) m ≡ (ok bundle, m')
      → IsFresh bundle m m'
  unfolding take_candidate
  chosen-IsFresh draw none m m' bundle h = find_bundle-IsFresh pool build builds draw m m' bundle h
  chosen-IsFresh draw (some id) m m' bundle h =
      let finish : DeviceKeyBundle → Bool → Job MemorySignalStorage DeviceKeyBundle = λ built taken.
        if taken then pure built else throw (plain_error "Prekey has already been published") in
      let (built, v, h1, h2) =
        >>=-ok (build id) (λ built. reserve id >>= finish built) m m' bundle h in
      let (taken, v', h3, h4) = >>=-ok (reserve id) (finish built) v m' bundle h2 in
      taken_IsFresh built bundle taken id m v v' m' h1 h3 h4

  reserved_IsFresh :
      (draw : ℕ → KeyPair) (id_option : Option ℕ) (r : Option (ℕ → Job MemorySignalStorage Bool))
      (m m' : MemorySignalStorage) (bundle : DeviceKeyBundle)
      → r ≡ some reserve
      → chosen pool build draw id_option r m ≡ (ok bundle, m')
      → IsFresh bundle m m'
  reserved_IsFresh draw id_option r m m' bundle same h =
      chosen-IsFresh draw id_option m m' bundle
        (subst (λ r. chosen pool build draw id_option r m ≡ (ok bundle, m')) same h)

module _ (p : Platform) (pool : PreKeyPoolManager) where
  -- A bundle that `createBundle` gives passes the validator and publishes a prekey that was not
  -- reserved before and is reserved after; nothing else becomes reserved or free.
  pub create_bundle-IsFresh :
      (draws : Draws) (options : CreatePreKeyBundleOptions) (m m' : MemorySignalStorage)
      (bundle : DeviceKeyBundle)
      → options.reserve ≢ some false
      → create_bundle memory_pool pool p draws options m ≡ (ok bundle, m')
      → IsFresh bundle m m'
  unfolding create_bundle
  create_bundle-IsFresh draws options m m' bundle reserving h =
      let ensured = ensure_pre_keys memory_pool pool draws.ensured in
      let signing = ensure_signed_pre_key memory_pool pool p draws.now draws.signed in
      let load : ℕ → Job MemorySignalStorage (Option KeyPair) = λ id. gets (load_pre_key id) in
      let build : SignedPreKey → ℕ → ℕ → Job MemorySignalStorage DeviceKeyBundle =
        λ signed n id. build_bundle memory_pool pool load id signed n in
      let choose : SignedPreKey → ℕ → Job MemorySignalStorage DeviceKeyBundle = λ signed n.
        chosen pool (build signed n) draws.replenished options.pre_key_id
          (reservation memory_pool pool options) in
      let register = registration memory_pool pool options in
      let (u, v1, h1, h2) =
        >>=-ok ensured (λ _. signing >>= λ signed. register >>= choose signed) m m' bundle h in
      let (signed, v2, h3, h4) =
        >>=-ok signing (λ signed. register >>= choose signed) v1 m' bundle h2 in
      let (n, v3, h5, h6) = >>=-ok register (choose signed) v2 m' bundle h4 in
      let quiet : v3.published_pre_keys ≡ m.published_pre_keys =
        registration-IsQuiet pool options v2 v3 n h5
        ∙ (ensure_signed_pre_key-IsQuiet pool p draws.now draws.signed v1 v2 signed h3
            ∙ ensure_pre_keys-IsQuiet pool draws.ensured m v1 u h1) in
      let builds = build_bundle-IsBuilder pool signed n in
      IsTried-quiet pool (build signed n) builds (some bundle) m v3 m' quiet (
        reserved_IsFresh pool (build signed n) builds draws.replenished options.pre_key_id
          (reservation memory_pool pool options) v3 m' bundle
          (reservation-reserve pool options reserving) h6)

  -- Of two bundles that `createBundle` gives one after the other, each with its own options but both with
  -- reservations, the prekeys differ.
  pub create_bundle-create_bundle :
      (draws draws' : Draws) (options options' : CreatePreKeyBundleOptions)
      (m m' m'' : MemorySignalStorage) (bundle bundle' : DeviceKeyBundle)
      → options.reserve ≢ some false
      → options'.reserve ≢ some false
      → create_bundle memory_pool pool p draws options m ≡ (ok bundle, m')
      → create_bundle memory_pool pool p draws' options' m' ≡ (ok bundle', m'')
      → (k : PreKeyBundle) × (k' : PreKeyBundle) × (bundle.pre_key ≡ some k)
        × (bundle'.pre_key ≡ some k')
        × (k.key_id ≢ k'.key_id)
  create_bundle-create_bundle draws draws' options options' m m' m'' bundle bundle' r r' h h' =
      let (valid, (k, has, free, now)) = create_bundle-IsFresh draws options m m' bundle r h in
      let (valid', (k', has', free', now')) =
        create_bundle-IsFresh draws' options' m' m'' bundle' r' h' in
      let taken : contains k.key_id m'.published_pre_keys ≡ true =
        ap (contains k.key_id) now ∙ contains-append k.key_id m.published_pre_keys in
      (
        k,
        k',
        has,
        has',
        λ e.
            let no : true ≡ false =
              sym taken ∙ (ap (λ i. contains i m'.published_pre_keys) e ∙ free') in
            cc,
      )
