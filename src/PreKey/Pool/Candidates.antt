-- ===== src/PreKey/Pool/Candidates.antt =====
-- The inner loop of `createBundle` in src/prekey-pool.ts: it stops at the first prekey it can reserve.
use libsignal_node.Common.{
  ℕ, ◌≡◌, refl, sym, ap, ◌∙◌, List, [], ◌∷◌, Option, none, some, Bool, true, false, Result, ok, inl,
  inr, Bool-cases, if◌then◌else◌,
}
use libsignal_node.Common.Jobs.{Job, ◌>>=◌, pure}
use libsignal_node.PreKey.Validator.{DeviceKeyBundle, PreKeyBundle, assert_valid_device_key_bundle}
use libsignal_node.Storage.Memory.{MemorySignalStorage, contains}
use libsignal_node.PreKey.Pool.{PreKeyPoolManager, memory_pool}
use libsignal_node.PreKey.Pool.Bundles.{take_candidate, try_candidates}
use libsignal_node.PreKey.Pool.Quiet.{>>=-ok}
use libsignal_node.PreKey.Pool.Fresh.{
  IsFresh, IsBuilder, IsTried, reserve, reserve_true, reserve_false,
}

pub some_IsTried :
    (bundle bundle' : DeviceKeyBundle) (m v m' : MemorySignalStorage)
    → bundle ≡ bundle'
    → v ≡ m'
    → IsFresh bundle m v
    → IsFresh bundle' m m'
some_IsTried bundle bundle' m v m' same last fresh = rw (← same, ← last) fresh

rest_of_found :
    (bundle : DeviceKeyBundle) (found : Option DeviceKeyBundle) (ids ids' : List ℕ)
    (m v m' : MemorySignalStorage)
    → IsFresh bundle m v
    → ◌≡◌ {A = Result (Option DeviceKeyBundle × List ℕ) × MemorySignalStorage}
        (ok (some bundle, ids), v)
        (ok (found, ids'), m')
    → IsTried found m m'
rest_of_found bundle none ids ids' m v m' fresh h =
    let no : Result.ok (some bundle, ids) ≡ ok (none, ids') = ap (λ x. x.0) h in absurd cc
rest_of_found bundle (some bundle') ids ids' m v m' fresh h =
    let given : Result.ok (some bundle, ids) ≡ ok (some bundle', ids') = ap (λ x. x.0) h in
    let same : bundle ≡ bundle' = cc in
    some_IsTried bundle bundle' m v m' same (ap (λ x. x.1) h) fresh

module _ (pool : PreKeyPoolManager) (build : ℕ → Job MemorySignalStorage DeviceKeyBundle)
    (builds : IsBuilder build) where
  pub found_IsTried :
      (bundle : DeviceKeyBundle) (id : ℕ) (m v v' : MemorySignalStorage)
      → assert_valid_device_key_bundle bundle ≡ ok tt
      → (k : PreKeyBundle) × (bundle.pre_key ≡ some k) × (k.key_id ≡ id)
      → v.published_pre_keys ≡ m.published_pre_keys
      → reserve id v ≡ (ok true, v')
      → IsFresh bundle m v'
  found_IsTried bundle id m v v' valid (k, has, same) quiet h =
      let (free, now) = reserve_true id v v' h in
      (valid, (k, has, rw (same, ← quiet) free, rw (same, ← quiet) now))

  pub IsTried-quiet :
      (found : Option DeviceKeyBundle) (m v m' : MemorySignalStorage)
      → v.published_pre_keys ≡ m.published_pre_keys
      → IsTried found v m'
      → IsTried found m m'
  IsTried-quiet none m v m' quiet h = h ∙ quiet
  IsTried-quiet (some bundle) m v m' quiet h = rw (← quiet) h

  pub try_candidates-IsTried :
      (ids attempted : List ℕ) (m m' : MemorySignalStorage) (found : Option DeviceKeyBundle)
      (attempted' : List ℕ)
      → try_candidates memory_pool pool (some reserve) build ids attempted m
        ≡ (ok (found, attempted'), m')
      → IsTried found m m'
  unfolding try_candidates take_candidate
  try_candidates-IsTried [] attempted m m' none attempted' h =
      ap (λ x. x.1.published_pre_keys) (sym h)
  try_candidates-IsTried [] attempted m m' (some bundle) attempted' h =
      let no : Result.ok (none, attempted) ≡ ok (some bundle, attempted') = ap (λ x. x.0) h in
      absurd cc
  try_candidates-IsTried (id ∷ ids) attempted m m' found attempted' h =
      elim (Bool-cases (contains id attempted)) [
        | inl seen ↦
            let went : try_candidates memory_pool pool (some reserve) build (id ∷ ids) attempted m
                ≡ try_candidates memory_pool pool (some reserve) build ids attempted m =
              rw (try_candidates, seen) refl in
            try_candidates-IsTried ids attempted m m' found attempted' (sym went ∙ h)
        | inr new ↦
            let after : DeviceKeyBundle
                → Bool
                → Job MemorySignalStorage (Option DeviceKeyBundle × List ℕ) =
              λ bundle taken.
                if taken
                then pure (some bundle, id ∷ attempted)
                else try_candidates memory_pool pool (some reserve) build ids (id ∷ attempted) in
            let went : try_candidates memory_pool pool (some reserve) build (id ∷ ids) attempted m
                ≡ (build id >>= λ bundle. reserve id >>= after bundle) m =
              rw (try_candidates, new) refl in
            let (bundle, v, h1, h2) =
              >>=-ok (build id) (λ bundle. reserve id >>= after bundle) m m' (found, attempted')
                (sym went ∙ h) in
            let (taken, v', h3, h4) =
              >>=-ok (reserve id) (after bundle) v m' (found, attempted') h2 in
            let (quiet, valid, made) = builds id m v bundle h1 in
            elim taken
                as (λ t.
                  reserve id v ≡ (ok t, v')
                  → after bundle t v' ≡ (ok (found, attempted'), m')
                  → IsTried found m m') [
                    | true ↦ λ h3 h4.
                        rest_of_found bundle found (id ∷ attempted) attempted' m v' m'
                          (found_IsTried bundle id m v v' valid made quiet h3) h4
                    | false ↦ λ h3 h4.
                        IsTried-quiet found m v' m' (reserve_false id v v' h3 ∙ quiet)
                          (try_candidates-IsTried ids (id ∷ attempted) v' m' found attempted' h4)
                  ]
              h3 h4
      ]
