-- ===== src/PreKey/Pool/Rounds.antt =====
-- The two rounds of `createBundle` in src/prekey-pool.ts: they give a bundle that is fresh, or throw.
use libsignal_node.Common.{
  plain_error, ℕ, ◌≡◌, sym, ap, ◌∙◌, List, [], Option, none, some, Bool, true, false, Result, ok,
  err,
}
use libsignal_node.Common.Jobs.{Job, ◌>>=◌, pure, or_throw}
use libsignal_node.Platform.{KeyPair}
use libsignal_node.PreKey.Validator.{DeviceKeyBundle}
use libsignal_node.Storage.Memory.{MemorySignalStorage}
use libsignal_node.PreKey.Pool.{PreKeyPoolManager, memory_pool, replenish_pre_keys}
use libsignal_node.PreKey.Pool.Bundles.{list_candidate_pre_key_ids, try_candidates, find_bundle}
use libsignal_node.PreKey.Pool.Quiet.{IsQuiet, >>=-ok, replenish_pre_keys-IsQuiet}
use libsignal_node.PreKey.Pool.Fresh.{IsFresh, IsBuilder, IsTried, reserve}
use libsignal_node.PreKey.Pool.Candidates.{some_IsTried, IsTried-quiet, try_candidates-IsTried}

module _ (pool : PreKeyPoolManager) (build : ℕ → Job MemorySignalStorage DeviceKeyBundle)
    (builds : IsBuilder build) where
  list-IsQuiet : (b : Bool) → IsQuiet (list_candidate_pre_key_ids memory_pool pool b)
  unfolding list_candidate_pre_key_ids
  list-IsQuiet true m m' ids h = ap (λ x. x.1.published_pre_keys) (sym h)
  list-IsQuiet false m m' ids h = ap (λ x. x.1.published_pre_keys) (sym h)

  abbrev round : List ℕ → Job MemorySignalStorage (Option DeviceKeyBundle × List ℕ)
  round attempted = list_candidate_pre_key_ids memory_pool pool true >>= λ ids.
      try_candidates memory_pool pool (some reserve) build ids attempted

  round-IsTried :
      (attempted : List ℕ) (m m' : MemorySignalStorage) (found : Option DeviceKeyBundle)
      (attempted' : List ℕ)
      → round attempted m ≡ (ok (found, attempted'), m')
      → IsTried found m m'
  round-IsTried attempted m m' found attempted' h =
      let (ids, v, h1, h2) =
        >>=-ok (list_candidate_pre_key_ids memory_pool pool true)
          (λ ids. try_candidates memory_pool pool (some reserve) build ids attempted) m m'
          (found, attempted') h in
      IsTried-quiet pool build builds found m v m' (list-IsQuiet true m v ids h1)
        (try_candidates-IsTried pool build builds ids attempted v m' found attempted' h2)

  -- What `find_bundle` does after its first round.
  abbrev second_round :
      (ℕ → KeyPair) → Option DeviceKeyBundle → List ℕ → Job MemorySignalStorage DeviceKeyBundle
  second_round draw found attempted = elim found [
    | some bundle ↦ pure bundle
    | none ↦ replenish_pre_keys memory_pool pool pool.replenish_count draw >>= λ generated.
        round attempted >>= λ r.
        or_throw r.0 (plain_error "No available prekeys to create a bundle")
  ]

  last-IsFresh :
      (found : Option DeviceKeyBundle) (m v m' : MemorySignalStorage) (bundle : DeviceKeyBundle)
      → IsTried found m v
      → or_throw found (plain_error "No available prekeys to create a bundle") v ≡ (ok bundle, m')
      → IsFresh bundle m m'
  last-IsFresh none m v m' bundle tried h =
      let no : err (plain_error "No available prekeys to create a bundle") ≡ ok bundle =
        ap (λ x. x.0) h in
      absurd cc
  last-IsFresh (some bundle') m v m' bundle tried h =
      let given : Result.ok bundle' ≡ ok bundle = ap (λ x. x.0) h in
      let same : bundle' ≡ bundle = cc in
      some_IsTried bundle' bundle m v m' same (ap (λ x. x.1) h) tried

  second_round-IsFresh :
      (draw : ℕ → KeyPair) (found : Option DeviceKeyBundle) (attempted : List ℕ)
      (m v m' : MemorySignalStorage) (bundle : DeviceKeyBundle)
      → IsTried found m v
      → second_round draw found attempted v ≡ (ok bundle, m')
      → IsFresh bundle m m'
  second_round-IsFresh draw (some bundle') attempted m v m' bundle tried h =
      let given : Result.ok bundle' ≡ ok bundle = ap (λ x. x.0) h in
      let same : bundle' ≡ bundle = cc in
      some_IsTried bundle' bundle m v m' same (ap (λ x. x.1) h) tried
  second_round-IsFresh draw none attempted m v m' bundle tried h =
      let replenish = replenish_pre_keys memory_pool pool pool.replenish_count draw in
      let finish : Option DeviceKeyBundle × List ℕ → Job MemorySignalStorage DeviceKeyBundle =
        λ r. or_throw r.0 (plain_error "No available prekeys to create a bundle") in
      let (generated, v1, h1, h2) =
        >>=-ok replenish (λ _. round attempted >>= finish) v m' bundle h in
      let (r, v2, h3, h4) = >>=-ok (round attempted) finish v1 m' bundle h2 in
      let quiet = replenish_pre_keys-IsQuiet pool pool.replenish_count draw v v1 generated h1 in
      last-IsFresh r.0 m v2 m' bundle
        (IsTried-quiet pool build builds r.0 m v1 v2 (quiet ∙ tried)
          (round-IsTried attempted v1 v2 r.0 r.1 h3))
        h4

  pub find_bundle-IsFresh :
      (draw : ℕ → KeyPair) (m m' : MemorySignalStorage) (bundle : DeviceKeyBundle)
      → find_bundle memory_pool pool (some reserve) build draw m ≡ (ok bundle, m')
      → IsFresh bundle m m'
  unfolding find_bundle list_candidate_pre_key_ids
  find_bundle-IsFresh draw m m' bundle h =
      let rest : Option DeviceKeyBundle × List ℕ → Job MemorySignalStorage DeviceKeyBundle =
        λ r. second_round draw r.0 r.1 in
      let whole : (round [] >>= rest) m ≡ (ok bundle, m') = h in
      let (r, v, h1, h2) = >>=-ok (round []) rest m m' bundle whole in
      second_round-IsFresh draw r.0 r.1 m v m' bundle (round-IsTried [] m v r.0 r.1 h1) h2
