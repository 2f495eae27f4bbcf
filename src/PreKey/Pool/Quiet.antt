-- ===== src/PreKey/Pool/Quiet.antt =====
-- What `createBundle` of src/prekey-pool.ts does before it reserves a prekey changes no reservation.
use libsignal_node.Common.{
  delete, nat_eq, ◌+◌, if◌then◌else◌, put, ◌==◌, length, ℕ, ◌≡◌, refl, sym, ap, ◌∙◌, List, [], ◌∷◌,
  Option, none, some, Bool, true, false, leb, Dict, Result, ok, err, inl, inr, Bool-cases,
}
use libsignal_node.Common.Jobs.{Job, ◌>>=◌, ◌>>◌, lift, pure, gets, modify, continue}
use libsignal_node.Platform.{Platform, KeyPair}
use libsignal_node.PreKey.KeyHelper.{
  wrap_pre_key_id, should_rotate_signed_pre_key, SignedPreKey, PreKey, pre_keys_batch,
  generate_signed_pre_key,
}
use libsignal_node.Storage.Memory.{
  MemorySignalStorage, list_available_pre_key_ids, prune_retired, store_signed_pre_key,
  store_pre_key, set_next_pre_key_id,
}
use libsignal_node.PreKey.Pool.{
  PreKeyPoolManager, memory_pool, available_or_all, store_all, replenish_pre_keys, ensure_pre_keys,
  rotate_signed_pre_key, ensure_signed_pre_key,
}

continue-ok :
    {W A B : Type 0} (r : Result A) (f : A → Job W B) (w w' : W) (b : B)
    → continue r f w ≡ (ok b, w')
    → (a : A) × (r ≡ ok a) × (f a w ≡ (ok b, w'))
continue-ok (err e) f w w' b h = let no : err e ≡ ok b = ap (λ x. x.0) h in absurd cc
continue-ok (ok a) f w w' b h = (a, refl, h)

pub >>=-ok :
    {W A B : Type 0} (m : Job W A) (f : A → Job W B) (w w' : W) (b : B)
    → (m >>= f) w ≡ (ok b, w')
    → (a : A) × (v : W) × (m w ≡ (ok a, v)) × (f a v ≡ (ok b, w'))
>>=-ok m f w w' b h =
    let (a, c, k) = continue-ok (m w).0 f (m w).1 w' b h in (a, (m w).1, rw (← c) refl, k)

-- A job whose success leaves the published prekeys as they were.
abbrev pub IsQuiet : {A : Type 0} → Job MemorySignalStorage A → Type 0
IsQuiet {A} job =
    (m m' : MemorySignalStorage) (a : A)
    → job m ≡ (ok a, m')
    → m'.published_pre_keys ≡ m.published_pre_keys

pub >>=-IsQuiet :
    {A B : Type 0} (job : Job MemorySignalStorage A) (f : A → Job MemorySignalStorage B)
    → IsQuiet job
    → ((a : A) → IsQuiet (f a))
    → IsQuiet (job >>= f)
>>=-IsQuiet job f quiet quiet' m m' b h =
    let (a, v, h1, h2) = >>=-ok job f m m' b h in quiet' a v m' b h2 ∙ quiet m v a h1

published-prune_retired :
    (now : ℕ) (ids : Dict ℕ ℕ) (m : MemorySignalStorage)
    → (prune_retired now ids m).published_pre_keys ≡ m.published_pre_keys
unfolding prune_retired
published-prune_retired now [] m = refl
published-prune_retired now ((id, t) ∷ ids) m =
    elim (Bool-cases (leb (t + m.signed_pre_key_grace_period) now)) [
      | inl gone ↦
          rw (prune_retired, gone)
            (published-prune_retired now ids (record m {
              signed_pre_keys = delete id m.signed_pre_keys;
              retired_signed_pre_keys = delete id m.retired_signed_pre_keys;
            }))
      | inr stays ↦ rw (prune_retired, stays) (published-prune_retired now ids m)
    ]

published-store_signed_pre_key :
    (now : ℕ) (k : SignedPreKey) (m : MemorySignalStorage)
    → (store_signed_pre_key now k m).published_pre_keys ≡ m.published_pre_keys
unfolding store_signed_pre_key
published-store_signed_pre_key now k m =
    let retired : Dict ℕ ℕ = elim m.latest_signed_pre_key [
      | none ↦ m.retired_signed_pre_keys
      | some latest ↦
          if latest.key_id == k.key_id
          then m.retired_signed_pre_keys
          else put latest.key_id now m.retired_signed_pre_keys
    ] in
    published-prune_retired now retired (record m {
      retired_signed_pre_keys = retired;
      signed_pre_keys = put k.key_id k.key_pair m.signed_pre_keys;
      latest_signed_pre_key = some k;
    })

modify-IsQuiet :
    (g : MemorySignalStorage → MemorySignalStorage)
    → ((m : MemorySignalStorage) → (g m).published_pre_keys ≡ m.published_pre_keys)
    → IsQuiet (modify g)
modify-IsQuiet g h m m' a e = ap (λ x. x.1.published_pre_keys) (sym e) ∙ h m

pub lift-IsQuiet : {A : Type 0} (r : Result A) → IsQuiet (lift r)
lift-IsQuiet r m m' a e = ap (λ x. x.1.published_pre_keys) (sym e)

pub gets-IsQuiet : {A : Type 0} (g : MemorySignalStorage → A) → IsQuiet (gets g)
gets-IsQuiet g m m' a e = ap (λ x. x.1.published_pre_keys) (sym e)

pub pure-IsQuiet : {A : Type 0} (a : A) → IsQuiet (pure a)
pure-IsQuiet a m m' b e = ap (λ x. x.1.published_pre_keys) (sym e)

module _ (pool : PreKeyPoolManager) where
  store_all-IsQuiet : (ks : List PreKey) → IsQuiet (store_all memory_pool pool ks)
  unfolding store_all store_pre_key
  store_all-IsQuiet [] = pure-IsQuiet tt
  store_all-IsQuiet (k ∷ ks) =
      >>=-IsQuiet (modify (store_pre_key k.key_id k.key_pair)) (λ _. store_all memory_pool pool ks)
        (modify-IsQuiet _ (λ m. refl)) (λ _. store_all-IsQuiet ks)

  pub replenish_pre_keys-IsQuiet :
      (count : ℕ) (draw : ℕ → KeyPair) → IsQuiet (replenish_pre_keys memory_pool pool count draw)
  unfolding replenish_pre_keys set_next_pre_key_id
  replenish_pre_keys-IsQuiet count draw m =
      let next = set_next_pre_key_id (wrap_pre_key_id (m.next_pre_key_id + count)) m in
      let stored : (ks : List PreKey) → Job MemorySignalStorage (List PreKey) =
        λ ks. store_all memory_pool pool ks >> pure ks in
      >>=-IsQuiet (lift (pre_keys_batch m.next_pre_key_id count draw)) stored
        (lift-IsQuiet (pre_keys_batch m.next_pre_key_id count draw))
        (λ ks.
          >>=-IsQuiet (store_all memory_pool pool ks) (λ _. pure ks) (store_all-IsQuiet ks)
            (λ _. pure-IsQuiet ks))
        next

  if-IsQuiet :
      {A : Type 0} (b : Bool) (j k : Job MemorySignalStorage A)
      → IsQuiet j
      → IsQuiet k
      → IsQuiet (if b then j else k)
  if-IsQuiet true j k hj hk = hj
  if-IsQuiet false j k hj hk = hk

  pub ensure_pre_keys-IsQuiet :
      (draw : ℕ → KeyPair) → IsQuiet (ensure_pre_keys memory_pool pool draw)
  unfolding ensure_pre_keys available_or_all
  ensure_pre_keys-IsQuiet draw m =
      let replenish = replenish_pre_keys memory_pool pool pool.replenish_count draw in
      if-IsQuiet (leb pool.min_count (length (list_available_pre_key_ids m))) (pure tt)
        (replenish >>= λ _. pure tt) (pure-IsQuiet tt)
        (>>=-IsQuiet replenish (λ _. pure tt) (replenish_pre_keys-IsQuiet pool.replenish_count draw)
          (λ _. pure-IsQuiet tt))
        m

  rotate_signed_pre_key-IsQuiet :
      (p : Platform) (now : ℕ) (key_pair : KeyPair) (key_id : ℕ)
      → IsQuiet (rotate_signed_pre_key memory_pool pool p now key_pair key_id)
  unfolding rotate_signed_pre_key
  rotate_signed_pre_key-IsQuiet p now key_pair key_id =
      let made = generate_signed_pre_key p now pool.identity_key_pair key_pair key_id in
      let store : SignedPreKey → Job MemorySignalStorage (Unit {0}) =
        λ k. modify (store_signed_pre_key now k) in
      >>=-IsQuiet (lift made) (λ k. store k >> pure k) (lift-IsQuiet made)
        (λ k.
          >>=-IsQuiet (store k) (λ _. pure k)
            (modify-IsQuiet (store_signed_pre_key now k) (published-store_signed_pre_key now k))
            (λ _. pure-IsQuiet k))

  latest-IsQuiet :
      (p : Platform) (now : ℕ) (key_pair : KeyPair) (latest : Option SignedPreKey)
      → IsQuiet (elim latest [
        | none ↦ rotate_signed_pre_key memory_pool pool p now key_pair 1
        | some k ↦
            if should_rotate_signed_pre_key now k.created_at pool.signed_pre_key_max_age
            then rotate_signed_pre_key memory_pool pool p now key_pair
                (wrap_pre_key_id (k.key_id + 1))
            else pure k
      ])
  latest-IsQuiet p now key_pair none = rotate_signed_pre_key-IsQuiet p now key_pair 1
  latest-IsQuiet p now key_pair (some k) =
      let next = wrap_pre_key_id (k.key_id + 1) in
      if-IsQuiet (should_rotate_signed_pre_key now k.created_at pool.signed_pre_key_max_age)
        (rotate_signed_pre_key memory_pool pool p now key_pair next) (pure k)
        (rotate_signed_pre_key-IsQuiet p now key_pair next) (pure-IsQuiet k)

  pub ensure_signed_pre_key-IsQuiet :
      (p : Platform) (now : ℕ) (key_pair : KeyPair)
      → IsQuiet (ensure_signed_pre_key memory_pool pool p now key_pair)
  unfolding ensure_signed_pre_key
  ensure_signed_pre_key-IsQuiet p now key_pair m =
      latest-IsQuiet p now key_pair m.latest_signed_pre_key m
