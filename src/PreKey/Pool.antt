-- ===== src/PreKey/Pool.antt =====
-- `PreKeyPoolManager` of src/prekey-pool.ts over any `PreKeyPoolStorage`. The calls of one method run one
-- after another: the promises that concurrent calls share, and the timer of `startAutoMaintenance`, are not
-- modelled. Random draws and the clock are arguments; the degree of concurrency changes no result.
pub mod Bundles
pub mod Quiet
pub mod Fresh
pub mod Candidates
pub mod Rounds
pub mod Distinct
use libsignal_node.Common.{
  ℕ, ◌+◌, ◌-◌, List, [], ◌∷◌, Option, none, some, Bool, length, leb, if◌then◌else◌, Result, ok,
}
use libsignal_node.Common.Jobs.{Job, pure, throw, lift, gets, modify, ◌>>=◌, ◌>>◌}
use libsignal_node.Platform.{Platform, KeyPair}
use libsignal_node.PreKey.KeyHelper.{
  SignedPreKey, PreKey, wrap_pre_key_id, should_rotate_signed_pre_key, pre_keys_batch,
  generate_signed_pre_key,
}
use libsignal_node.Storage.Memory.{
  MemorySignalStorage, store_pre_key, set_next_pre_key_id, store_signed_pre_key, load_pre_key,
  list_pre_key_ids, list_available_pre_key_ids, reserve_pre_key, release_pre_key,
}

-- The first argument of `store_signed_pre_key` is the time at which the storage writes it.
pub record PreKeyPoolStorage (S : Type 0) : Type 0 where
  pub store_pre_key : ℕ → KeyPair → Job S (Unit {0})
  pub get_pre_key_count : Job S ℕ
  pub get_next_pre_key_id : Job S ℕ
  pub set_next_pre_key_id : ℕ → Job S (Unit {0})
  pub store_signed_pre_key : ℕ → SignedPreKey → Job S (Unit {0})
  pub load_latest_signed_pre_key : Job S (Option SignedPreKey)
  pub load_pre_key : Option (ℕ → Job S (Option KeyPair))
  pub list_pre_key_ids : Option (Job S (List ℕ))
  pub get_our_registration_id : Option (Job S ℕ)
  pub get_available_pre_key_count : Option (Job S ℕ)
  pub list_available_pre_key_ids : Option (Job S (List ℕ))
  pub reserve_pre_key : Option (ℕ → Job S Bool)
  pub release_pre_key : Option (ℕ → Job S Bool)

pub record PreKeyPoolManager : Type 0 where
  pub identity_key_pair : KeyPair
  pub min_count : ℕ
  pub replenish_count : ℕ
  pub signed_pre_key_max_age : ℕ

pub record PreKeyPoolStatus : Type 0 where
  pub pre_key_count : ℕ
  pub available_pre_key_count : Option ℕ
  pub published_pre_key_count : Option ℕ
  pub next_pre_key_id : ℕ
  pub signed_pre_key_id : Option ℕ
  -- The age is 0 where the clock is behind the key.
  pub signed_pre_key_age : Option ℕ

-- The time, and the key pairs drawn in one call: those of a first and of a second replenishment, and that of a
-- signed prekey.
pub record Draws : Type 0 where
  pub now : ℕ
  pub ensured : ℕ → KeyPair
  pub replenished : ℕ → KeyPair
  pub signed : KeyPair

module _ {S : Type 0} (storage : PreKeyPoolStorage S) (pool : PreKeyPoolManager) where
  unfoldable pub available_or_all : Job S ℕ
  available_or_all w = elim storage.get_available_pre_key_count [
    | some count ↦ count w
    | none ↦ storage.get_pre_key_count w
  ]

  unfoldable pub store_all : List PreKey → Job S (Unit {0})
  store_all [] = pure tt
  store_all (k ∷ ks) = do storage.store_pre_key k.key_id k.key_pair; store_all ks

  unfoldable pub replenish_pre_keys : ℕ → (ℕ → KeyPair) → Job S (List PreKey)
  unfolding store_all
  replenish_pre_keys count draw = do
    start_id ← storage.get_next_pre_key_id
    storage.set_next_pre_key_id (wrap_pre_key_id (start_id + count))
    generated ← lift (pre_keys_batch start_id count draw)
    store_all generated
    pure generated

  unfoldable pub ensure_pre_keys : (ℕ → KeyPair) → Job S (Unit {0})
  unfolding available_or_all replenish_pre_keys
  ensure_pre_keys draw = do
    count ← available_or_all
    if leb pool.min_count count
        then pure tt
        else (do generated ← replenish_pre_keys pool.replenish_count draw; pure tt)

  module _ (p : Platform) where
    unfoldable pub rotate_signed_pre_key : ℕ → KeyPair → ℕ → Job S SignedPreKey
    rotate_signed_pre_key now key_pair key_id = do
      k ← lift (generate_signed_pre_key p now pool.identity_key_pair key_pair key_id)
      storage.store_signed_pre_key now k
      pure k

    unfoldable pub ensure_signed_pre_key : ℕ → KeyPair → Job S SignedPreKey
    unfolding rotate_signed_pre_key
    ensure_signed_pre_key now key_pair = do
      latest ← storage.load_latest_signed_pre_key
      elim latest [
        | none ↦ rotate_signed_pre_key now key_pair 1
        | some k ↦
            if should_rotate_signed_pre_key now k.created_at pool.signed_pre_key_max_age
            then rotate_signed_pre_key now key_pair (wrap_pre_key_id (k.key_id + 1))
            else pure k
      ]

  abbrev optional_count : Job S (Option ℕ)
  optional_count w = elim storage.get_available_pre_key_count [
    | none ↦ (ok none, w)
    | some count ↦ (count >>= λ n. pure (some n)) w
  ]

  unfoldable pub get_status : ℕ → Job S PreKeyPoolStatus
  get_status now = do
    pre_key_count ← storage.get_pre_key_count
    available ← optional_count
    next_pre_key_id ← storage.get_next_pre_key_id
    latest ← storage.load_latest_signed_pre_key
    pure (record {
      pre_key_count = pre_key_count;
      available_pre_key_count = available;
      published_pre_key_count = elim available [ none ↦ none | some n ↦ some (pre_key_count - n) ];
      next_pre_key_id = next_pre_key_id;
      signed_pre_key_id = elim latest [ none ↦ none | some k ↦ some k.key_id ];
      signed_pre_key_age = elim latest [ none ↦ none | some k ↦ some (now - k.created_at) ];
    })

-- The memory storage as the pool sees it.
abbrev pub memory_pool : PreKeyPoolStorage MemorySignalStorage
memory_pool = record {
  store_pre_key = λ id key_pair. modify (store_pre_key id key_pair);
  get_pre_key_count = gets (λ m. length m.pre_keys);
  get_next_pre_key_id = gets (λ m. m.next_pre_key_id);
  set_next_pre_key_id = λ id. modify (set_next_pre_key_id id);
  store_signed_pre_key = λ now k. modify (store_signed_pre_key now k);
  load_latest_signed_pre_key = gets (λ m. m.latest_signed_pre_key);
  load_pre_key = some (λ id. gets (load_pre_key id));
  list_pre_key_ids = some (gets list_pre_key_ids);
  get_our_registration_id = some (gets (λ m. m.registration_id));
  get_available_pre_key_count = some (gets (λ m. length (list_available_pre_key_ids m)));
  list_available_pre_key_ids = some (gets list_available_pre_key_ids);
  reserve_pre_key = some (λ id m. let (b, m') = reserve_pre_key id m in (ok b, m'));
  release_pre_key = some (λ id m. let (b, m') = release_pre_key id m in (ok b, m'));
}
