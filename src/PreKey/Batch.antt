-- ===== src/PreKey/Batch.antt =====
-- The workers of `generatePreKeysBatch` of src/keyhelper.ts. A worker takes the next index and awaits
-- its key; when it is resumed it stores the key and takes the next index in the same turn. All workers
-- are alike, so the state has the indexes that are awaited, and a schedule says which one is next.
pub mod Complete
use libsignal_node.Common.{
  ℕ, zero, suc, ◌+◌, ◌-◌, ◌%◌, ◌≤◌, ◌<◌, ◌≡◌, refl, sym, ap, ◌∙◌, arith, List, [], ◌∷◌, ◌++◌,
  Option, none, some, Bool, true, false, not, ltb, length, min, ◌==◌, nat_eq, if◌then◌else◌, Result,
  ok, err, require, ◌>>=◌, ◌>>◌, type_error, Bool-cases, inl, inr, ◌⊎◌,
}
use libsignal_node.Platform.{KeyPair}
use libsignal_node.PreKey.KeyHelper.{
  PreKey, generate_pre_key, wrap_pre_key_id, batch_from, pre_keys_batch,
}

pub record Batch : Type 0 where
  pub next : ℕ
  pub awaited : List ℕ
  pub results : ℕ → Option PreKey

-- `const i = next++; if (i >= count) return`, up to the `await`
unfoldable pub take_index : ℕ → Batch → Batch
take_index count b =
    if ltb b.next count
    then record b { next = b.next + 1; awaited = b.awaited ++ b.next ∷ [] }
    else record b { next = b.next + 1 }

-- `Array.from({ length: concurrency }, worker)`: each worker runs up to its first `await`.
unfoldable pub start_workers : ℕ → ℕ → Batch → Batch
unfolding take_index
start_workers count zero b = b
start_workers count (suc workers) b = start_workers count workers (take_index count b)

-- The index at a place of the list, and the others.
unfoldable pub pick : ℕ → List ℕ → Option (ℕ × List ℕ)
pick k [] = none
pick zero (i ∷ is) = some (i, is)
pick (suc k) (i ∷ is) = elim (pick k is) [ none ↦ none | some (j, rest) ↦ some (j, i ∷ rest) ]

module _ (start_id count : ℕ) (draw : ℕ → KeyPair) where
  abbrev pub key : ℕ → PreKey
  key i = generate_pre_key (wrap_pre_key_id (start_id + i)) (draw i)

  -- The worker that awaits the key at place `k` is resumed; out of range, none is.
  unfoldable pub resume : ℕ → Batch → Batch
  unfolding take_index pick
  resume k b = elim (pick k b.awaited) [
    | none ↦ b
    | some (i, rest) ↦
        take_index count
          (record b { awaited = rest; results = λ j. if j == i then some (key i) else b.results j })
  ]

  unfoldable pub resume_all : List ℕ → Batch → Batch
  unfolding resume
  resume_all [] b = b
  resume_all (k ∷ ks) b = resume_all ks (resume k b)

  -- The first `n` entries of `results` from `i` on, if all are filled.
  unfoldable pub collect : ℕ → ℕ → (ℕ → Option PreKey) → Option (List PreKey)
  collect i zero results = some []
  collect i (suc n) results = elim (results i) [
    | none ↦ none
    | some k ↦ elim (collect (i + 1) n results) [ none ↦ none | some ks ↦ some (k ∷ ks) ]
  ]

  abbrev pub first_batch : ℕ → Batch
  first_batch concurrency =
      start_workers count (if ltb (min concurrency count) 1 then 1 else min concurrency count)
        (record { next = 0; awaited = []; results = λ i. none })

  -- `none` while a worker still awaits its key, or where an entry is missing.
  unfoldable pub generate_pre_keys_batch : ℕ → List ℕ → Result (Option (List PreKey))
  unfolding resume_all collect
  generate_pre_keys_batch concurrency schedule = do
    require (not (count == 0)) (type_error "Invalid argument for count")
    (let b = resume_all schedule (first_batch concurrency) in
        elim b.awaited [ [] ↦ ok (collect 0 count b.results) | _ ∷ _ ↦ ok none ])
