-- ===== src/PreKey/Batch/Complete.antt =====
-- The workers of a batch fill it, in whatever order they are resumed.
use libsignal_node.Common.{
  ℕ, zero, suc, ◌+◌, ◌-◌, ◌≤◌, ◌<◌, ◌≡◌, ◌≢◌, refl, sym, ap, arith, List, [], ◌∷◌, ◌++◌, Option,
  none, some, Bool, true, ltb, length, length-append, min, any, replicate, ◌==◌, nat_eq,
  if◌then◌else◌, Result, ok, Bool-cases, Option-cases, inl, inr, ◌⊎◌,
}
use mathlib.Core.Path.{subst}
use libsignal_node.Platform.{KeyPair}
use libsignal_node.PreKey.KeyHelper.{PreKey, batch_from, pre_keys_batch}
use libsignal_node.PreKey.Batch.{
  Batch, take_index, start_workers, pick, key, resume, resume_all, collect, first_batch,
  generate_pre_keys_batch,
}

abbrev has : ℕ → List ℕ → Bool
has j is = any (λ i. i == j) is

has-append : (j i : ℕ) (is : List ℕ) → has j is ≡ true → has j (is ++ i ∷ []) ≡ true
has-append j i [] h = absurd (cc)
has-append j i (k ∷ is) h = ground (arith, has-append j i is)

has-append_last : (j : ℕ) (is : List ℕ) → has j (is ++ j ∷ []) ≡ true
has-append_last j [] = ground arith
has-append_last j (k ∷ is) = ground (arith, has-append_last j is)

some-injective : {A : Type 0} {a b : A} → ◌≡◌ {A = Option A} (some a) (some b) → a ≡ b
some-injective e = cc

abbrev IsPicked : List ℕ → ℕ × List ℕ → Type 0
IsPicked is (i, rest) =
    (length is ≡ suc (length rest)) × ((j : ℕ) → has j is ≡ true → (j ≡ i) ⊎ (has j rest ≡ true))

has-here : (x j : ℕ) (is : List ℕ) → has j (x ∷ is) ≡ true → (j ≡ x) ⊎ (has j is ≡ true)
has-here x j is h = ground arith

has-tail : (x j : ℕ) (is : List ℕ) → has j is ≡ true → has j (x ∷ is) ≡ true
has-tail x j is h = ground arith

has-head : (x j : ℕ) (is : List ℕ) → j ≡ x → has j (x ∷ is) ≡ true
has-head x j is h = ground arith

pick_lem : (k : ℕ) (is : List ℕ) (x : ℕ × List ℕ) → pick k is ≡ some x → IsPicked is x
unfolding pick
pick_lem k [] x h = absurd (cc)
pick_lem zero (y ∷ is) x h =
    subst (IsPicked (y ∷ is)) (some-injective h) (refl, λ j. has-here y j is)
pick_lem (suc k) (y ∷ is) x h = elim (Option-cases (pick k is)) [
  | inl stuck ↦ absurd (let no : none ≡ some x = rw stuck at h in cc)
  | inr ((i, rest), picked) ↦
      let (size, others) = pick_lem k is (i, rest) picked in
      subst (IsPicked (y ∷ is)) (some-injective (rw picked at h)) (
        ap suc size,
        λ j there. elim (has-here y j is there) [
          | inl same ↦ inr (has-head y j rest same)
          | inr later ↦ elim (others j later) [ inl e ↦ inl e | inr e ↦ inr (has-tail y j rest e) ]
        ],
      )
]

append-nonempty : (i : ℕ) (is : List ℕ) → is ++ i ∷ [] ≢ []
append-nonempty i [] e = cc
append-nonempty i (k ∷ is) e = cc

pick-none : (k : ℕ) (is : List ℕ) → pick k is ≡ none → length is ≤ k
unfolding pick
pick-none k [] h = omega arith
pick-none zero (x ∷ is) h = absurd (cc)
pick-none (suc k) (x ∷ is) h = elim (Option-cases (pick k is)) [
  | inl out ↦ omega (arith, pick-none k is out)
  | inr (found, e) ↦ absurd (let no : some (found.0, x ∷ found.1) ≡ none = rw e at h in cc)
]

nil_of : (is : List ℕ) → length is ≡ 0 → is ≡ []
nil_of [] h = refl
nil_of (i ∷ is) h = absurd (omega arith)

module _ (start_id count : ℕ) (draw : ℕ → KeyPair) where
  abbrev IsFilled : Batch → Type 0
  IsFilled b =
      (j : ℕ)
      → j < count
      → j < b.next
      → (has j b.awaited ≡ true) ⊎ (b.results j ≡ some (key start_id count draw j))

  abbrev left : Batch → ℕ
  left b = length b.awaited + (count - b.next)

  record Inv (b : Batch) : Type 0 where
    filled : IsFilled b
    busy : b.awaited ≡ [] → count ≤ b.next

  take_index-left : (b : Batch) → left (take_index count b) ≤ left b
  unfolding take_index
  take_index-left b = ground (arith, length-append b.awaited (b.next ∷ []))

  take_index-Inv : (b : Batch) → IsFilled b → Inv (take_index count b)
  unfolding take_index
  take_index-Inv b filled = elim (Bool-cases (ltb b.next count)) [
    | inl more ↦ rw more (record {
      filled = λ j bound less. elim (Bool-cases (j == b.next)) [
        | inl last ↦
            let same : b.next ≡ j = ground arith in
            inl (
              subst (λ n. has j (b.awaited ++ n ∷ []) ≡ true) (sym same)
                (has-append_last j b.awaited))
        | inr before ↦ elim (filled j bound (ground arith)) [
          | inl waits ↦ inl (has-append j b.next b.awaited waits)
          | inr there ↦ inr there
        ]
      ];
      busy = λ e. absurd (append-nonempty b.next b.awaited e);
    })
    | inr done ↦ rw done (record {
      filled = λ j bound less. filled j bound (ground arith);
      busy = λ e. ground arith;
    })
  ]

  collect_lem :
      (n i : ℕ) (results : ℕ → Option PreKey)
      → ((j : ℕ) → j < i + n → results j ≡ some (key start_id count draw j))
      → collect start_id count draw i n results ≡ some (batch_from start_id n i draw)
  unfolding collect batch_from
  collect_lem zero i results h = refl
  collect_lem (suc n) i results h =
      let rest = collect_lem n (i + 1) results (λ j less. h j (omega arith)) in
      rw (collect, h i (omega arith), rest) refl

  -- The worker at place `k` is resumed, or there is none.
  resume-Inv :
      (k : ℕ) (b : Batch)
      → Inv b
      → Inv (resume start_id count draw k b)
        × (left (resume start_id count draw k b) ≤ left b)
        × (k < length b.awaited → left (resume start_id count draw k b) + 1 ≤ left b)
  unfolding resume
  resume-Inv k b inv = elim (Option-cases (pick k b.awaited)) [
    | inl out ↦
        rw (out, resume)
          (inv, omega arith, λ less. absurd (let short = pick-none k b.awaited out in omega arith))
    | inr ((i, rest), picked) ↦
        let (size, others) = pick_lem k b.awaited (i, rest) picked in
        let b' : Batch = record b {
          awaited = rest;
          results = λ j. if j == i then some (key start_id count draw i) else b.results j;
        } in
        let filled : IsFilled b' = λ j bound less. elim (Bool-cases (j == i)) [
          | inl same ↦
              let e : j ≡ i = ground arith in
              inr (rw same (ap (λ n. some (key start_id count draw n)) (sym e)))
          | inr differ ↦ elim (inv.filled j bound less) [
            | inl waits ↦ elim (others j waits) [
              | inl same ↦ absurd (ground arith)
              | inr there ↦ inl there
            ]
            | inr done ↦ inr (rw differ done)
          ]
        ] in
        let fewer = take_index-left b' in
        rw (picked, resume) (take_index-Inv b' filled, omega arith, λ less. omega arith)
  ]

  resume_all-Inv :
      (ks : List ℕ) (b : Batch)
      → Inv b
      → Inv (resume_all start_id count draw ks b)
        × (left (resume_all start_id count draw ks b) ≤ left b)
  unfolding resume_all
  resume_all-Inv [] b inv = (inv, omega arith)
  resume_all-Inv (k ∷ ks) b inv =
      let (inv', less, _) = resume-Inv k b inv in
      let (inv'', less') = resume_all-Inv ks (resume start_id count draw k b) inv' in
      (inv'', omega (arith, less, less'))

  resume_all-append :
      (ks ks' : List ℕ) (b : Batch)
      → resume_all start_id count draw (ks ++ ks') b
        ≡ resume_all start_id count draw ks' (resume_all start_id count draw ks b)
  unfolding resume_all
  resume_all-append [] ks' b = refl
  resume_all-append (k ∷ ks) ks' b = resume_all-append ks ks' (resume start_id count draw k b)

  drained :
      (n : ℕ) (b : Batch)
      → Inv b
      → left b ≤ n
      → (resume_all start_id count draw (replicate n 0) b).awaited ≡ []
  unfolding resume_all
  drained zero b inv few = nil_of b.awaited (omega arith)
  drained (suc n) b inv few =
      let (inv', less, fewer) = resume-Inv 0 b inv in
      drained n (resume start_id count draw 0 b) inv'
        (elim (Bool-cases (ltb 0 (length b.awaited))) [
          | inl some_wait ↦ let one = fewer (ground arith) in omega (arith, one)
          | inr all_done ↦
              let none_waits : length b.awaited ≡ 0 = ground arith in
              let past = inv.busy (nil_of b.awaited none_waits) in
              omega (arith, less, past, none_waits)
        ])

  collected :
      (b : Batch)
      → Inv b
      → b.awaited ≡ []
      → collect start_id count draw 0 count b.results ≡ some (batch_from start_id count 0 draw)
  collected b inv empty = collect_lem count 0 b.results λ j less.
      elim (inv.filled j (omega arith) (let past = inv.busy empty in omega arith)) [
        | inl waits ↦
            absurd (let no : has j [] ≡ true = subst (λ is. has j is ≡ true) empty waits in cc)
        | inr done ↦ done
      ]

  start_workers-Inv :
      (n : ℕ) (b : Batch)
      → IsFilled b
      → Inv (start_workers count (suc n) b) × (left (start_workers count (suc n) b) ≤ left b)
  unfolding start_workers
  start_workers-Inv zero b filled = (take_index-Inv b filled, take_index-left b)
  start_workers-Inv (suc n) b filled =
      let first = take_index-Inv b filled in
      let (inv, less) = start_workers-Inv n (take_index count b) first.filled in
      (inv, omega (arith, less, take_index-left b))

  first_batch-Inv :
      (concurrency : ℕ)
      → Inv (first_batch start_id count draw concurrency)
        × (left (first_batch start_id count draw concurrency) ≤ count)
  first_batch-Inv concurrency = elim (Bool-cases (ltb (min concurrency count) 1)) [
    | inl few ↦ rw few (started 0)
    | inr more ↦
        let (n, size) = suc_of (min concurrency count) (ground arith) in rw (more, size) (started n)
  ]
    where
      fresh : Batch
      fresh = record { next = 0; awaited = []; results = λ i. none }

      empty : IsFilled fresh
      empty j bound less = absurd (omega arith)

      started :
          (n : ℕ)
          → Inv (start_workers count (suc n) fresh)
            × (left (start_workers count (suc n) fresh) ≤ count)
      started n = let (inv, less) = start_workers-Inv n fresh empty in (inv, omega (arith, less))

      suc_of : (n : ℕ) → 1 ≤ n → (m : ℕ) × (n ≡ suc m)
      suc_of zero h = absurd (omega arith)
      suc_of (suc m) h = (m, refl)

  abbrev result_of : Batch → Result (Option (List PreKey))
  result_of b = elim b.awaited [
    | [] ↦ ok (collect start_id count draw 0 count b.results)
    | _ ∷ _ ↦ ok none
  ]

  generated :
      (concurrency : ℕ) (schedule : List ℕ)
      → 1 ≤ count
      → generate_pre_keys_batch start_id count draw concurrency schedule
        ≡ result_of
            (resume_all start_id count draw schedule (first_batch start_id count draw concurrency))
  unfolding generate_pre_keys_batch
  generated concurrency schedule some_keys = ground arith

  result_of-Inv :
      (b : Batch)
      → Inv b
      → (result_of b ≡ ok none) ⊎ (result_of b ≡ ok (some (batch_from start_id count 0 draw)))
  result_of-Inv b inv = elim (Bool-cases (ltb 0 (length b.awaited))) [
    | inl some_wait ↦ inl (waiting b.awaited (ground arith))
    | inr all_done ↦
        let empty : b.awaited ≡ [] = nil_of b.awaited (ground arith) in
        inr (rw empty (ap ok (collected b inv empty)))
  ]
    where
      waiting :
          (is : List ℕ)
          → 1 ≤ length is
          → (elim is as (λ _. Result (Option (List PreKey))) [
            | [] ↦ ok (collect start_id count draw 0 count b.results)
            | _ ∷ _ ↦ ok none
          ])
            ≡ ok none
      waiting [] h = absurd (omega arith)
      waiting (i ∷ is) h = refl

  -- For a count of at least 1, any concurrency, and whichever workers are resumed in whatever order,
  -- `generatePreKeysBatch` has not resolved yet, or it has resolved to the batch in which key `i` has the
  -- pair generated for index `i` and the id `wrapPreKeyId(startId + i)`. It does resolve: after any such
  -- schedule, it has resolved once the longest waiting worker has been resumed `count` times more.
  pub generate_pre_keys_batch_lem :
      (concurrency : ℕ) (schedule : List ℕ)
      → 1 ≤ count
      → let keys = batch_from start_id count 0 draw in
        ((generate_pre_keys_batch start_id count draw concurrency schedule ≡ ok none)
          ⊎ (generate_pre_keys_batch start_id count draw concurrency schedule ≡ ok (some keys)))
        × (generate_pre_keys_batch start_id count draw concurrency (schedule ++ replicate count 0)
            ≡ ok (some keys))
        × (pre_keys_batch start_id count draw ≡ ok keys)
  unfolding pre_keys_batch
  generate_pre_keys_batch_lem concurrency schedule some_keys =
      let first = first_batch start_id count draw concurrency in
      let (inv, few) = first_batch-Inv concurrency in
      let (inv', less) = resume_all-Inv schedule first inv in
      let b = resume_all start_id count draw schedule first in
      let (inv'', _) = resume_all-Inv (replicate count 0) b inv' in
      let empty = drained count b inv' (omega (arith, few, less)) in
      (
        rw (generated concurrency schedule some_keys) (result_of-Inv b inv'),
        rw
            (
              generated concurrency (schedule ++ replicate count 0) some_keys,
              resume_all-append schedule (replicate count 0) first,
              empty,
            )
            (ap ok (collected (resume_all start_id count draw (replicate count 0) b) inv'' empty)),
        ground arith,
      )
