-- ===== src/Storage/Memory/Signed.antt =====
-- The rotation of signed prekeys in src/memory-storage.ts: which keys can still be loaded.
use libsignal_node.Common.{
  ℕ, ◌+◌, ◌<◌, ◌≡◌, ◌≢◌, refl, sym, ◌∙◌, arith, [], ◌∷◌, Option, none, some, Bool, true, false, leb,
  ◌==◌, nat_eq, Dict, lookup, put, delete, lookup-put, lookup-put_self, lookup-delete,
  if◌then◌else◌, Bool-cases, ◌⊎◌, inl, inr,
}
use libsignal_node.Platform.{KeyPair}
use libsignal_node.PreKey.KeyHelper.{SignedPreKey}
use libsignal_node.Storage.Memory.{
  MemorySignalStorage, store_signed_pre_key, prune_retired, load_signed_pre_key,
}

-- Every entry of the id is within its grace period.
abbrev Lasts : ℕ → ℕ → ℕ → Dict ℕ ℕ → Type 0
Lasts now grace id [] = Unit {0}
Lasts now grace id ((j, t) ∷ ids) = ((j == id) ≡ false ⊎ now < t + grace) × Lasts now grace id ids

absent-Lasts : (now grace id : ℕ) (ids : Dict ℕ ℕ) → lookup id ids ≡ none → Lasts now grace id ids
unfolding lookup
absent-Lasts now grace id [] h = tt
absent-Lasts now grace id ((j, t) ∷ ids) h = elim (Bool-cases (j == id)) [
  | inl e ↦ let no : some t ≡ none = rw (lookup, e) at h in absurd cc
  | inr e ↦ (inl e, absent-Lasts now grace id ids (rw (lookup, e) at h))
]

put-Lasts :
    (now grace id : ℕ) (ids : Dict ℕ ℕ)
    → 0 < grace
    → lookup id ids ≡ none
    → Lasts now grace id (put id now ids)
unfolding lookup put
put-Lasts now grace id [] g h = (inr (omega arith), tt)
put-Lasts now grace id ((j, t) ∷ ids) g h = elim (Bool-cases (j == id)) [
  | inl e ↦ let no : some t ≡ none = rw (lookup, e) at h in absurd cc
  | inr e ↦ rw (put, e) (inl e, put-Lasts now grace id ids g (rw (lookup, e) at h))
]

lookup-prune_retired :
    (now id : ℕ) (ids : Dict ℕ ℕ) (m : MemorySignalStorage)
    → Lasts now m.signed_pre_key_grace_period id ids
    → (lookup id (prune_retired now ids m).signed_pre_keys ≡ lookup id m.signed_pre_keys)
      × ((prune_retired now ids m).latest_signed_pre_key ≡ m.latest_signed_pre_key)
unfolding prune_retired
lookup-prune_retired now id [] m h = (refl, refl)
lookup-prune_retired now id ((j, t) ∷ ids) m (h, rest) =
    elim (Bool-cases (leb (t + m.signed_pre_key_grace_period) now)) [
      | inl gone ↦
          let m' = record m {
            signed_pre_keys = delete j m.signed_pre_keys;
            retired_signed_pre_keys = delete j m.retired_signed_pre_keys;
          } in
          let kept : lookup id m'.signed_pre_keys ≡ lookup id m.signed_pre_keys = elim h [
            | inl other ↦ rw (lookup-delete j id m.signed_pre_keys, other) refl
            | inr young ↦ absurd (ground arith)
          ] in
          rw (prune_retired, gone)
            (
              (lookup-prune_retired now id ids m' rest).0 ∙ kept,
              (lookup-prune_retired now id ids m' rest).1,
            )
      | inr stays ↦ rw (prune_retired, stays) (lookup-prune_retired now id ids m rest)
    ]

differs_beq : (a b : ℕ) → a ≢ b → (a == b) ≡ false
differs_beq a b h = ground arith

-- Storing a new signed prekey makes it the latest, and it can be loaded; the one that was the latest can
-- still be loaded too, if the grace period is not 0. Neither id may be in the map of retired keys, and the two
-- have to differ.
pub store_signed_pre_key_lem :
    (now : ℕ) (k old : SignedPreKey) (pair : KeyPair) (m : MemorySignalStorage)
    → m.latest_signed_pre_key ≡ some old
    → load_signed_pre_key old.key_id m ≡ some pair
    → lookup k.key_id m.retired_signed_pre_keys ≡ none
    → lookup old.key_id m.retired_signed_pre_keys ≡ none
    → old.key_id ≢ k.key_id
    → 0 < m.signed_pre_key_grace_period
    → let m' = store_signed_pre_key now k m in
      (m'.latest_signed_pre_key ≡ some k)
      × (load_signed_pre_key k.key_id m' ≡ some k.key_pair)
      × (load_signed_pre_key old.key_id m' ≡ some pair)
unfolding store_signed_pre_key load_signed_pre_key
store_signed_pre_key_lem now k old pair m latest loads new current differ g =
    let retired = put old.key_id now m.retired_signed_pre_keys in
    let signed = put k.key_id k.key_pair m.signed_pre_keys in
    let m0 : MemorySignalStorage = record m {
      retired_signed_pre_keys = retired;
      signed_pre_keys = signed;
      latest_signed_pre_key = some k;
    } in
    let other : (old.key_id == k.key_id) ≡ false = differs_beq old.key_id k.key_id differ in
    let other' : (k.key_id == old.key_id) ≡ false =
      differs_beq k.key_id old.key_id (λ e. differ (sym e)) in
    let same : store_signed_pre_key now k m ≡ prune_retired now retired m0 =
      rw (latest, store_signed_pre_key, other) refl in
    let absent : lookup k.key_id retired ≡ none =
      rw (lookup-put old.key_id k.key_id now m.retired_signed_pre_keys, other) new in
    let (kept, last) =
      lookup-prune_retired now k.key_id retired m0
        (absent-Lasts now m.signed_pre_key_grace_period k.key_id retired absent) in
    let (kept', _) = lookup-prune_retired now old.key_id retired m0 (
      put-Lasts now m.signed_pre_key_grace_period old.key_id m.retired_signed_pre_keys g current) in
    let before : lookup old.key_id signed ≡ some pair =
      rw (lookup-put k.key_id old.key_id k.key_pair m.signed_pre_keys, other') loads in
    rw same (last, kept ∙ lookup-put_self k.key_id k.key_pair m.signed_pre_keys, kept' ∙ before)

if_none : (b : Bool) → ◌≡◌ {A = Option KeyPair} (if b then none else none) none
if_none true = refl
if_none false = refl

none-prune_retired :
    (now id : ℕ) (ids : Dict ℕ ℕ) (m : MemorySignalStorage)
    → lookup id m.signed_pre_keys ≡ none
    → lookup id (prune_retired now ids m).signed_pre_keys ≡ none
unfolding prune_retired
none-prune_retired now id [] m h = h
none-prune_retired now id ((j, t) ∷ ids) m h =
    elim (Bool-cases (leb (t + m.signed_pre_key_grace_period) now)) [
      | inl gone ↦
          rw (prune_retired, gone)
            (none-prune_retired now id ids
              (record m {
                signed_pre_keys = delete j m.signed_pre_keys;
                retired_signed_pre_keys = delete j m.retired_signed_pre_keys;
              })
              (rw (lookup-delete j id m.signed_pre_keys, h) (if_none (j == id))))
      | inr stays ↦ rw (prune_retired, stays) (none-prune_retired now id ids m h)
    ]

expired-prune_retired :
    (now id since : ℕ) (ids : Dict ℕ ℕ) (m : MemorySignalStorage)
    → lookup id ids ≡ some since
    → leb (since + m.signed_pre_key_grace_period) now ≡ true
    → lookup id (prune_retired now ids m).signed_pre_keys ≡ none
unfolding lookup prune_retired
expired-prune_retired now id since [] m h expired = absurd cc
expired-prune_retired now id since ((j, t) ∷ ids) m h expired = elim (Bool-cases (j == id)) [
  | inl e ↦
      let found : some t ≡ some since = rw (lookup, e) at h in
      let same : t ≡ since = cc in
      let gone : leb (t + m.signed_pre_key_grace_period) now ≡ true = rw same expired in
      rw (prune_retired, gone)
        (none-prune_retired now id ids
          (record m {
            signed_pre_keys = delete j m.signed_pre_keys;
            retired_signed_pre_keys = delete j m.retired_signed_pre_keys;
          })
          (rw (lookup-delete j id m.signed_pre_keys, e) refl))
  | inr e ↦
      let later : lookup id ids ≡ some since = rw (lookup, e) at h in
      elim (Bool-cases (leb (t + m.signed_pre_key_grace_period) now)) [
        | inl gone ↦
            rw (prune_retired, gone)
              (expired-prune_retired now id since ids
                (record m {
                  signed_pre_keys = delete j m.signed_pre_keys;
                  retired_signed_pre_keys = delete j m.retired_signed_pre_keys;
                })
                later expired)
        | inr stays ↦
            rw (prune_retired, stays) (expired-prune_retired now id since ids m later expired)
      ]
]

latest-prune_retired :
    (now : ℕ) (ids : Dict ℕ ℕ) (m : MemorySignalStorage)
    → (prune_retired now ids m).latest_signed_pre_key ≡ m.latest_signed_pre_key
unfolding prune_retired
latest-prune_retired now [] m = refl
latest-prune_retired now ((j, t) ∷ ids) m =
    elim (Bool-cases (leb (t + m.signed_pre_key_grace_period) now)) [
      | inl gone ↦
          rw (prune_retired, gone)
            (latest-prune_retired now ids (record m {
              signed_pre_keys = delete j m.signed_pre_keys;
              retired_signed_pre_keys = delete j m.retired_signed_pre_keys;
            }))
      | inr stays ↦ rw (prune_retired, stays) (latest-prune_retired now ids m)
    ]

-- Storing a signed prekey under an id that was retired longer ago than the grace period, while another is the
-- latest, leaves a latest signed prekey that cannot be loaded: the pruning that follows deletes the key that
-- has just been stored.
pub store_signed_pre_key-expired :
    (now since : ℕ) (k old : SignedPreKey) (m : MemorySignalStorage)
    → m.latest_signed_pre_key ≡ some old
    → old.key_id ≢ k.key_id
    → lookup k.key_id m.retired_signed_pre_keys ≡ some since
    → leb (since + m.signed_pre_key_grace_period) now ≡ true
    → let m' = store_signed_pre_key now k m in
      (m'.latest_signed_pre_key ≡ some k) × (load_signed_pre_key k.key_id m' ≡ none)
unfolding store_signed_pre_key load_signed_pre_key
store_signed_pre_key-expired now since k old m latest differ retired_since expired =
    let retired = put old.key_id now m.retired_signed_pre_keys in
    let m0 : MemorySignalStorage = record m {
      retired_signed_pre_keys = retired;
      signed_pre_keys = put k.key_id k.key_pair m.signed_pre_keys;
      latest_signed_pre_key = some k;
    } in
    let other : (old.key_id == k.key_id) ≡ false = differs_beq old.key_id k.key_id differ in
    let same : store_signed_pre_key now k m ≡ prune_retired now retired m0 =
      rw (latest, store_signed_pre_key, other) refl in
    let there : lookup k.key_id retired ≡ some since =
      rw (lookup-put old.key_id k.key_id now m.retired_signed_pre_keys, other) retired_since in
    rw same (
      latest-prune_retired now retired m0,
      expired-prune_retired now k.key_id since retired m0 there expired,
    )
