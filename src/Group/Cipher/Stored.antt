-- ===== src/Group/Cipher/Stored.antt =====
-- The keys that a state stores: of iterations that have passed, and each of its own.
use libsignal_node.Common.{
  ℕ, ◌+◌, ◌<◌, ◌≡◌, inl, inr, refl, arith, List, [], ◌∷◌, ◌++◌, false, any, remove_first, length,
  drop, ltb, ◌==◌, nat_eq, Bool-cases,
}
use mathlib.Core.Path.{subst}
use libsignal_node.Group.State.{SenderKeyState, StoredMessageKey, push_bounded}

-- All the stored keys are of iterations below `n`, and of different ones.
abbrev pub AllBelow : ℕ → List StoredMessageKey → Type 0
AllBelow n [] = Unit {0}
AllBelow n (k ∷ keys) = (k.iteration < n) × AllBelow n keys

abbrev pub AllDistinct : List StoredMessageKey → Type 0
AllDistinct [] = Unit {0}
AllDistinct (k ∷ keys) = (any (λ j. j.iteration == k.iteration) keys ≡ false) × AllDistinct keys

-- A state as the code keeps it.
pub record IsSound (s : SenderKeyState) : Type 0 where
  pub below : AllBelow s.sender_chain_key.iteration s.sender_message_keys
  pub distinct : AllDistinct s.sender_message_keys

pub AllBelow-mono : (n : ℕ) (keys : List StoredMessageKey) → AllBelow n keys → AllBelow (n + 1) keys
AllBelow-mono n [] b = tt
AllBelow-mono n (k ∷ keys) b = (omega arith, AllBelow-mono n keys b.1)

pub absent-AllBelow :
    (n : ℕ) (keys : List StoredMessageKey)
    → AllBelow n keys
    → any (λ k. k.iteration == n) keys ≡ false
absent-AllBelow n [] b = refl
absent-AllBelow n (k ∷ keys) b = ground (arith, absent-AllBelow n keys b.1)

any-drop :
    (n : ℕ) (keys : List StoredMessageKey)
    → any (λ k. k.iteration == n) keys ≡ false
    → any (λ k. k.iteration == n) (drop 1 keys) ≡ false
any-drop n [] a = refl
any-drop n (k ∷ keys) a = ground arith

AllBelow-push :
    (n : ℕ) (keys : List StoredMessageKey) (k : StoredMessageKey)
    → AllBelow n keys
    → k.iteration ≡ n
    → AllBelow (n + 1) (keys ++ k ∷ [])
AllBelow-push n [] k b e = (omega arith, tt)
AllBelow-push n (j ∷ keys) k b e = (omega arith, AllBelow-push n keys k b.1 e)

any-push :
    (n : ℕ) (keys : List StoredMessageKey) (k : StoredMessageKey)
    → any (λ j. j.iteration == n) keys ≡ false
    → (k.iteration == n) ≡ false
    → any (λ j. j.iteration == n) (keys ++ k ∷ []) ≡ false
any-push n [] k a e = ground arith
any-push n (j ∷ keys) k a e = ground (arith, any-push n keys k)

AllDistinct-push :
    (n : ℕ) (keys : List StoredMessageKey) (k : StoredMessageKey)
    → AllBelow n keys
    → AllDistinct keys
    → k.iteration ≡ n
    → AllDistinct (keys ++ k ∷ [])
AllDistinct-push n [] k b d e = (refl, tt)
AllDistinct-push n (j ∷ keys) k b d e =
    (any-push j.iteration keys k d.0 (ground arith), AllDistinct-push n keys k b.1 d.1 e)

drop_sound :
    (n : ℕ) (keys : List StoredMessageKey)
    → AllBelow n keys
    → AllDistinct keys
    → AllBelow n (drop 1 keys) × AllDistinct (drop 1 keys)
drop_sound n [] b d = (tt, tt)
drop_sound n (k ∷ keys) b d = (b.1, d.1)

pub push_bounded_sound :
    (n : ℕ) (keys : List StoredMessageKey) (k : StoredMessageKey)
    → AllBelow n keys
    → AllDistinct keys
    → k.iteration ≡ n
    → AllBelow (n + 1) (push_bounded k keys) × AllDistinct (push_bounded k keys)
unfolding push_bounded
push_bounded_sound n keys k b d e =
    let below = AllBelow-push n keys k b e in
    let distinct = AllDistinct-push n keys k b d e in
    elim (Bool-cases (ltb 2000 (length (keys ++ k ∷ [])))) [
      | inl full ↦ rw full (drop_sound (n + 1) (keys ++ k ∷ []) below distinct)
      | inr room ↦ rw room (below, distinct)
    ]

-- A key that is not stored is not stored by storing another.
pub any-push_bounded :
    (n : ℕ) (keys : List StoredMessageKey) (k : StoredMessageKey)
    → any (λ j. j.iteration == n) keys ≡ false
    → (k.iteration == n) ≡ false
    → any (λ j. j.iteration == n) (push_bounded k keys) ≡ false
unfolding push_bounded
any-push_bounded n keys k a e = elim (Bool-cases (ltb 2000 (length (keys ++ k ∷ [])))) [
  | inl full ↦ rw full (any-drop n (keys ++ k ∷ []) (any-push n keys k a e))
  | inr room ↦ rw room (any-push n keys k a e)
]

pub AllBelow-remove :
    (n i : ℕ) (keys : List StoredMessageKey)
    → AllBelow n keys
    → AllBelow n (remove_first (λ k. k.iteration == i) keys)
AllBelow-remove n i [] b = tt
AllBelow-remove n i (k ∷ keys) b = elim (Bool-cases (k.iteration == i)) [
  | inl same ↦ rw same b.1
  | inr differ ↦ rw differ (b.0, AllBelow-remove n i keys b.1)
]

pub any-remove :
    (n i : ℕ) (keys : List StoredMessageKey)
    → any (λ k. k.iteration == n) keys ≡ false
    → any (λ k. k.iteration == n) (remove_first (λ k. k.iteration == i) keys) ≡ false
any-remove n i [] a = refl
any-remove n i (k ∷ keys) a = ground (arith, any-remove n i keys)

pub AllDistinct-remove :
    (i : ℕ) (keys : List StoredMessageKey)
    → AllDistinct keys
    → AllDistinct (remove_first (λ k. k.iteration == i) keys)
      × (any (λ k. k.iteration == i) (remove_first (λ k. k.iteration == i) keys) ≡ false)
AllDistinct-remove i [] d = (tt, refl)
AllDistinct-remove i (k ∷ keys) d = elim (Bool-cases (k.iteration == i)) [
  | inl same ↦ rw same (
    d.1,
    subst (λ n. any (λ j. j.iteration == n) keys ≡ false) ((nat_eq.same_iff k.iteration i).0 same)
        d.0,
  )
  | inr differ ↦
      let rest = AllDistinct-remove i keys d.1 in
      rw differ ((any-remove k.iteration i keys d.0, rest.0), rw differ rest.1)
]
