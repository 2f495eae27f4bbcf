-- ===== src/Group/Record/Bounds.antt =====
-- The sender key record keeps five states at most, and finds the one that was added.
use libsignal_node.Common.{
  ℕ, ◌≤◌, ◌<◌, ◌≡◌, refl, ◌∙◌, arith, Bytes, [], ◌∷◌, ◌++◌, Option, none, some, false, find?,
  remove_first, last?, length, ltb, nat_eq, last?-append, find?-append_none, length-append,
  length-remove_first-le, Bool-cases, inl, inr,
}
use libsignal_node.Group.State.{SenderKeyState, new_state}
use libsignal_node.Group.Record.{
  SenderKeyRecord, max_states, has_id, get_sender_key_state, push_state, add_sender_key_state,
}

-- No two states have the same id.
abbrev pub UniqueIds : SenderKeyRecord → Type 0
UniqueIds [] = Unit {0}
UniqueIds (s ∷ r) = (find? (has_id s.sender_key_id) r ≡ none) × UniqueIds r

find?-remove_first :
    (id : ℕ) (r : SenderKeyRecord)
    → UniqueIds r
    → find? (has_id id) (remove_first (has_id id) r) ≡ none
find?-remove_first id [] u = refl
find?-remove_first id (s ∷ r) u = ground (arith, find?-remove_first id r u.1)

find?-remove_first-none :
    (id j : ℕ) (r : SenderKeyRecord)
    → find? (has_id id) r ≡ none
    → find? (has_id id) (remove_first (has_id j) r) ≡ none
find?-remove_first-none id j [] h = refl
find?-remove_first-none id j (s ∷ r) h = ground (arith, find?-remove_first-none id j r)

remove_first-UniqueIds :
    (id : ℕ) (r : SenderKeyRecord) → UniqueIds r → UniqueIds (remove_first (has_id id) r)
remove_first-UniqueIds id [] u = tt
remove_first-UniqueIds id (s ∷ r) u = elim (Bool-cases (has_id id s)) [
  | inl e ↦ rw (e, remove_first) u.1
  | inr n ↦
      rw (n, remove_first)
        (find?-remove_first-none s.sender_key_id id r u.0, remove_first-UniqueIds id r u.1)
]

find?-rest :
    (id : ℕ) (t : SenderKeyState) (r : SenderKeyRecord)
    → find? (has_id id) (t ∷ r) ≡ none
    → (has_id id t ≡ false) × (find? (has_id id) r ≡ none)
find?-rest id t r h = elim (Bool-cases (has_id id t)) [
  | inl e ↦ cc (rw (e, find?) at h)
  | inr n ↦ (n, rw (n, find?) at h)
]

find?-last :
    (s : SenderKeyState) (r : SenderKeyRecord)
    → find? (has_id s.sender_key_id) r ≡ none
    → find? (has_id s.sender_key_id) (r ++ s ∷ []) ≡ some s
find?-last s r h = find?-append_none (has_id s.sender_key_id) r (s ∷ []) h ∙ ground arith

append-UniqueIds :
    (s : SenderKeyState) (r : SenderKeyRecord)
    → UniqueIds r
    → find? (has_id s.sender_key_id) r ≡ none
    → UniqueIds (r ++ s ∷ [])
append-UniqueIds s [] u h = (refl, tt)
append-UniqueIds s (t ∷ r) u h =
    let (other, rest) = find?-rest s.sender_key_id t r h in
    (
      find?-append_none (has_id t.sender_key_id) r (s ∷ []) u.0 ∙ ground arith,
      append-UniqueIds s r u.1 rest,
    )

-- A record in bounds whose newest state is `s`, found under its id.
abbrev IsPushed : SenderKeyState → SenderKeyRecord → Type 0
IsPushed s r =
    (length r ≤ max_states)
    × UniqueIds r
    × (last? r ≡ some s)
    × (find? (has_id s.sender_key_id) r ≡ some s)

append-IsPushed :
    (s : SenderKeyState) (k : SenderKeyRecord)
    → UniqueIds k
    → find? (has_id s.sender_key_id) k ≡ none
    → length k < max_states
    → IsPushed s (k ++ s ∷ [])
append-IsPushed s k u h l = (
  omega (arith, length-append k (s ∷ [])),
  append-UniqueIds s k u h,
  last?-append k s,
  find?-last s k h,
)

push_state-IsPushed :
    (s : SenderKeyState) (k : SenderKeyRecord)
    → UniqueIds k
    → find? (has_id s.sender_key_id) k ≡ none
    → length k ≤ max_states
    → IsPushed s (push_state s k)
unfolding push_state
push_state-IsPushed s [] u h l = append-IsPushed s [] u h (omega arith)
push_state-IsPushed s (t ∷ k) u h l =
    elim (Bool-cases (ltb max_states (length (t ∷ (k ++ s ∷ []))))) [
      | inl many ↦
          rw many (append-IsPushed s k u.1 (find?-rest s.sender_key_id t k h).1 (omega arith))
      | inr few ↦ rw few (append-IsPushed s (t ∷ k) u h (ground (arith, length-append k (s ∷ []))))
    ]

-- On a record of at most five states with different ids, adding a state leaves at most five, with
-- different ids; the new state is the newest, and is the one that is found under its id.
pub add_sender_key_state_lem :
    (id iteration : ℕ) (chain_key signing_public : Bytes) (signing_private : Option Bytes)
    (r : SenderKeyRecord)
    → UniqueIds r
    → length r ≤ max_states
    → let r' = add_sender_key_state id iteration chain_key signing_public signing_private r in
      let s = new_state id iteration chain_key signing_public signing_private in
      (length r' ≤ max_states)
      × UniqueIds r'
      × (get_sender_key_state none r' ≡ some s)
      × (get_sender_key_state (some id) r' ≡ some s)
unfolding add_sender_key_state get_sender_key_state
add_sender_key_state_lem id iteration chain_key signing_public signing_private r u h =
    push_state-IsPushed (new_state id iteration chain_key signing_public signing_private)
      (remove_first (has_id id) r) (remove_first-UniqueIds id r u) (find?-remove_first id r u)
      (omega (arith, length-remove_first-le (has_id id) r))
