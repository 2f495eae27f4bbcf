-- ===== src/PreKey/Ids.antt =====
-- The ranges of the ids that src/keyhelper.ts generates.
use libsignal_node.Common.{
  ◌⊎◌, inl, inr, Bool-cases, ◌==◌, nat_eq, ℕ, zero, suc, ◌+◌, ◌%◌, ◌≤◌, ◌≡◌, refl, List, [], ◌∷◌,
  none, some, arith, ok,
}
use libsignal_node.PreKey.Validator.{max_key_id, assert_key_id, assert_registration_id}
use libsignal_node.PreKey.KeyHelper.{wrap_pre_key_id, generate_registration_id}

-- Every wrapped id is at least 1 and passes the validator's `assertKeyId`; wrapping it again changes
-- nothing, and the wrapping has the period `MAX_KEY_ID`.
pub wrap_pre_key_id_range :
    (id : ℕ)
    → (1 ≤ wrap_pre_key_id id)
      × (assert_key_id (wrap_pre_key_id id) "preKey.keyId" ≡ ok tt)
      × (wrap_pre_key_id (wrap_pre_key_id id) ≡ wrap_pre_key_id id)
      × (wrap_pre_key_id (id + max_key_id) ≡ wrap_pre_key_id id)
unfolding wrap_pre_key_id assert_key_id
wrap_pre_key_id_range zero = (omega arith, refl, refl, refl)
wrap_pre_key_id_range (suc n) = (omega arith, ground arith, again, wrapped)
  where
    shift : suc n + max_key_id ≡ suc (n + max_key_id)
    shift = omega arith

    again :
        wrap_pre_key_id ((n % max_key_id + max_key_id) % max_key_id + 1)
        ≡ (n % max_key_id + max_key_id) % max_key_id + 1
    again = ground arith

    wrapped : wrap_pre_key_id (suc n + max_key_id) ≡ wrap_pre_key_id (suc n)
    wrapped = rw shift (omega arith)

abbrev pub AllClear : List ℕ → Type 0
AllClear [] = Unit {0}
AllClear (d ∷ draws) = (d % 0x4000 ≡ 0) × AllClear draws

-- Whatever is drawn: either the loop returns an id, and it is one that the validator accepts, or every
-- draw so far had its low fourteen bits clear.
pub generate_registration_id_valid :
    (draws : List ℕ)
    → ((id : ℕ) × (generate_registration_id draws ≡ some id) × (assert_registration_id id ≡ ok tt))
      ⊎ ((generate_registration_id draws ≡ none) × AllClear draws)
unfolding generate_registration_id assert_registration_id
generate_registration_id_valid [] = inr (refl, tt)
generate_registration_id_valid (d ∷ draws) = elim (Bool-cases (d % 0x4000 == 0)) [
  | inr used ↦ inl (d % 0x4000, rw (used, generate_registration_id) refl, ground arith)
  | inl clear ↦ elim (generate_registration_id_valid draws) [
    | inl (id, e, valid) ↦ inl (id, rw (clear, generate_registration_id) e, valid)
    | inr (e, rest) ↦ inr (rw (clear, generate_registration_id) e, (ground arith, rest))
  ]
]
