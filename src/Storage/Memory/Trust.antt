-- ===== src/Storage/Memory/Trust.antt =====
-- Which identity keys the storage in memory trusts, and which prekeys it hands out.
use libsignal_node.Common.{
  ℕ, ◌≡◌, refl, arith, Bytes, [], ◌∷◌, none, some, true, false, String, lookup, put,
  lookup-put_self, ◌==◌, string_eq, nat_eq, bytes_eq, Option-cases, Bool-cases, inl, inr, not, ◌||◌,
  ◌⊎◌, bytes_beq_iff, ap, ◌∙◌, List, ◌++◌,
}
use libsignal_node.Storage.Interface.{Direction}
use libsignal_node.Storage.Memory.{
  MemorySignalStorage, IdentityTrustPolicy, is_trusted_identity, save_identity, reserve_pre_key,
  contains, has_pre_key,
}

is_trusted_identity-known :
    (identifier : String) (key key' : Bytes) (d : Direction) (m : MemorySignalStorage)
    → lookup identifier m.trusted_identities ≡ some key
    → is_trusted_identity identifier key' d m ≡ (key == key', m)
unfolding is_trusted_identity
is_trusted_identity-known identifier key key' d m e = rw (e, is_trusted_identity) refl

policy-cases :
    (policy : IdentityTrustPolicy)
    → (policy ≡ IdentityTrustPolicy.tofu) ⊎ (policy ≡ IdentityTrustPolicy.strict)
policy-cases IdentityTrustPolicy.tofu = inl refl
policy-cases IdentityTrustPolicy.strict = inr refl

is_trusted_identity-first :
    (identifier : String) (key : Bytes) (d : Direction) (m : MemorySignalStorage)
    → lookup identifier m.trusted_identities ≡ none
    → m.identity_trust_policy ≡ IdentityTrustPolicy.tofu
    → is_trusted_identity identifier key d m
      ≡ (true, record m { trusted_identities = put identifier key m.trusted_identities })
unfolding is_trusted_identity
is_trusted_identity-first identifier key d m e q = ground arith

is_trusted_identity-strict :
    (identifier : String) (key : Bytes) (d : Direction) (m : MemorySignalStorage)
    → lookup identifier m.trusted_identities ≡ none
    → m.identity_trust_policy ≡ IdentityTrustPolicy.strict
    → is_trusted_identity identifier key d m ≡ (false, m)
unfolding is_trusted_identity
is_trusted_identity-strict identifier key d m e q = ground arith

-- A key that is trusted is the one that is remembered from then on.
remembered :
    (identifier : String) (key : Bytes) (d : Direction) (m : MemorySignalStorage)
    → (is_trusted_identity identifier key d m).0 ≡ true
    → lookup identifier (is_trusted_identity identifier key d m).1.trusted_identities ≡ some key
remembered identifier key d m h = elim (Option-cases (lookup identifier m.trusted_identities)) [
  | inr (known, e) ↦
      let same : known ≡ key =
        (bytes_beq_iff known key).0
          (rw (is_trusted_identity-known identifier known key d m e) at h) in
      rw (is_trusted_identity-known identifier known key d m e) (e ∙ ap some same)
  | inl e ↦ elim (policy-cases m.identity_trust_policy) [
    | inl q ↦
        rw (is_trusted_identity-first identifier key d m e q)
          (lookup-put_self identifier key m.trusted_identities)
    | inr q ↦
        let no : false ≡ true = rw (is_trusted_identity-strict identifier key d m e q) at h in cc
  ]
]

-- Once the storage has said that an identity key is trusted, then under either policy it trusts that
-- key, and no other, for the same identifier, and asking changes nothing any more.
pub is_trusted_identity-is_trusted_identity :
    (identifier : String) (key key' : Bytes) (d d' : Direction) (m : MemorySignalStorage)
    → (is_trusted_identity identifier key d m).0 ≡ true
    → is_trusted_identity identifier key' d' (is_trusted_identity identifier key d m).1
      ≡ (key == key', (is_trusted_identity identifier key d m).1)
is_trusted_identity-is_trusted_identity identifier key key' d d' m h =
    is_trusted_identity-known identifier key key' d' (is_trusted_identity identifier key d m).1
      (remembered identifier key d m h)

saved :
    (identifier : String) (key : Bytes) (m : MemorySignalStorage)
    → (save_identity identifier key m).1.trusted_identities
      ≡ put identifier key m.trusted_identities
unfolding save_identity
saved identifier key m = elim (Option-cases (lookup identifier m.trusted_identities)) [
  | inl e ↦ rw (e, save_identity) refl
  | inr (known, e) ↦ elim (Bool-cases (known == key)) [
    | inl same ↦ rw (e, save_identity, same) refl
    | inr other ↦ rw (e, save_identity, other) refl
  ]
]

-- After `saveIdentity`, whatever was known before, exactly the saved key is trusted.
pub is_trusted_identity-save_identity :
    (identifier : String) (key key' : Bytes) (d : Direction) (m : MemorySignalStorage)
    → is_trusted_identity identifier key' d (save_identity identifier key m).1
      ≡ (key == key', (save_identity identifier key m).1)
is_trusted_identity-save_identity identifier key key' d m =
    is_trusted_identity-known identifier key key' d (save_identity identifier key m).1
      (rw (saved identifier key m) (lookup-put_self identifier key m.trusted_identities))

reserve_pre_key-taken :
    (id : ℕ) (m : MemorySignalStorage)
    → contains id m.published_pre_keys ≡ true
    → reserve_pre_key id m ≡ (false, m)
unfolding reserve_pre_key
reserve_pre_key-taken id m h = ground arith

pub reserve_pre_key-refused :
    (id : ℕ) (m : MemorySignalStorage)
    → (not (has_pre_key id m) || contains id m.published_pre_keys) ≡ true
    → reserve_pre_key id m ≡ (false, m)
unfolding reserve_pre_key
reserve_pre_key-refused id m h = rw h refl

pub reserve_pre_key-free :
    (id : ℕ) (m : MemorySignalStorage)
    → (not (has_pre_key id m) || contains id m.published_pre_keys) ≡ false
    → reserve_pre_key id m
      ≡ (true, record m { published_pre_keys = m.published_pre_keys ++ id ∷ [] })
unfolding reserve_pre_key
reserve_pre_key-free id m h = rw h refl

pub contains-append : (id : ℕ) (ids : List ℕ) → contains id (ids ++ id ∷ []) ≡ true
contains-append id [] = ground arith
contains-append id (j ∷ ids) = ground (arith, contains-append id ids)

-- A prekey that has been reserved cannot be reserved again, and the attempt changes nothing.
pub reserve_pre_key-reserve_pre_key :
    (id : ℕ) (m : MemorySignalStorage)
    → (reserve_pre_key id m).0 ≡ true
    → reserve_pre_key id (reserve_pre_key id m).1 ≡ (false, (reserve_pre_key id m).1)
reserve_pre_key-reserve_pre_key id m h =
    elim (Bool-cases (not (has_pre_key id m) || contains id m.published_pre_keys)) [
      | inl refused ↦ let no : false ≡ true = rw (reserve_pre_key-refused id m refused) at h in cc
      | inr free ↦
          rw (reserve_pre_key-free id m free)
            (reserve_pre_key-taken id _ (contains-append id m.published_pre_keys))
    ]
