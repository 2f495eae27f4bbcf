-- ===== src/Wire/Conversion/Fields.antt =====
-- One property of a message, turned into a property of an object and back.
use libsignal_node.Common.{
  ap, ◌%◌, ◌⊎◌, inl, inr, ℕ, ◌^◌, ◌<◌, ◌≡◌, refl, arith, Bytes, [], ◌∷◌, Option, none, some, Bool,
  true, false, String, Dict, lookup, lookup-put, put, string_eq, ◌==◌, if◌then◌else◌, pos,
}
use libsignal_node.Session.Message.{to_uint32, bytes_of, number_of}
use libsignal_node.Wire.Conversion.{
  Value, Properties, Util, BytesAs, check_bytes, check_number, default_bytes, set_own, read_bytes,
  read_number, own_bytes, own_number,
}

-- The value of a property after an own property may have been set over it.
abbrev or_else : Option Value → Option Value → Option Value
or_else (some v) w = some v
or_else none w = w

pub lookup-set_own :
    (k j : String) (v : Option Value) (d : Properties)
    → lookup j (set_own k v d) ≡ (if k == j then or_else v (lookup j d) else lookup j d)
unfolding set_own
lookup-set_own k j none d = ground arith
lookup-set_own k j (some v) d = lookup-put k j v d

pub lookup-defaults :
    (k : String) (b : Bool) (d : Properties)
    → lookup k (if b then d else []) ≡ (if b then lookup k d else none)
unfolding lookup
lookup-defaults k true d = refl
lookup-defaults k false d = refl

abbrev default : Bool → Value → Option Value
default b v = if b then some v else none

pub or_else-none : (v : Option Value) → or_else v none ≡ v
or_else-none none = refl
or_else-none (some v) = refl

pub lookup-nothing : (k : String) → lookup {V = Value} k [] ≡ none
unfolding lookup
lookup-nothing k = refl

pub ruleset properties_set =
    (lookup-set_own, lookup-put, lookup-defaults, or_else-none, lookup-nothing)

-- A property of a message holds the bytes: in an `Array` where `bytes` was `Array`, else in a buffer. For
-- no bytes there may be no own property.
abbrev pub HoldsBytes : BytesAs → Bytes → Option Value → Type 0
HoldsBytes a [] v = (v ≡ none) ⊎ (v ≡ some (Value.buffer []))
HoldsBytes BytesAs.as_string (b ∷ bs) v = (v ≡ some (Value.buffer (b ∷ bs)))
HoldsBytes BytesAs.as_array (b ∷ bs) v = (v ≡ some (Value.array (b ∷ bs)))
HoldsBytes BytesAs.as_buffer (b ∷ bs) v = (v ≡ some (Value.buffer (b ∷ bs)))

-- It holds the number; for 0 there may be no own property.
abbrev pub HoldsNumber : ℕ → Option Value → Type 0
HoldsNumber n v = (v ≡ some (Value.integer (pos n))) ⊎ ((v ≡ none) × (n ≡ 0))

module _ (u : Util) where
  pub read_bytes-own_bytes :
      ((b : Bytes) → u.base64_decode (u.base64_encode b) ≡ b)
      → u.base64_decode "" ≡ []
      → (a : BytesAs) (d : Bool) (v : Option Bytes)
      → HoldsBytes a
          (bytes_of v)
          (read_bytes u (or_else (own_bytes u a v) (default d (default_bytes a))))
  unfolding read_bytes own_bytes default_bytes
  read_bytes-own_bytes coded empty BytesAs.as_string true none =
      inr (ap (λ b. some (Value.buffer b)) empty)
  read_bytes-own_bytes coded empty BytesAs.as_array true none = inl refl
  read_bytes-own_bytes coded empty BytesAs.as_buffer true none = inl refl
  read_bytes-own_bytes coded empty a false none = inl refl
  read_bytes-own_bytes coded empty BytesAs.as_string d (some []) =
      inr (ap (λ b. some (Value.buffer b)) (coded []))
  read_bytes-own_bytes coded empty BytesAs.as_string d (some (b ∷ bs)) =
      ap (λ b. some (Value.buffer b)) (coded (b ∷ bs))
  read_bytes-own_bytes coded empty BytesAs.as_array d (some []) = inl refl
  read_bytes-own_bytes coded empty BytesAs.as_array d (some (b ∷ bs)) = refl
  read_bytes-own_bytes coded empty BytesAs.as_buffer d (some []) = inl refl
  read_bytes-own_bytes coded empty BytesAs.as_buffer d (some (b ∷ bs)) = refl

  pub read_number-own_number :
      (d : Bool) (v : Option ℕ)
      → number_of v < 2 ^ 32
      → HoldsNumber
          (number_of v)
          (read_number u (or_else (own_number u v) (default d (Value.integer (pos 0)))))
  unfolding read_number own_number to_uint32
  read_number-own_number true none small = inl refl
  read_number-own_number false none small = inr (refl, refl)
  read_number-own_number d (some n) small =
      let same : n % 2 ^ 32 ≡ n = omega arith in inl (ap (λ n. some (Value.integer (pos n))) same)

  pub check_bytes-own_bytes :
      (e : String) (a : BytesAs) (d : Bool) (v : Option Bytes)
      → check_bytes e (or_else (own_bytes u a v) (default d (default_bytes a))) ≡ none
  unfolding check_bytes own_bytes default_bytes
  check_bytes-own_bytes e BytesAs.as_string true none = refl
  check_bytes-own_bytes e BytesAs.as_array true none = refl
  check_bytes-own_bytes e BytesAs.as_buffer true none = refl
  check_bytes-own_bytes e a false none = refl
  check_bytes-own_bytes e BytesAs.as_string d (some b) = refl
  check_bytes-own_bytes e BytesAs.as_array d (some b) = refl
  check_bytes-own_bytes e BytesAs.as_buffer d (some b) = refl

  pub check_number-own_number :
      (e : String) (d : Bool) (v : Option ℕ)
      → check_number e (or_else (own_number u v) (default d (Value.integer (pos 0)))) ≡ none
  unfolding check_number own_number
  check_number-own_number e true none = refl
  check_number-own_number e false none = refl
  check_number-own_number e d (some n) = refl
