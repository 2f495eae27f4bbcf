-- ===== src/Wire/Termination.antt =====
-- The loops of the decoders end: each round of `while (r.pos < end)` reads a byte at least.
use libsignal_node.Common.{
  ℕ, zero, suc, ◌+◌, ◌/◌, ◌%◌, ◌≤◌, ◌<◌, ◌≡◌, refl, arith, Bytes, [], ◌∷◌, some, Bool, true, false,
  length, ◌==◌, nat_eq, if◌then◌else◌, Result, ok, err, SignalError, ◌≢◌, ap, ◌∙◌, ◌>>=◌, >>=-elim,
  Result-cases, inl, inr,
}
use native.Mathlib.Nat.{le_refl}
use libsignal_node.Platform.{Platform}
use libsignal_node.Wire.Reader.{read_fields, skip, out_of_fuel}
use libsignal_node.Wire.Whisper.{
  WhisperMessage, PreKeyWhisperMessage, whisper_field, decode_whisper, pre_key_whisper_field,
  decode_pre_key_whisper, empty_whisper, empty_pre_key_whisper,
}

-- The reader of protobufjs goes on: a number or a byte string takes a byte at least. None of its errors
-- is the one that stands for a loop that has not ended.
pub record ReaderAdvances (p : Platform) : Type 0 where
  pub uint32-lt : (b rest : Bytes) (n : ℕ) → p.read_uint32 b ≡ ok (n, rest) → length rest < length b
  pub bytes-lt : (b rest c : Bytes) → p.read_bytes b ≡ ok (c, rest) → length rest < length b
  pub uint32-err : (b : Bytes) → p.read_uint32 b ≢ err out_of_fuel
  pub bytes-err : (b : Bytes) → p.read_bytes b ≢ err out_of_fuel
  pub skip-err : (t : ℕ) (b : Bytes) → p.skip_type t b ≢ err out_of_fuel
  pub skip-le : (t : ℕ) (b rest : Bytes) → p.skip_type t b ≡ ok rest → length rest ≤ length b

-- What is left after one field is not longer than what was there, and a field is no endless loop.
abbrev Shrinks : {M : Type 0} → Bytes → Result (M × Bytes) → Type 0
Shrinks {M} left r =
    ((m : M) (rest : Bytes) → r ≡ ok (m, rest) → length rest ≤ length left) × (r ≢ err out_of_fuel)

if-Shrinks :
    {M : Type 0} (left : Bytes) (b : Bool) (r r' : Result (M × Bytes))
    → Shrinks left r
    → Shrinks left r'
    → Shrinks left (if b then r else r')
if-Shrinks left true r r' h h' = h
if-Shrinks left false r r' h h' = h'

err-injective : {A : Type 0} {e e' : SignalError} → ◌≡◌ {A = Result A} (err e) (err e') → e ≡ e'
err-injective h = cc

>>=-out_of_fuel :
    {A B : Type 0} (r : Result A) (f : A → Result B)
    → r ≢ err out_of_fuel
    → ((a : A) → f a ≢ err out_of_fuel)
    → (r >>= f) ≢ err out_of_fuel
>>=-out_of_fuel (err e) f none_here none_after h = none_here (ap err (err-injective h))
>>=-out_of_fuel (ok a) f none_here none_after h = none_after a h

read-Shrinks :
    {M A : Type 0} (left : Bytes) (r : Result (A × Bytes)) (g : A → M)
    → ((a : A) (rest : Bytes) → r ≡ ok (a, rest) → length rest < length left)
    → r ≢ err out_of_fuel
    → Shrinks left (r >>= λ x. ok (g x.0, x.1))
read-Shrinks left r g h e = (
  λ m rest e.
      >>=-elim r (λ x. ok (g x.0, x.1)) e
        λ x e1 e2.
          let less = h x.0 x.1 e1 in let same : x.1 ≡ rest = cc in rw (← same) (omega arith),
  >>=-out_of_fuel r (λ x. ok (g x.0, x.1)) e (λ x e. cc),
)

module _ {M : Type 0} (p : Platform) (advances : ReaderAdvances p)
    (field : ℕ → M → Bytes → Result (M × Bytes))
    (shrinks : (tag : ℕ) (m : M) (left : Bytes) → Shrinks left (field tag m left)) where
  read_fields-enough :
      (fuel extra : ℕ) (m : M) (bytes : Bytes)
      → length bytes ≤ fuel
      → read_fields p field (fuel + extra) m bytes ≡ read_fields p field fuel m bytes
  unfolding read_fields
  read_fields-enough fuel extra m [] h = refl
  read_fields-enough zero extra m (b ∷ bs) h = absurd (omega arith)
  read_fields-enough (suc fuel) extra m (b ∷ bs) h =
      let more : suc fuel + extra ≡ suc (fuel + extra) = omega arith in
      elim (Result-cases (p.read_uint32 (b ∷ bs))) [
        | inl (e, stops) ↦ rw (more, read_fields, stops) refl
        | inr (x, reads) ↦ elim (Result-cases (field x.0 m x.1)) [
          | inl (e, stops) ↦ rw (more, read_fields, reads, stops) refl
          | inr (y, goes) ↦
              let less = advances.uint32-lt (b ∷ bs) x.1 x.0 reads in
              let less' = (shrinks x.0 m x.1).0 y.0 y.1 goes in
              let rest = read_fields-enough fuel extra y.0 y.1 (omega arith) in
              rw (more, read_fields, reads, goes) rest
        ]
      ]

  read_fields-ends :
      (fuel : ℕ) (m : M) (bytes : Bytes)
      → length bytes ≤ fuel
      → read_fields p field fuel m bytes ≢ err out_of_fuel
  unfolding read_fields
  read_fields-ends fuel m [] h e = cc
  read_fields-ends zero m (b ∷ bs) h e = absurd (omega arith)
  read_fields-ends (suc fuel) m (b ∷ bs) h c = elim (Result-cases (p.read_uint32 (b ∷ bs))) [
    | inl (e, stops) ↦
        advances.uint32-err (b ∷ bs) (stops ∙ ap err (err-injective (rw (read_fields, stops) at c)))
    | inr (x, reads) ↦ elim (Result-cases (field x.0 m x.1)) [
      | inl (e, stops) ↦
          (shrinks x.0 m x.1).1
            (stops ∙ ap err (err-injective (rw (read_fields, reads, stops) at c)))
      | inr (y, goes) ↦
          let less = advances.uint32-lt (b ∷ bs) x.1 x.0 reads in
          let less' = (shrinks x.0 m x.1).0 y.0 y.1 goes in
          read_fields-ends fuel y.0 y.1 (omega arith) (rw (read_fields, reads, goes) at c)
    ]
  ]

module _ (p : Platform) (advances : ReaderAdvances p) where
  skip-Shrinks : {M : Type 0} (tag : ℕ) (m : M) (left : Bytes) → Shrinks left (skip p tag m left)
  unfolding skip
  skip-Shrinks tag m left = (
    λ m' rest e.
        >>=-elim (p.skip_type (tag % 8) left) (λ r. ok (m, r)) e
          λ r e1 e2.
            let less = advances.skip-le (tag % 8) left r e1 in
            let same : r ≡ rest = cc in rw (← same) less,
    >>=-out_of_fuel (p.skip_type (tag % 8) left) (λ r. ok (m, r)) (advances.skip-err (tag % 8) left)
        (λ r e. cc),
  )

  uint32-Shrinks :
      {M : Type 0} (left : Bytes) (g : ℕ → M)
      → Shrinks left (p.read_uint32 left >>= λ x. ok (g x.0, x.1))
  uint32-Shrinks left g =
      read-Shrinks left (p.read_uint32 left) g (λ n rest. advances.uint32-lt left rest n)
        (advances.uint32-err left)

  bytes-Shrinks :
      {M : Type 0} (left : Bytes) (g : Bytes → M)
      → Shrinks left (p.read_bytes left >>= λ x. ok (g x.0, x.1))
  bytes-Shrinks left g =
      read-Shrinks left (p.read_bytes left) g (λ b rest. advances.bytes-lt left rest b)
        (advances.bytes-err left)

  whisper_field-Shrinks :
      (tag : ℕ) (m : WhisperMessage) (left : Bytes) → Shrinks left (whisper_field p tag m left)
  unfolding whisper_field
  whisper_field-Shrinks tag m left =
      if-Shrinks left (tag / 8 == 1) _ _
        (bytes-Shrinks left (λ b. record m { ephemeral_key = some b }))
        (if-Shrinks left (tag / 8 == 2) _ _
          (uint32-Shrinks left (λ n. record m { counter = some n }))
          (if-Shrinks left (tag / 8 == 3) _ _
            (uint32-Shrinks left (λ n. record m { previous_counter = some n }))
            (if-Shrinks left (tag / 8 == 4) _ _
              (bytes-Shrinks left (λ b. record m { ciphertext = some b }))
              (skip-Shrinks tag m left))))

  pre_key_whisper_field-Shrinks :
      (tag : ℕ) (m : PreKeyWhisperMessage) (left : Bytes)
      → Shrinks left (pre_key_whisper_field p tag m left)
  unfolding pre_key_whisper_field
  pre_key_whisper_field-Shrinks tag m left =
      if-Shrinks left (tag / 8 == 5) _ _
        (uint32-Shrinks left (λ n. record m { registration_id = some n }))
        (if-Shrinks left (tag / 8 == 1) _ _
          (uint32-Shrinks left (λ n. record m { pre_key_id = some n }))
          (if-Shrinks left (tag / 8 == 6) _ _
            (uint32-Shrinks left (λ n. record m { signed_pre_key_id = some n }))
            (if-Shrinks left (tag / 8 == 2) _ _
              (bytes-Shrinks left (λ b. record m { base_key = some b }))
              (if-Shrinks left (tag / 8 == 3) _ _
                (bytes-Shrinks left (λ b. record m { identity_key = some b }))
                (if-Shrinks left (tag / 8 == 4) _ _
                  (bytes-Shrinks left (λ b. record m { message = some b }))
                  (skip-Shrinks tag m left))))))

  -- Whatever the bytes, the loops of `WhisperMessage.decode` and of `PreKeyWhisperMessage.decode` end after
  -- at most one round for each byte, if the reader takes a byte at least for each tag: the model's error
  -- for a loop that has not ended is never the result, and further rounds change no result.
  pub decode-enough :
      (bytes : Bytes) (extra : ℕ)
      → (decode_whisper p bytes ≢ err out_of_fuel)
        × (decode_pre_key_whisper p bytes ≢ err out_of_fuel)
        × (read_fields p (whisper_field p) (length bytes + extra) empty_whisper bytes
            ≡ decode_whisper p bytes)
        × (read_fields p
              (pre_key_whisper_field p)
              (length bytes + extra)
              empty_pre_key_whisper
              bytes
            ≡ decode_pre_key_whisper p bytes)
  unfolding decode_whisper decode_pre_key_whisper
  decode-enough bytes extra = (
    read_fields-ends p advances (whisper_field p) whisper_field-Shrinks (length bytes) empty_whisper
        bytes (le_refl _),
    read_fields-ends p advances (pre_key_whisper_field p) pre_key_whisper_field-Shrinks
        (length bytes) empty_pre_key_whisper bytes (le_refl _),
    read_fields-enough p advances (whisper_field p) whisper_field-Shrinks (length bytes) extra
        empty_whisper bytes (le_refl _),
    read_fields-enough p advances (pre_key_whisper_field p) pre_key_whisper_field-Shrinks
        (length bytes) extra empty_pre_key_whisper bytes (le_refl _),
  )
