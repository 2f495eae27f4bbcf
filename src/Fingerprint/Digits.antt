-- ===== src/Fingerprint/Digits.antt =====
-- The five digits that src/numeric-fingerprint.ts makes of a chunk.
use libsignal_node.Common.{
  drop, ℕ, zero, suc, ◌+◌, ◌-◌, ◌*◌, ◌/◌, ◌%◌, ◌≤◌, ◌<◌, ◌≡◌, refl, ap, ◌∙◌, arith, Bytes, [], ◌∷◌,
  ◌++◌, some, true, false, ltb, length, replicate, length-append, Bool-cases, inl, inr,
}
use libsignal_node.Fingerprint.{
  chunk_of, digits, to_decimal, pad_zeros, chunk_value, get_encoded_chunk,
}

-- The number that digits stand for, read on from `acc`.
abbrev pub number_from : ℕ → Bytes → ℕ
number_from acc [] = acc
number_from acc (c ∷ s) = number_from (acc * 10 + (c - 48)) s

number_from-append :
    (acc : ℕ) (s t : Bytes) → number_from acc (s ++ t) ≡ number_from (number_from acc s) t
number_from-append acc [] t = refl
number_from-append acc (c ∷ s) t = number_from-append (acc * 10 + (c - 48)) s t

number_from-zeros : (n : ℕ) (s : Bytes) → number_from 0 (replicate n 48 ++ s) ≡ number_from 0 s
number_from-zeros zero s = refl
number_from-zeros (suc n) s = number_from-zeros n s

length-zeros : (n : ℕ) → length {A = ℕ} (replicate n 48) ≡ n
length-zeros zero = refl
length-zeros (suc n) = ap suc (length-zeros n)

last_digit : (fuel n : ℕ) → ltb n 10 ≡ true → digits (suc fuel) n ≡ (48 + n) ∷ []
unfolding digits
last_digit fuel n h = rw h refl

more_digits :
    (fuel n : ℕ)
    → ltb n 10 ≡ false
    → digits (suc fuel) n ≡ digits fuel (n / 10) ++ (48 + n % 10) ∷ []
unfolding digits
more_digits fuel n h = rw h refl

number_from-digits : (fuel n : ℕ) → n < fuel → number_from 0 (digits fuel n) ≡ n
number_from-digits zero n h = absurd (omega arith)
number_from-digits (suc fuel) n h = elim (Bool-cases (ltb n 10)) [
  | inl small ↦ rw (last_digit fuel n small) (omega arith)
  | inr large ↦
      rw
        (more_digits fuel n large, number_from-append 0 (digits fuel (n / 10)) ((48 + n % 10) ∷ []))
        (omega (arith, number_from-digits fuel (n / 10) (ground arith)))
]

-- The first number with more than `k + 1` digits.
abbrev limit : ℕ → ℕ
limit zero = 10
limit (suc k) = limit k * 10

length-digits : (k fuel n : ℕ) → n < limit k → length (digits fuel n) ≤ k + 1
unfolding digits
length-digits k zero n h = omega arith
length-digits zero (suc fuel) n h = rw (last_digit fuel n (ground arith)) (omega arith)
length-digits (suc k) (suc fuel) n h = elim (Bool-cases (ltb n 10)) [
  | inl small ↦ rw (last_digit fuel n small) (omega arith)
  | inr large ↦
      let shorter = length-digits k fuel (n / 10) (omega arith) in
      rw (more_digits fuel n large)
        (omega (arith, length-append (digits fuel (n / 10)) ((48 + n % 10) ∷ []), shorter))
]

chunk_of-small : (s : Bytes) (n : ℕ) → chunk_of s ≡ some n → n < 100000
unfolding chunk_of
chunk_of-small [] n e = absurd cc
chunk_of-small (a ∷ []) n e = absurd cc
chunk_of-small (a ∷ b ∷ []) n e = absurd cc
chunk_of-small (a ∷ b ∷ c ∷ []) n e = absurd cc
chunk_of-small (a ∷ b ∷ c ∷ d ∷ []) n e = absurd cc
chunk_of-small (a ∷ b ∷ c ∷ d ∷ x ∷ rest) n e = ground arith

-- Padded, a number below 100000 has five digits.
length-pad_zeros : (s : Bytes) → length s ≤ 5 → length (pad_zeros s) ≡ 5
unfolding pad_zeros
length-pad_zeros s h =
    omega (arith, length-append (replicate (5 - length s) 48) s, length-zeros (5 - length s))

number_from-to_decimal : (n : ℕ) → number_from 0 (pad_zeros (to_decimal n)) ≡ n
unfolding pad_zeros to_decimal
number_from-to_decimal n =
    number_from-zeros (5 - length (digits (n + 1) n)) (digits (n + 1) n)
    ∙ number_from-digits (n + 1) n (omega arith)

-- If the hash has five bytes from the offset on, the chunk is five characters long, and read as decimal
-- digits they are the number that the five bytes give.
pub get_encoded_chunk-chunk_value :
    (h : Bytes) (offset n : ℕ)
    → chunk_value h offset ≡ some n
    → (length (get_encoded_chunk h offset) ≡ 5) × (number_from 0 (get_encoded_chunk h offset) ≡ n)
unfolding get_encoded_chunk to_decimal chunk_value
get_encoded_chunk-chunk_value h offset n e =
    rw (get_encoded_chunk, e)
      (
        length-pad_zeros (digits (n + 1) n)
            (length-digits 4 (n + 1) n (chunk_of-small (drop offset h) n e)),
        number_from-to_decimal n,
      )
