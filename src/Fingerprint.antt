-- ===== src/Fingerprint.antt =====
-- src/numeric-fingerprint.ts. Texts are lists of character codes. How a text is encoded as UTF-8 is a
-- parameter; SHA-512 is the platform's. The tests of the arguments' types are the types here.
pub mod Digits
pub mod Symmetric
use libsignal_node.Common.{
  ℕ, zero, suc, ◌+◌, ◌-◌, ◌*◌, ◌/◌, ◌%◌, ◌^◌, Bytes, List, [], ◌∷◌, ◌++◌, Option, none, some, Bool,
  true, false, ltb, leb, length, replicate, if◌then◌else◌, String, drop,
}
use libsignal_node.Platform.{Platform}
use libsignal_node.Crypto.{hash}

-- `number.toString()`, with the number for fuel
unfoldable pub digits : ℕ → ℕ → Bytes
digits zero n = []
digits (suc fuel) n =
    let rest = digits fuel (n / 10) in
    if ltb n 10 then (48 + n) ∷ [] else rest ++ (48 + n % 10) ∷ []

unfoldable pub to_decimal : ℕ → Bytes
unfolding digits
to_decimal n = digits (n + 1) n

-- `while (s.length < 5) s = "0" + s`
unfoldable pub pad_zeros : Bytes → Bytes
pad_zeros s = replicate (5 - length s) 48 ++ s

-- "NaN"
abbrev not_a_number : Bytes
not_a_number = 78 ∷ 97 ∷ 78 ∷ []

-- Five bytes as a number below 100000; a byte that is missing makes it NaN.
unfoldable pub chunk_of : Bytes → Option ℕ
chunk_of (a ∷ b ∷ c ∷ d ∷ e ∷ rest) =
    some ((a * 2 ^ 32 + b * 2 ^ 24 + c * 2 ^ 16 + d * 2 ^ 8 + e) % 100000)
chunk_of _ = none

unfoldable pub chunk_value : Bytes → ℕ → Option ℕ
unfolding chunk_of
chunk_value h offset = chunk_of (drop offset h)

unfoldable pub get_encoded_chunk : Bytes → ℕ → Bytes
unfolding chunk_value to_decimal pad_zeros
get_encoded_chunk h offset = elim (chunk_value h offset) [
  | none ↦ pad_zeros not_a_number
  | some n ↦ pad_zeros (to_decimal n)
]

-- The order of `sort()` on texts.
unfoldable pub text_lt : Bytes → Bytes → Bool
text_lt a [] = false
text_lt [] (y ∷ b) = true
text_lt (x ∷ a) (y ∷ b) =
    let rest = text_lt a b in if ltb x y then true else if ltb y x then false else rest

-- `[a, b].sort().join("")`
unfoldable pub sort_join : Bytes → Bytes → Bytes
unfolding text_lt
sort_join a b = if text_lt b a then b ++ a else a ++ b

module _ (p : Platform) (utf8 : String → Bytes) where
  unfoldable pub iterate_hash : Bytes → Bytes → ℕ → Bytes
  iterate_hash result key zero = result
  iterate_hash result key (suc count) = iterate_hash (hash p (result ++ key)) key count

  -- The version, 0, is two bytes.
  unfoldable pub get_display_string_for : String → Bytes → ℕ → Bytes
  unfolding iterate_hash get_encoded_chunk
  get_display_string_for identifier key iterations =
      let output = iterate_hash (0 ∷ 0 ∷ (key ++ utf8 identifier)) key iterations in
      get_encoded_chunk output 0
      ++ (get_encoded_chunk output 5
          ++ (get_encoded_chunk output 10
              ++ (get_encoded_chunk output 15
                  ++ (get_encoded_chunk output 20 ++ get_encoded_chunk output 25))))

  unfoldable pub create_for : ℕ → String → Bytes → String → Bytes → Bytes
  unfolding get_display_string_for sort_join
  create_for iterations local_identifier local_key remote_identifier remote_key =
      sort_join (get_display_string_for local_identifier local_key iterations)
        (get_display_string_for remote_identifier remote_key iterations)
