-- ===== src/Wire/Reader.antt =====
-- What the `encode` and `decode` functions share: the writes of one field, and the loop
-- `while (r.pos < end)`. What is left to read is the state of the loop; each round reads a tag, for
-- which the platform's reader takes a byte at least, so the length of the data is fuel enough.
use libsignal_node.Common.{
  ℕ, zero, suc, ◌%◌, ◌^◌, ◌≤◌, ◌<◌, ◌≡◌, refl, Bytes, [], ◌∷◌, ◌++◌, Option, none, some, length,
  length-append, arith, Result, ok, err, ◌>>=◌, SignalError, plain_error,
}
use mathlib.Core.List.{append_assoc}
use libsignal_node.Platform.{Platform, PlatformLaws}

module _ (p : Platform) where
  -- `if (x != null) writer.uint32(tag).bytes(x)`
  unfoldable pub bytes_field : ℕ → Option Bytes → Bytes
  bytes_field tag none = []
  bytes_field tag (some b) = p.write_uint32 tag ++ p.write_bytes b

  -- `if (x != null) writer.uint32(tag).uint32(x)`
  unfoldable pub uint32_field : ℕ → Option ℕ → Bytes
  uint32_field tag none = []
  uint32_field tag (some n) = p.write_uint32 tag ++ p.write_uint32 n

  -- `default: r.skipType(tag & 7)`
  unfoldable pub skip : {M : Type 0} → ℕ → M → Bytes → Result (M × Bytes)
  skip tag m left = do rest ← p.skip_type (tag % 8) left; ok (m, rest)

abbrev pub out_of_fuel : SignalError
out_of_fuel = plain_error "out of fuel"

module _ {M : Type 0} (p : Platform) (field : ℕ → M → Bytes → Result (M × Bytes)) where
  unfoldable pub read_fields : ℕ → M → Bytes → Result M
  read_fields fuel m [] = ok m
  read_fields zero m (b ∷ bs) = err out_of_fuel
  read_fields (suc fuel) m (b ∷ bs) = do
    (tag, left) ← p.read_uint32 (b ∷ bs)
    (m', rest) ← field tag m left
    read_fields fuel m' rest

  -- With fuel for its length, the data makes `m` into `r`.
  abbrev pub Reads : M → Bytes → M → Type 0
  Reads m bytes r = (fuel : ℕ) → length bytes ≤ fuel → read_fields fuel m bytes ≡ ok r

  pub Reads-nil : (m : M) → Reads m [] m
  unfolding read_fields
  Reads-nil m zero h = refl
  Reads-nil m (suc fuel) h = refl

  pub read_fields-tag :
      (laws : PlatformLaws p) (tag : ℕ) (m m' r : M) (left rest : Bytes)
      → tag < 2 ^ 32
      → field tag m left ≡ ok (m', rest)
      → length rest ≤ length left
      → Reads m' rest r
      → Reads m (p.write_uint32 tag ++ left) r
  read_fields-tag laws tag m m' r left rest small e shrinks h =
      go (p.write_uint32 tag ++ left) (laws.read-write_uint32 tag left small)
        (omega (arith, length-append (p.write_uint32 tag) left, laws.write_uint32-pos tag))
    where
      go :
          (bytes : Bytes)
          → p.read_uint32 bytes ≡ ok (tag, left)
          → suc (length rest) ≤ length bytes
          → Reads m bytes r
      go [] q l fuel k = absurd (omega arith)
      go (b ∷ bs) q l zero k = absurd (omega arith)
      go (b ∷ bs) q l (suc fuel) k = unfold read_fields in rw q (rw e (h fuel (omega arith)))

  -- A field that may be absent: `set o` is the message once it has been read.
  pub Reads-bytes_field :
      (laws : PlatformLaws p) (tag : ℕ) (set : Option Bytes → M) (o : Option Bytes) (rest : Bytes)
      (r : M)
      → tag < 2 ^ 32
      → ((b : Bytes) → field tag (set none) (p.write_bytes b ++ rest) ≡ ok (set (some b), rest))
      → Reads (set o) rest r
      → Reads (set none) (bytes_field p tag o ++ rest) r
  unfolding bytes_field
  Reads-bytes_field laws tag set none rest r small e h = h
  Reads-bytes_field laws tag set (some b) rest r small e h = rw append_assoc (
      read_fields-tag laws tag (set none) (set (some b)) r (p.write_bytes b ++ rest) rest small
        (e b) (omega (arith, length-append (p.write_bytes b) rest)) h)

  pub Reads-uint32_field :
      (laws : PlatformLaws p) (tag : ℕ) (set : Option ℕ → M) (o : Option ℕ) (rest : Bytes) (r : M)
      → tag < 2 ^ 32
      → ((n : ℕ)
          → o ≡ some n
          → field tag (set none) (p.write_uint32 n ++ rest) ≡ ok (set (some n), rest))
      → Reads (set o) rest r
      → Reads (set none) (uint32_field p tag o ++ rest) r
  unfolding uint32_field
  Reads-uint32_field laws tag set none rest r small e h = h
  Reads-uint32_field laws tag set (some n) rest r small e h = rw append_assoc (
      read_fields-tag laws tag (set none) (set (some n)) r (p.write_uint32 n ++ rest) rest small
        (e n refl) (omega (arith, length-append (p.write_uint32 n) rest)) h)

-- The value of a field that is written as a `uint32` is one.
abbrev pub FitsUint32 : Option ℕ → Type 0
FitsUint32 none = Unit
FitsUint32 (some n) = n < 2 ^ 32

pub FitsUint32-some : (o : Option ℕ) (n : ℕ) → FitsUint32 o → o ≡ some n → n < 2 ^ 32
FitsUint32-some none n h e = ground arith
FitsUint32-some (some k) n h e = ground arith
