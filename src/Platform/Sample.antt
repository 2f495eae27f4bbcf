-- ===== src/Platform/Sample.antt =====
-- A platform to run the model on, with its laws. It is no cryptography: it has the shapes and the
-- round trips, so that examples can be computed and the laws are seen to hold together.
use Prim.Native.Char.{code}
use libsignal_node.Common.{
  ℕ, zero, suc, ◌+◌, ◌-◌, ◌*◌, ◌/◌, ◌%◌, ◌≡◌, refl, ap, arith, Bytes, [], ◌∷◌, ◌++◌, min, String,
  true, length, take, drop, replicate, length-append, length-take, take-append, drop-append, ◌==◌,
  nat_eq, if◌then◌else◌, Result, ok, err, plain_error,
}
use libsignal_node.Platform.{Platform, PlatformLaws}

-- Cut or filled with zeros to 32 bytes.
abbrev pub pad32 : Bytes → Bytes
pad32 b = take 32 (b ++ replicate 32 0)

abbrev add_bytes : Bytes → Bytes → Bytes
add_bytes [] b = []
add_bytes (x ∷ a) [] = []
add_bytes (x ∷ a) (y ∷ b) = (x + y) ∷ add_bytes a b

-- A length byte, the text, and zeros up to a multiple of 16.
abbrev box : Bytes → Bytes
box text = length text ∷ (text ++ replicate (15 - length text % 16) 0)

abbrev unbox : Bytes → Result Bytes
unbox [] = err (plain_error "no data")
unbox (n ∷ rest) = ok (take n rest)

-- A byte as a number of "b" and then one "a".
abbrev print_byte : ℕ → String → String
print_byte zero s = String.◌∷◌ "a" s
print_byte (suc n) s = String.◌∷◌ "b" (print_byte n s)

abbrev print : Bytes → String
print [] = ""
print (n ∷ b) = print_byte n (print b)

abbrev parse : ℕ → String → Bytes
parse n String.[] = []
parse n (String.◌∷◌ c s) =
    let ended = parse 0 s in
    let longer = parse (suc n) s in if code c == 97 then n ∷ ended else longer

abbrev pub sample : Platform
sample = record {
  hmac_sha256 = λ key text. pad32 (text ++ key);
  sha512 = λ text. pad32 text ++ pad32 text;
  aes_cbc_encrypt = λ key text iv. ok (box text);
  aes_cbc_decrypt = λ key text iv. unbox text;
  diffie_hellman = λ a b. add_bytes (pad32 a) (pad32 b);
  sign = λ key text. pad32 text ++ pad32 key;
  verify = λ key text signature. true;
  public_of = pad32;
  to_base64 = print;
  from_base64 = parse 0;
  write_uint32 = λ n. n ∷ [];
  write_bytes = λ b. length b ∷ b;
  read_uint32 =
      λ b. elim b [ [] ↦ err (plain_error "index out of range") | n ∷ rest ↦ ok (n, rest) ];
  read_bytes = λ b. elim b [
    | [] ↦ err (plain_error "index out of range")
    | n ∷ rest ↦ ok (take n rest, drop n rest)
  ];
  skip_type = λ wire_type b. ok (drop 1 b);
}

length-replicate : (n x : ℕ) → length (replicate n x) ≡ n
length-replicate zero x = refl
length-replicate (suc n) x = ap suc (length-replicate n x)

length-pad32 : (b : Bytes) → length (pad32 b) ≡ 32
length-pad32 b = omega (
  arith,
  length-take 32 (b ++ replicate 32 0),
  length-append b (replicate 32 0),
  length-replicate 32 0,
)

pad32-pad32 : (b : Bytes) → pad32 (pad32 b) ≡ pad32 b
pad32-pad32 b = take-append 32 (pad32 b) (replicate 32 0) (length-pad32 b)

add_bytes_comm : (a b : Bytes) → add_bytes a b ≡ add_bytes b a
add_bytes_comm [] [] = refl
add_bytes_comm [] (y ∷ b) = refl
add_bytes_comm (x ∷ a) [] = refl
add_bytes_comm (x ∷ a) (y ∷ b) = ground (arith, add_bytes_comm a b)

length-add_bytes : (a b : Bytes) → length (add_bytes a b) ≡ min (length a) (length b)
length-add_bytes [] b = omega arith
length-add_bytes (x ∷ a) [] = omega arith
length-add_bytes (x ∷ a) (y ∷ b) = omega (arith, length-add_bytes a b)

parse-print_byte : (n m : ℕ) (s : String) → parse m (print_byte n s) ≡ (m + n) ∷ parse 0 s
parse-print_byte zero m s = ground arith
parse-print_byte (suc n) m s = ground (arith, parse-print_byte n (suc m) s)

parse-print : (b : Bytes) → parse 0 (print b) ≡ b
parse-print [] = refl
parse-print (n ∷ b) = ground (arith, parse-print_byte n 0 (print b), parse-print b)

length-box : (text : Bytes) → length (box text) ≡ 16 * suc (length text / 16)
length-box text = omega (
  arith,
  length-append text (replicate (15 - length text % 16) 0),
  length-replicate (15 - length text % 16) 0,
)

pub sample_laws : PlatformLaws sample
sample_laws = record {
  length-hmac = λ key text. length-pad32 (text ++ key);
  aes_round_trip = λ key text iv hk hi. (
    box text,
    refl,
    ap ok (take-append (length text) text (replicate (15 - length text % 16) 0) refl),
    length text / 16,
    length-box text,
  );
  from_base64-to_base64 = parse-print;
  length-sign =
      λ k m. omega (arith, length-append (pad32 m) (pad32 k), length-pad32 k, length-pad32 m);
  verify-sign = λ k m. refl;
  diffie_hellman_comm =
      λ a b. rw (pad32-pad32 a, pad32-pad32 b) (add_bytes_comm (pad32 a) (pad32 b));
  length-public_of = length-pad32;
  length-diffie_hellman =
      λ a b. omega (arith, length-add_bytes (pad32 a) (pad32 b), length-pad32 a, length-pad32 b);
  read-write_uint32 = λ n rest h. refl;
  read-write_bytes =
      λ b rest. rw (take-append (length b) b rest refl, drop-append (length b) b rest refl) refl;
  write_uint32-pos = λ n. omega arith;
}
