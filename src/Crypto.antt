-- ===== src/Crypto.antt =====
-- src/crypto.ts over the primitives of the platform. The checks that an argument is a `Uint8Array`
-- are the types here; overwriting a buffer that nothing reads afterwards is not a step of the model.
pub mod Hkdf
use libsignal_node.Common.{
  ℕ, ◌+◌, ◌-◌, ◌≡◌, Bytes, List, [], ◌∷◌, ◌++◌, Option, none, some, Bool, ◌&&◌, ◌||◌, length, take,
  drop, replicate, leb, ltb, ◌==◌, nat_eq, bytes_eq, if◌then◌else◌, get_elem?, Result, ok, err,
  ◌>>=◌, ◌>>◌, require, or_throw, plain_error, type_error, String,
}
use libsignal_node.Platform.{Platform}
use Prim.Native.String
use Prim.Native.Char.{code}

-- `Buffer.from(text)` for the ASCII labels of the protocol.
unfoldable pub ascii : String → Bytes
ascii String.[] = []
ascii (String.◌∷◌ c s) = code c ∷ ascii s

-- `Buffer.alloc(n)`
abbrev pub alloc : ℕ → Bytes
alloc n = replicate n 0

-- `target.set(source, offset)`, within the bounds of the target
unfoldable pub set_bytes : Bytes → ℕ → Bytes → Bytes
set_bytes source offset target =
    take offset target ++ (source ++ drop (offset + length source) target)

-- `xs[i]!`
abbrev pub nth {ℓ} : {A : Type ℓ} → List A → ℕ → Result A
nth xs i = or_throw (get_elem? xs i) (type_error "undefined")

module _ (p : Platform) where
  unfoldable pub encrypt : Bytes → Bytes → Bytes → Result Bytes
  encrypt key text iv = p.aes_cbc_encrypt key text iv

  unfoldable pub decrypt : Bytes → Bytes → Bytes → Result Bytes
  decrypt key text iv = p.aes_cbc_decrypt key text iv

  unfoldable pub calculate_mac : Bytes → Bytes → Bytes
  calculate_mac key text = p.hmac_sha256 key text

  unfoldable pub hash : Bytes → Bytes
  hash text = p.sha512 text

  -- The three rounds; `info_array` is the buffer of `info.byteLength + 1 + 32` bytes.
  unfoldable pub expand : Bytes → Bytes → ℕ → List Bytes
  expand prk info count =
      let size = length info + 1 + 32 in
      let round1 = set_bytes (1 ∷ []) (size - 1) (set_bytes info 32 (alloc size)) in
      let signed1 = calculate_mac prk (drop 32 round1) in
      let round2 = set_bytes (2 ∷ []) (size - 1) (set_bytes signed1 0 round1) in
      let signed2 = calculate_mac prk round2 in
      let round3 = set_bytes (3 ∷ []) (size - 1) (set_bytes signed2 0 round2) in
      let signed3 = calculate_mac prk round3 in
      if ltb 2 count
      then signed1 ∷ signed2 ∷ signed3 ∷ []
      else if ltb 1 count
      then signed1 ∷ signed2 ∷ []
      else signed1 ∷ []

  unfoldable pub derive_secrets : Bytes → Bytes → Bytes → Option ℕ → Result (List Bytes)
  derive_secrets input salt info chunks =
      let count : ℕ = elim chunks [ none ↦ 3 | some n ↦ n ] in
      do
        require (length salt == 32) (plain_error "Got salt of incorrect length")
        require (leb 1 count && leb count 3) (plain_error "chunks must be between 1 and 3")
        ok (expand (calculate_mac salt input) info count)

  unfoldable pub verify_mac : Bytes → Bytes → Bytes → ℕ → Result (Unit {0})
  verify_mac text key mac size =
      let calculated = take size (calculate_mac key text) in
      do
        require (length mac == size && length calculated == size) (plain_error "Bad MAC length")
        require (mac == calculated) (plain_error "Bad MAC")
