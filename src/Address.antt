-- ===== src/Address.antt =====
-- src/protocol-address.ts and src/sender-key-name.ts: names as texts. The number printer is the
-- platform's.
pub mod RoundTrip
use Prim.Native.String.{◌++◌}
use Prim.Native.Char.{Char, code}
use libsignal_node.Common.{
  ℕ, ◌+◌, ◌-◌, ◌*◌, String, Bool, true, false, not, ◌&&◌, ◌||◌, leb, ◌==◌, nat_eq, string_eq,
  Option, none, some, if◌then◌else◌, Result, ok, err, ◌>>=◌, ◌>>◌, require, or_throw, plain_error,
  type_error,
}

pub record ProtocolAddress : Type 0 where
  pub id : String
  pub device_id : ℕ

pub record SenderKeyName : Type 0 where
  pub group_id : String
  pub sender : ProtocolAddress

module _ (print : ℕ → String) where
  unfoldable pub address_to_string : ProtocolAddress → String
  address_to_string a = a.id ++ ("." ++ print a.device_id)

  unfoldable pub name_to_string : SenderKeyName → String
  name_to_string n = n.group_id ++ ("::" ++ (n.sender.id ++ ("::" ++ print n.sender.device_id)))

unfoldable pub is_address : ProtocolAddress → ProtocolAddress → Bool
is_address a b = a.id == b.id && a.device_id == b.device_id

unfoldable pub name_equals : SenderKeyName → SenderKeyName → Bool
unfolding is_address
name_equals a b = a.group_id == b.group_id && is_address a.sender b.sender

abbrev pub is_dot : Char → Bool
is_dot c = code c == 46

-- `id.indexOf(".") !== -1`
unfoldable pub has_dot : String → Bool
has_dot String.[] = false
has_dot (String.◌∷◌ c s) = is_dot c || has_dot s

-- The constructor of `ProtocolAddress`.
unfoldable pub new_address : String → ℕ → Result ProtocolAddress
unfolding has_dot
new_address id device_id =
    if has_dot id
    then err (type_error "encoded addr detected")
    else ok (record { id = id; device_id = device_id })

-- What is before the last dot and what is after it.
unfoldable pub split_last_dot : String → Option (String × String)
split_last_dot String.[] = none
split_last_dot (String.◌∷◌ c s) = elim (split_last_dot s) [
  | some (before, after) ↦ some (String.◌∷◌ c before, after)
  | none ↦ if is_dot c then some ("", s) else none
]

abbrev pub is_digit : Char → Bool
is_digit c = leb 48 (code c) && leb (code c) 57

abbrev pub all_digits : String → Bool
all_digits String.[] = true
all_digits (String.◌∷◌ c s) = is_digit c && all_digits s

-- `/^\d+$/`
unfoldable pub is_number : String → Bool
is_number String.[] = false
is_number (String.◌∷◌ c s) = is_digit c && all_digits s

-- `parseInt(text, 10)` of digits, read on from `n`
unfoldable pub parse_digits : ℕ → String → ℕ
parse_digits n String.[] = n
parse_digits n (String.◌∷◌ c s) = parse_digits (n * 10 + (code c - 48)) s

unfoldable pub address_from : String → Result ProtocolAddress
unfolding split_last_dot is_number parse_digits new_address
address_from encoded = do
  (id, part) ← or_throw (split_last_dot encoded) (plain_error "Invalid address encoding")
  require (is_number part) (plain_error "Invalid address encoding")
  new_address id (parse_digits 0 part)
