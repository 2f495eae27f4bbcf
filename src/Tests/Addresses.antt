-- ===== src/Tests/Addresses.antt =====
-- An address as a text and back.
use libsignal_node.Common.{ℕ, ◌≡◌, refl, String, true}
use libsignal_node.Address.{
  ProtocolAddress, address_to_string, address_from, new_address, is_number, parse_digits,
}
use libsignal_node.Address.RoundTrip.{address_from-address_to_string}

-- A printer that is right about the number 72.
abbrev print : ℕ → String
print n = "72"

abbrev device : ProtocolAddress
device = record { id = "+1555"; device_id = 72 }

printed : is_number "72" ≡ true
unfolding is_number
printed = refl

parsed : parse_digits 0 "72" ≡ 72
unfolding parse_digits
parsed = refl

address_from-address_to_string_example :
    address_from (address_to_string print device) ≡ new_address "+1555" 72
address_from-address_to_string_example = address_from-address_to_string print device printed parsed
