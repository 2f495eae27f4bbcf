-- ===== src/Address/RoundTrip.antt =====
-- `ProtocolAddress.from` reads what `toString` writes.
use Prim.Native.String.{◌++◌}
use Prim.Native.String.append
use libsignal_node.Common.{ℕ, ◌≡◌, refl, ap, ◌∙◌, arith, String, true, false, nat_eq, none, some}
use libsignal_node.Address.{
  ProtocolAddress, address_to_string, new_address, split_last_dot, is_number, all_digits, is_dot,
  parse_digits, address_from,
}

all_digits-split_last_dot : (s : String) → all_digits s ≡ true → split_last_dot s ≡ none
unfolding split_last_dot
all_digits-split_last_dot String.[] h = refl
all_digits-split_last_dot (String.◌∷◌ c s) h =
    let dot : is_dot c ≡ false = ground arith in
    let rest = all_digits-split_last_dot s (ground arith) in rw (split_last_dot, rest, dot) refl

is_number-all_digits : (s : String) → is_number s ≡ true → all_digits s ≡ true
unfolding is_number
is_number-all_digits String.[] h = absurd cc
is_number-all_digits (String.◌∷◌ c s) h = h

dot_append : (t : String) → "." ++ t ≡ String.◌∷◌ "." t
dot_append t = append.cons "." String.[] t ∙ ap (String.◌∷◌ ".") (append.nil t)

split_last_dot-append :
    (s t : String) → all_digits t ≡ true → split_last_dot (s ++ ("." ++ t)) ≡ some (s, t)
unfolding split_last_dot
split_last_dot-append String.[] t h =
    let digits = all_digits-split_last_dot t h in
    rw (append.nil ("." ++ t), dot_append t, split_last_dot, digits) refl
split_last_dot-append (String.◌∷◌ c s) t h =
    rw (append.cons c s ("." ++ t), split_last_dot, split_last_dot-append s t h) refl

module _ (print : ℕ → String) where
  -- If the printer writes the device id as decimal digits, `from` makes of the text of an address what the
  -- constructor makes of its two parts: the address, or its error where the name has a dot.
  pub address_from-address_to_string :
      (a : ProtocolAddress)
      → is_number (print a.device_id) ≡ true
      → parse_digits 0 (print a.device_id) ≡ a.device_id
      → address_from (address_to_string print a) ≡ new_address a.id a.device_id
  unfolding address_from address_to_string
  address_from-address_to_string a number value =
      let split =
        split_last_dot-append a.id (print a.device_id)
          (is_number-all_digits (print a.device_id) number) in
      rw (split, number, value) refl
