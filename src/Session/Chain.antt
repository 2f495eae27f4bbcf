-- ===== src/Session/Chain.antt =====
-- `fillMessageKeys` and `pruneMessageKeys` of src/session-cipher.ts.
pub mod Fill
pub mod Keys
use libsignal_node.Common.{
  ℕ, zero, suc, ◌+◌, ◌-◌, ◌≡◌, Bytes, List, [], ◌∷◌, map, Option, none, some, Bool, true, false,
  String, Dict, delete, length, take, ltb, ◌==◌, nat_eq, int_eq, if◌then◌else◌, ℤ, pos, ◌+ℤ◌, ◌-ℤ◌,
  pos_part, Result, ok, err, session_error, drop,
}
use libsignal_node.Platform.{Platform}
use libsignal_node.Crypto.{calculate_mac}
use libsignal_node.Session.Entry.{Chain, ChainKey, put_message_key}

abbrev pub max_message_keys : ℕ
max_message_keys = 2000

-- The loop over the first `excess` indexes.
unfoldable pub delete_indexes : List ℕ → Dict ℕ Bytes → Dict ℕ Bytes
delete_indexes [] keys = keys
delete_indexes (i ∷ is) keys = delete_indexes is (delete i keys)

unfoldable pub prune_message_keys : Chain → Chain
prune_message_keys chain =
    let indexes = map (λ e. e.0) chain.message_keys in
    let excess = length indexes - max_message_keys in
    record chain { message_keys = delete_indexes (take excess indexes) chain.message_keys }

module _ (p : Platform) where
  -- One round of the loop, past its two checks.
  unfoldable pub fill_step : Bytes → Chain → Chain
  fill_step key chain = record chain {
    message_keys =
        put_message_key (pos_part (chain.chain_key.counter +ℤ pos 1)) (calculate_mac p key (1 ∷ []))
          chain.message_keys;
    chain_key = record {
      counter = chain.chain_key.counter +ℤ pos 1;
      key = some (calculate_mac p key (2 ∷ []));
    };
  }

  -- The `while` loop; `gap` is `counter - chain.chainKey.counter`, the rounds left.
  unfoldable pub fill_loop : ℕ → Chain → Result Chain
  fill_loop zero chain = ok chain
  fill_loop (suc gap) chain = elim (ltb 2000 (suc gap)) [
    | true ↦ err (session_error "Over 2000 messages into the future!")
    | false ↦ elim chain.chain_key.key [
      | none ↦ err (session_error "Chain closed")
      | some key ↦ fill_loop gap (fill_step key chain)
    ]
  ]

  unfoldable pub fill_message_keys : ℤ → Chain → Result Chain
  fill_message_keys counter chain =
      let gap = pos_part (counter -ℤ chain.chain_key.counter) in
      elim (fill_loop gap chain) [
        | err e ↦ err e
        | ok filled ↦ ok (
            if filled.chain_key.counter == chain.chain_key.counter
            then filled
            else prune_message_keys filled)
      ]
