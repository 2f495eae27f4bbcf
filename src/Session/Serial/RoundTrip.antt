-- ===== src/Session/Serial/RoundTrip.antt =====
-- Reading a session back gives the session that was written.
use libsignal_node.Common.{
  ℕ, ◌≡◌, ◌≢◌, refl, ap, Bytes, [], ◌∷◌, map, Option, none, some, String, Dict, ◌==◌, string_eq, ok,
  Bool-cases, inl, inr,
}
use text.Mathlib.TextEquality.{eq_iff}
use libsignal_node.Platform.{Platform, PlatformLaws}
use libsignal_node.Session.Entry.{Chain, PendingPreKey, SessionEntry}
use libsignal_node.Session.Serial.{
  SerializedChain, SerializedPendingPreKey, serialize_chain, deserialize_key, deserialize_chain,
  serialize_pending, deserialize_pending, serialize_entry, read_entry, deserialize_entry,
}

module _ (p : Platform) (laws : PlatformLaws p) where
  -- A chain key whose base64 text is not the empty text.
  abbrev pub HasText : Option Bytes → Type 0
  HasText none = Unit {0}
  HasText (some k) = p.to_base64 k ≢ ""

  abbrev pub KeysHaveText : Dict String Chain → Type 0
  KeysHaveText [] = Unit {0}
  KeysHaveText ((id, c) ∷ chains) = HasText c.chain_key.key × KeysHaveText chains

  message_keys_back :
      (keys : Dict ℕ Bytes)
      → map
          (λ (e : ℕ × String). (e.0, p.from_base64 e.1))
          (map (λ (e : ℕ × Bytes). (e.0, p.to_base64 e.1)) keys)
        ≡ keys
  message_keys_back [] = refl
  message_keys_back ((i, k) ∷ keys) = rw (laws.from_base64-to_base64 k, message_keys_back keys)

  key_back :
      (key : Option Bytes)
      → HasText key
      → deserialize_key p (elim key [ none ↦ none | some k ↦ some (p.to_base64 k) ]) ≡ key
  unfolding deserialize_key
  key_back none h = refl
  key_back (some k) h = elim (Bool-cases (p.to_base64 k == "")) [
    | inl e ↦ absurd (h ((eq_iff (p.to_base64 k) "").0 e))
    | inr n ↦ rw (n, laws.from_base64-to_base64 k)
  ]

  chain_back : (c : Chain) → HasText c.chain_key.key → deserialize_chain p (serialize_chain p c) ≡ c
  unfolding serialize_chain deserialize_chain
  chain_back c h = λ i. record {
    message_keys = message_keys_back c.message_keys i;
    chain_key = record { counter = c.chain_key.counter; key = key_back c.chain_key.key h i };
    chain_type = c.chain_type;
  }

  chains_back :
      (chains : Dict String Chain)
      → KeysHaveText chains
      → map
          (λ (e : String × SerializedChain). (e.0, deserialize_chain p e.1))
          (map (λ (e : String × Chain). (e.0, serialize_chain p e.1)) chains)
        ≡ chains
  chains_back [] h = refl
  chains_back ((id, c) ∷ chains) h = rw (chain_back c h.0, chains_back chains h.1)

  pending_back : (k : PendingPreKey) → deserialize_pending p (serialize_pending p k) ≡ k
  unfolding serialize_pending deserialize_pending
  pending_back k = λ i. record {
    signed_key_id = k.signed_key_id;
    base_key = laws.from_base64-to_base64 k.base_key i;
    pre_key_id = k.pre_key_id;
  }

  -- Under the platform's laws, writing a session and reading it back gives the same session:
  -- ratchet, chains with their stored message keys, index and pending prekey. The condition is that
  -- no chain key has an empty text, since the reader takes the empty text for a closed chain.
  pub deserialize_entry-serialize_entry :
      (s : SessionEntry) → KeysHaveText s.chains → deserialize_entry p (serialize_entry p s) ≡ ok s
  unfolding deserialize_entry serialize_entry read_entry
  deserialize_entry-serialize_entry s h = ap ok (λ i. record {
    registration_id = s.registration_id;
    current_ratchet = record {
      ephemeral_key_pair = record {
        pub_key = laws.from_base64-to_base64 s.current_ratchet.ephemeral_key_pair.pub_key i;
        priv_key = laws.from_base64-to_base64 s.current_ratchet.ephemeral_key_pair.priv_key i;
      };
      last_remote_ephemeral_key =
          laws.from_base64-to_base64 s.current_ratchet.last_remote_ephemeral_key i;
      previous_counter = s.current_ratchet.previous_counter;
      root_key = laws.from_base64-to_base64 s.current_ratchet.root_key i;
    };
    index_info = record {
      base_key = laws.from_base64-to_base64 s.index_info.base_key i;
      base_key_type = s.index_info.base_key_type;
      closed = s.index_info.closed;
      used = s.index_info.used;
      created = s.index_info.created;
      remote_identity_key = laws.from_base64-to_base64 s.index_info.remote_identity_key i;
    };
    pending_pre_key = pending_all s.pending_pre_key i;
    chains = chains_back s.chains h i;
  })
    where
      pending_all :
          (o : Option PendingPreKey)
          → ◌≡◌ {A = Option PendingPreKey}
              (elim (let t : Option SerializedPendingPreKey = elim o [
                | none ↦ none
                | some k ↦ some (serialize_pending p k)
              ] in
                t) [ none ↦ none | some k ↦ some (deserialize_pending p k) ])
              o
      pending_all none = refl
      pending_all (some k) = ap some (pending_back k)
