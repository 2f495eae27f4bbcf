-- ===== src/Session/Entry/Chains.antt =====
-- The chains of a session: reading after a write, adding and deleting.
use libsignal_node.Common.{
  ◌≡◌, refl, Bytes, [], ◌∷◌, ◌++◌, none, some, ok, ◌==◌, if◌then◌else◌, lookup-put, lookup-put_self,
  put-absent, delete, string_eq,
}
use libsignal_node.Platform.{Platform}
use libsignal_node.Session.Entry.{
  Chain, SessionEntry, get_chain, add_chain, delete_chain, update_chain,
}

module _ (p : Platform) where
  pub get_chain-update_chain :
      (key : Bytes) (c : Chain) (s : SessionEntry)
      → get_chain p key (update_chain p key c s) ≡ some c
  unfolding get_chain update_chain
  get_chain-update_chain key c s = lookup-put_self (p.to_base64 key) c s.chains

  pub get_chain-update_chain_other :
      (key other : Bytes) (c : Chain) (s : SessionEntry)
      → get_chain p other (update_chain p key c s)
        ≡ (if p.to_base64 key == p.to_base64 other then some c else get_chain p other s)
  unfolding get_chain update_chain
  get_chain-update_chain_other key other c s =
      lookup-put (p.to_base64 key) (p.to_base64 other) c s.chains

  pub add_chain-absent :
      (key : Bytes) (c : Chain) (s : SessionEntry)
      → get_chain p key s ≡ none
      → add_chain p key c s ≡ ok (record s { chains = s.chains ++ (p.to_base64 key, c) ∷ [] })
  unfolding get_chain add_chain
  add_chain-absent key c s h = rw (h, add_chain, put-absent (p.to_base64 key) c s.chains h) refl

  pub delete_chain-present :
      (key : Bytes) (c : Chain) (s : SessionEntry)
      → get_chain p key s ≡ some c
      → delete_chain p key s ≡ ok (record s { chains = delete (p.to_base64 key) s.chains })
  unfolding get_chain delete_chain delete
  delete_chain-present key c s h = rw (h, delete_chain) refl
