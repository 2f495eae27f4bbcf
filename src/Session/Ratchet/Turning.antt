-- ===== src/Session/Ratchet/Turning.antt =====
-- A whole ratchet step: the receiving chain of the new remote key, the new sending chain, and the root key.
use libsignal_node.Common.{
  ◌≡◌, ◌≢◌, refl, ◌∙◌, arith, Bytes, [], ◌∷◌, ◌++◌, none, some, true, false, lookup,
  lookup-append_last, length, ◌==◌, string_eq, ℤ, ok,
}
use libsignal_node.Platform.{Platform, PlatformLaws, KeyPair}
use libsignal_node.Curve.{calculate_agreement}
use libsignal_node.Session.Entry.{
  Chain, ChainType, SessionEntry, get_chain, remove_old_receiver_chains,
}
use libsignal_node.Session.Ratchet.{
  new_chain, step_ratchet, maybe_step_ratchet, max_receiver_chains,
}
use libsignal_node.Session.Ratchet.Stepping.{
  next_root, next_chain, ratcheted, length-next_root, calculate_ratchet-ok, IsFinished,
  close_previous-ok, retire_sending-ok, ids_differ,
}
use libsignal_node.Session.Ratchet.Trimming.{
  lookup-trimmed_sending, lookup-trimmed_receiving, lookup-trimmed_absent,
}

-- What a step on the remote key `remote` makes of the session `r`, with its two agreements.
pub record Stepped (p : Platform) (fresh : KeyPair) (remote secret secret' : Bytes)
    (r r' : SessionEntry) : Type 0 where
  pub receives :
      get_chain p remote r'
      ≡ some (new_chain (next_chain p r.current_ratchet.root_key secret) ChainType.receiving)
  pub sends :
      get_chain p fresh.pub_key r'
      ≡ some (
          new_chain
            (next_chain p (next_root p r.current_ratchet.root_key secret) secret')
            ChainType.sending)
  pub pair : r'.current_ratchet.ephemeral_key_pair ≡ fresh
  pub last : r'.current_ratchet.last_remote_ephemeral_key ≡ remote
  pub root :
      r'.current_ratchet.root_key
      ≡ next_root p (next_root p r.current_ratchet.root_key secret) secret'
  pub identity : r'.index_info ≡ r.index_info
  pub previous :
      (a : Chain)
      → get_chain p r.current_ratchet.ephemeral_key_pair.pub_key r ≡ some a
      → r'.current_ratchet.previous_counter ≡ a.chain_key.counter
  pub others :
      (key : Bytes)
      → remote ≢ key
      → fresh.pub_key ≢ key
      → get_chain p key r ≡ none
      → get_chain p key r' ≡ none

module _ (p : Platform) (laws : PlatformLaws p) (fresh : KeyPair) (remote secret secret' : Bytes)
    (n : ℤ) (r : SessionEntry) where
  pub maybe_step_ratchet-Stepped :
      length r.current_ratchet.root_key ≡ 32
      → calculate_agreement p remote r.current_ratchet.ephemeral_key_pair.priv_key ≡ ok secret
      → calculate_agreement p remote fresh.priv_key ≡ ok secret'
      → get_chain p remote r ≡ none
      → get_chain p fresh.pub_key r ≡ none
      → remote ≢ fresh.pub_key
      → remote ≢ r.current_ratchet.ephemeral_key_pair.pub_key
      → r.current_ratchet.ephemeral_key_pair.pub_key ≢ r.current_ratchet.last_remote_ephemeral_key
      → IsFinished p laws r.current_ratchet.last_remote_ephemeral_key n r
      → (r' : SessionEntry) × (maybe_step_ratchet p fresh remote n r ≡ ok r')
        × Stepped p fresh remote secret secret' r r'
  unfolding maybe_step_ratchet step_ratchet get_chain remove_old_receiver_chains
  maybe_step_ratchet-Stepped size agreed agreed' new new' apart apart' apart'' finished =
      let root : Bytes = r.current_ratchet.root_key in
      let (d, closes, kept, absent) = close_previous-ok p laws n r finished in
      let s1 : SessionEntry = record r { chains = d } in
      let c : Chain = new_chain (next_chain p root secret) ChainType.receiving in
      let s2 : SessionEntry = ratcheted p remote ChainType.receiving secret s1 in
      let (b, m, retires, still, counter) =
        retire_sending-ok p laws s2 d remote c refl (absent remote new) apart' in
      let s3 : SessionEntry = record s2 {
        current_ratchet = record s2.current_ratchet { previous_counter = m };
        chains = b ++ (p.to_base64 remote, c) ∷ [];
      } in
      let s4 : SessionEntry = record s3 {
        current_ratchet = record s3.current_ratchet { ephemeral_key_pair = fresh };
      } in
      let differ : (p.to_base64 remote == p.to_base64 fresh.pub_key) ≡ false =
        ids_differ p laws remote fresh.pub_key apart in
      let newer : lookup (p.to_base64 fresh.pub_key) (b ++ (p.to_base64 remote, c) ∷ []) ≡ none =
        rw
          (
            lookup-append_last (p.to_base64 remote) (p.to_base64 fresh.pub_key) c b
                (still (p.to_base64 remote) (absent remote new)),
            differ,
          )
          (still (p.to_base64 fresh.pub_key) (absent fresh.pub_key new')) in
      let c' : Chain =
        new_chain (next_chain p (next_root p root secret) secret') ChainType.sending in
      let s5 : SessionEntry = ratcheted p fresh.pub_key ChainType.sending secret' s4 in
      let s6 : SessionEntry = record s5 {
        current_ratchet = record s5.current_ratchet { last_remote_ephemeral_key = remote };
      } in
      (
        remove_old_receiver_chains max_receiver_chains s6,
        rw
            (
              new,
              maybe_step_ratchet,
              step_ratchet,
              closes,
              calculate_ratchet-ok p laws remote secret false s1 size agreed (absent remote new),
              retires,
              calculate_ratchet-ok p laws remote secret' true s4
                  (length-next_root p laws root secret size) agreed' newer,
            )
            refl,
        record {
          receives =
              lookup-trimmed_receiving max_receiver_chains (p.to_base64 remote)
                (p.to_base64 fresh.pub_key) c c' b (omega arith) refl refl
                (still (p.to_base64 remote) (absent remote new)) newer;
          sends =
              lookup-trimmed_sending max_receiver_chains (p.to_base64 remote)
                (p.to_base64 fresh.pub_key) c c' b (omega arith) refl refl
                (still (p.to_base64 remote) (absent remote new)) newer;
          pair = refl;
          last = refl;
          root = refl;
          identity = refl;
          previous = λ a found. counter a (kept _ apart'' ∙ found);
          others = λ key ne ne' none_there.
              lookup-trimmed_absent max_receiver_chains (p.to_base64 remote)
                (p.to_base64 fresh.pub_key) c c' b (omega arith) refl refl
                (still (p.to_base64 remote) (absent remote new)) newer (p.to_base64 key)
                (ids_differ p laws remote key ne) (ids_differ p laws fresh.pub_key key ne')
                (still (p.to_base64 key) (absent key none_there));
        },
      )
