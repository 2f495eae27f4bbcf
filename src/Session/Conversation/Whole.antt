-- ===== src/Session/Conversation/Whole.antt =====
-- A conversation of any length between two devices, from the handshake on.
use libsignal_node.Common.{
  ℕ, ◌≡◌, ◌≢◌, refl, sym, Bytes, List, [], ◌∷◌, map, Option, none, some, true, false, Result, ok,
  ◌>>=◌,
}
use mathlib.Core.Path.{subst}
use libsignal_node.Platform.{Platform, PlatformLaws, KeyPair}
use libsignal_node.Curve.{calculate_agreement}
use libsignal_node.Session.Entry.{SessionEntry, PendingPreKey}
use libsignal_node.Session.Handshake.{agree, init_session}
use libsignal_node.Session.Handshake.Agreement.{IsKeyPair, AllKeyPairs, public_key}
use libsignal_node.Session.Message.{encrypt_message, do_decrypt_whisper_message}
use libsignal_node.Session.Conversation.Turns.{Turn, IsUnused, decrypt-encrypt-Turn}
use libsignal_node.Session.Conversation.Opening.{init_session-Turn}

abbrev AllDiffer : Bytes → List Bytes → Type 0
AllDiffer key [] = Unit {0}
AllDiffer key (k ∷ used) = (k ≢ key) × AllDiffer key used

-- The pairs that the ratchet steps draw: as key generation makes them, new, and each in agreement with
-- the one before it.
abbrev pub AllDrawn : Platform → KeyPair → List Bytes → List (Bytes × KeyPair) → Type 0
AllDrawn p current used [] = Unit {0}
AllDrawn p current used ((text, fresh) ∷ turns) =
    IsKeyPair p fresh
    × ((secret : Bytes) × (calculate_agreement p current.pub_key fresh.priv_key ≡ ok secret))
    × AllDiffer fresh.pub_key used
    × AllDrawn p fresh (fresh.pub_key ∷ used) turns

-- The two sides write in turn. Each turn has its text and the pair that the reader's step draws; what
-- the readers have read is returned.
pub converse :
    Platform
    → List (Bytes × KeyPair)
    → Bytes
    → Bytes
    → SessionEntry
    → SessionEntry
    → Result (List Bytes)
converse p [] ours theirs s r = ok []
converse p ((text, fresh) ∷ turns) ours theirs s r = do
  (bytes, s') ← encrypt_message p ours text s
  (read, r') ← do_decrypt_whisper_message p fresh theirs bytes r
  rest ← converse p turns theirs ours r' s'
  ok (read ∷ rest)

abbrev pub texts : List (Bytes × KeyPair) → List Bytes
texts turns = map (λ t. t.0) turns

module _ (p : Platform) (laws : PlatformLaws p) where
  converse-Turn :
      (turns : List (Bytes × KeyPair)) (used : List Bytes) (ours theirs : Bytes)
      (s r : SessionEntry)
      → Turn p laws ours theirs s r
      → ((key : Bytes) → AllDiffer key used → IsUnused p s r key)
      → AllDrawn p s.current_ratchet.ephemeral_key_pair used turns
      → converse p turns ours theirs s r ≡ ok (texts turns)
  unfolding converse
  converse-Turn [] used ours theirs s r t unused drawn = refl
  converse-Turn ((text, fresh) ∷ turns) used ours theirs s r t unused
        (pair, (secret, agreed), new, drawn) =
      let (new_s, new_r) = unused fresh.pub_key new in
      let (bytes, s', r', sent, read, next, has, others) =
        decrypt-encrypt-Turn p laws ours theirs text fresh secret s r t pair agreed new_s new_r in
      let rest : converse p turns theirs ours r' s' ≡ ok (texts turns) =
        converse-Turn turns (fresh.pub_key ∷ used) theirs ours r' s' next
          (λ key (ne, old). others key ne (unused key old))
          (subst (λ k. AllDrawn p k (fresh.pub_key ∷ used) turns) (sym has) drawn) in
      rw (sent, read, rest) refl

  -- Two devices of which the initiator `a` has the prekey bundle of `b`: its base key is `e`, the signed
  -- prekey `s` and the one-time prekey, if one was used, `o`, all of them pairs as key generation makes
  -- them. The initiator's agreement gives a root key, the first step of its ratchet, with the pair
  -- `f`, a secret, and the keys of `f`, `s` and `e` are different. Then `initSession` succeeds on both
  -- sides, and however many texts the two then send each other in turn, the initiator first,
  -- every call of `encrypt` and of `doDecryptWhisperMessage` succeeds and each text is read as it was
  -- written, if each pair that a ratchet step draws is as key generation makes it, is new, and has
  -- an agreement with the pair before it.
  pub converse-init_session :
      (a e b s f g : KeyPair) (o : Option KeyPair) (root secret : Bytes) (now now' : ℕ)
      (id id' : Option ℕ) (pending : Option PendingPreKey) (turns : List (Bytes × KeyPair))
      → IsKeyPair p a
      → IsKeyPair p e
      → IsKeyPair p b
      → IsKeyPair p s
      → IsKeyPair p f
      → AllKeyPairs p laws o
      → agree p true a (some e) e b.pub_key (public_key p laws o) s.pub_key ≡ ok root
      → calculate_agreement p s.pub_key f.priv_key ≡ ok secret
      → f.pub_key ≢ s.pub_key
      → s.pub_key ≢ e.pub_key
      → AllDrawn p f (f.pub_key ∷ []) turns
      → (ours : SessionEntry) × (theirs : SessionEntry) × (init_session p now f a true
            (some e)
            none
            b.pub_key
            (public_key p laws o)
            (some s.pub_key)
            id
          ≡ ok ours)
        × (init_session p now' g b false o (some s) a.pub_key (some e.pub_key) none id' ≡ ok theirs)
        × (converse p turns a.pub_key b.pub_key (record ours { pending_pre_key = pending }) theirs
            ≡ ok (texts turns))
  converse-init_session a e b s f g o root secret now now' id id' pending turns ha he hb hs hf ho h
        agreed apart apart' drawn =
      let (ours, theirs, made, made', turn, has, unused) =
        init_session-Turn p laws a e b s f g o root secret now now' id id' pending ha he hb hs hf ho
          h agreed apart apart' in
      (
        ours,
        theirs,
        made,
        made',
        converse-Turn turns (f.pub_key ∷ []) a.pub_key b.pub_key
            (record ours { pending_pre_key = pending }) theirs turn (λ key (ne, _). unused key ne)
            (subst (λ k. AllDrawn p k (f.pub_key ∷ []) turns) (sym has) drawn),
      )
