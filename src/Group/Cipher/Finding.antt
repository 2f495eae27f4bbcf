-- ===== src/Group/Cipher/Finding.antt =====
-- The state that is found in a record under an id, and what a change of one state does to it.
use libsignal_node.Common.{
  ℕ, ◌≡◌, inl, inr, refl, sym, ap, ◌∙◌, arith, [], ◌∷◌, Option, some, false, ◌==◌, nat_eq,
  Bool-cases,
}
use mathlib.Core.Path.{subst}
use libsignal_node.Group.State.{SenderKeyState}
use libsignal_node.Group.Record.{SenderKeyRecord, get_sender_key_state, update_id}
use libsignal_node.Group.Cipher.Stored.{IsSound}

pub some-injective :
    {s t : SenderKeyState} → ◌≡◌ {A = Option SenderKeyState} (some s) (some t) → s ≡ t
some-injective e = cc

abbrev pub AllSound : SenderKeyRecord → Type 0
AllSound [] = Unit {0}
AllSound (s ∷ r) = IsSound s × AllSound r

pub get_sender_key_state-AllSound :
    (id : ℕ) (r : SenderKeyRecord) {s : SenderKeyState}
    → AllSound r
    → get_sender_key_state (some id) r ≡ some s
    → IsSound s
unfolding get_sender_key_state
get_sender_key_state-AllSound id [] h e = absurd (cc)
get_sender_key_state-AllSound id (t ∷ r) {s} h e = elim (Bool-cases (t.sender_key_id == id)) [
  | inl here ↦ subst IsSound (some-injective (rw here at e)) h.0
  | inr past ↦ get_sender_key_state-AllSound id r h.1 (rw past at e)
]

pub id-get_sender_key_state :
    (id : ℕ) (r : SenderKeyRecord) {s : SenderKeyState}
    → get_sender_key_state (some id) r ≡ some s
    → s.sender_key_id ≡ id
unfolding get_sender_key_state
id-get_sender_key_state id [] e = absurd (cc)
id-get_sender_key_state id (t ∷ r) e = elim (Bool-cases (t.sender_key_id == id)) [
  | inl here ↦
      let e' = rw here at e in
      ap (λ x. x.sender_key_id) (sym (some-injective e'))
      ∙ (nat_eq.same_iff t.sender_key_id id).0 here
  | inr past ↦ id-get_sender_key_state id r (rw past at e)
]

-- What is found under an id after the state of that id, or of another, has changed.
pub get_sender_key_state-update_id :
    (id : ℕ) (s s' : SenderKeyState) (r : SenderKeyRecord)
    → s'.sender_key_id ≡ id
    → get_sender_key_state (some id) r ≡ some s
    → get_sender_key_state (some id) (update_id id s' r) ≡ some s'
unfolding get_sender_key_state update_id
get_sender_key_state-update_id id s s' [] same found = absurd (cc)
get_sender_key_state-update_id id s s' (u ∷ r) same found =
    elim (Bool-cases (u.sender_key_id == id)) [
      | inl here ↦ rw (here, (nat_eq.same_iff s'.sender_key_id id).1 same) refl
      | inr past ↦
          rw (past, past) (get_sender_key_state-update_id id s s' r same (rw past at found))
    ]

pub get_sender_key_state-update_other :
    (id other : ℕ) (s' : SenderKeyState) (r : SenderKeyRecord)
    → s'.sender_key_id ≡ id
    → (id == other) ≡ false
    → get_sender_key_state (some other) (update_id id s' r) ≡ get_sender_key_state (some other) r
unfolding get_sender_key_state update_id
get_sender_key_state-update_other id other s' [] same differ = refl
get_sender_key_state-update_other id other s' (u ∷ r) same differ =
    ground (arith, get_sender_key_state-update_other id other s' r same differ)

pub AllSound-update_id :
    (id : ℕ) (s' : SenderKeyState) (r : SenderKeyRecord)
    → IsSound s'
    → AllSound r
    → AllSound (update_id id s' r)
unfolding update_id
AllSound-update_id id s' [] sound all = tt
AllSound-update_id id s' (u ∷ r) sound all = elim (Bool-cases (u.sender_key_id == id)) [
  | inl here ↦ rw here (sound, all.1)
  | inr past ↦ rw past (all.0, AllSound-update_id id s' r sound all.1)
]
