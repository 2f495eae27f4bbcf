-- ===== src/Session/Record/Limits.antt =====
-- What `removeOldSessions` and `closeSession` leave: at most 40 sessions, and the open ones.
use libsignal_node.Common.{
  ℕ, zero, suc, ◌≤◌, ◌≡◌, refl, ap, ◌∙◌, arith, [], ◌∷◌, Option, none, some, true, false, ◌&&◌,
  String, Dict, lookup, delete, lookup-delete, ==-lookup, ◌==◌, length-delete-lt, length, ltb,
  ltb_ℤ, string_eq, if◌then◌else◌, ok, Bool-cases, Option-cases, inl, inr,
}
use text.Mathlib.TextEquality.{eq_iff}
use libsignal_node.Session.Entry.{SessionEntry}
use libsignal_node.Session.Record.{
  SessionRecord, closed_sessions_max, is_closed, oldest_from, remove_old, remove_old_sessions,
}

-- An object has each key once.
abbrev pub UniqueKeys : Dict String SessionEntry → Type 0
UniqueKeys [] = Unit {0}
UniqueKeys ((key, s) ∷ d) = (lookup key d ≡ none) × UniqueKeys d

-- The entries whose session is open, in their order.
abbrev pub open_sessions : Dict String SessionEntry → Dict String SessionEntry
open_sessions [] = []
open_sessions ((key, s) ∷ d) =
    let rest = open_sessions d in if is_closed s then rest else (key, s) ∷ rest

delete-UniqueKeys :
    (k : String) (d : Dict String SessionEntry) → UniqueKeys d → UniqueKeys (delete k d)
unfolding delete
delete-UniqueKeys k [] u = tt
delete-UniqueKeys k ((j, s) ∷ d) u =
    ground (arith, delete-UniqueKeys k d u.1, lookup-delete k j d, eq_iff j k, eq_iff k j)

delete_absent : (k : String) (d : Dict String SessionEntry) → lookup k d ≡ none → delete k d ≡ d
unfolding delete lookup
delete_absent k [] h = refl
delete_absent k ((j, s) ∷ d) h = ground (arith, delete_absent k d)

-- Deleting a closed session leaves the open ones.
open_sessions-delete :
    (k : String) (s : SessionEntry) (d : Dict String SessionEntry)
    → UniqueKeys d
    → lookup k d ≡ some s
    → is_closed s ≡ true
    → open_sessions (delete k d) ≡ open_sessions d
unfolding delete lookup
open_sessions-delete k s [] u h c = cc
open_sessions-delete k s ((j, t) ∷ d) u h c =
    ground (arith, open_sessions-delete k s d u.1, delete_absent k d, eq_iff j k)

abbrev IsCandidate : Dict String SessionEntry → Option (String × SessionEntry) → Type 0
IsCandidate d none = Unit {0}
IsCandidate d (some (k, s)) = (lookup k d ≡ some s) × (is_closed s ≡ true)

lookup-here :
    (k : String) (s : SessionEntry) (d : Dict String SessionEntry) → lookup k ((k, s) ∷ d) ≡ some s
unfolding lookup
lookup-here k s d = ground (arith, eq_iff k k)

lookup-there :
    (k j : String) (s t : SessionEntry) (d : Dict String SessionEntry)
    → lookup k d ≡ none
    → lookup j d ≡ some t
    → lookup j ((k, s) ∷ d) ≡ some t
unfolding lookup
lookup-there k j s t d h e = ground (arith, eq_iff k j)

abbrev IsWithin : Dict String SessionEntry → Dict String SessionEntry → Type 0
IsWithin d all = (k : String) (s : SessionEntry) → lookup k d ≡ some s → lookup k all ≡ some s

-- The session that the loop picks is in the record, and closed.
oldest_from_lem :
    (best : Option (String × SessionEntry)) (d all : Dict String SessionEntry)
    → UniqueKeys d
    → IsCandidate all best
    → IsWithin d all
    → IsCandidate all (oldest_from best d)
unfolding oldest_from
oldest_from_lem best [] all u b sub = b
oldest_from_lem none ((k, s) ∷ d) all u b sub =
    let rest : IsWithin d all = λ j t e. sub j t (lookup-there k j s t d u.0 e) in
    elim (Bool-cases (is_closed s)) [
      | inl c ↦ rw c (oldest_from_lem (some (k, s)) d all u.1 (sub k s (lookup-here k s d), c) rest)
      | inr o ↦ rw o (oldest_from_lem none d all u.1 tt rest)
    ]
oldest_from_lem (some (j, t)) ((k, s) ∷ d) all u b sub =
    let rest : IsWithin d all = λ i r e. sub i r (lookup-there k i s r d u.0 e) in
    elim (Bool-cases (is_closed s && ltb_ℤ s.index_info.closed t.index_info.closed)) [
      | inl c ↦
          rw c (
            oldest_from_lem (some (k, s)) d all u.1 (sub k s (lookup-here k s d), ground arith)
              rest)
      | inr o ↦ rw o (oldest_from_lem (some (j, t)) d all u.1 b rest)
    ]

-- If it picks none, every session is open.
oldest_from-none :
    (best : Option (String × SessionEntry)) (d : Dict String SessionEntry)
    → oldest_from best d ≡ none
    → (best ≡ none) × (length (open_sessions d) ≡ length d)
unfolding oldest_from
oldest_from-none best [] h = (h, refl)
oldest_from-none none ((k, s) ∷ d) h = elim (Bool-cases (is_closed s)) [
  | inl c ↦ cc (oldest_from-none (some (k, s)) d (rw c at h)).0
  | inr o ↦ (refl, rw o (ap suc (oldest_from-none none d (rw o at h)).1))
]
oldest_from-none (some (j, t)) ((k, s) ∷ d) h =
    elim (Bool-cases (is_closed s && ltb_ℤ s.index_info.closed t.index_info.closed)) [
      | inl c ↦ cc (oldest_from-none (some (k, s)) d (rw c at h)).0
      | inr o ↦ cc (oldest_from-none (some (j, t)) d (rw o at h)).0
    ]

-- What cleaning keeps of `d`.
pub record Cleaned (d d' : Dict String SessionEntry) : Type 0 where
  pub bounded : length d' ≤ closed_sessions_max
  pub unique : UniqueKeys d'
  pub keeps_open : open_sessions d' ≡ open_sessions d

remove_old_round :
    (fuel : ℕ) (d : Dict String SessionEntry) (k : String) (s : SessionEntry)
    → ltb closed_sessions_max (length d) ≡ true
    → oldest_from none d ≡ some (k, s)
    → (k == "") ≡ false
    → remove_old (suc fuel) d ≡ remove_old fuel (delete k d)
unfolding remove_old
remove_old_round fuel d k s many picked named = ground arith

remove_old_few :
    (fuel : ℕ) (d : Dict String SessionEntry)
    → ltb closed_sessions_max (length d) ≡ false
    → remove_old (suc fuel) d ≡ ok d
unfolding remove_old
remove_old_few fuel d few = ground arith

remove_old_lem :
    (fuel : ℕ) (d : Dict String SessionEntry)
    → length d ≤ fuel
    → UniqueKeys d
    → length (open_sessions d) ≤ closed_sessions_max
    → lookup "" d ≡ none
    → (d' : Dict String SessionEntry) × (remove_old fuel d ≡ ok d') × Cleaned d d'
unfolding remove_old
remove_old_lem zero d h u c n =
    (d, refl, record { bounded = omega arith; unique = u; keeps_open = refl })
remove_old_lem (suc fuel) d h u c n = elim (Bool-cases (ltb closed_sessions_max (length d))) [
  | inr few ↦ (
    d,
    remove_old_few fuel d few,
    record { bounded = ground arith; unique = u; keeps_open = refl },
  )
  | inl many ↦ elim (Option-cases (oldest_from none d)) [
    | inl stuck ↦
        let all : length (open_sessions d) ≡ length d = (oldest_from-none none d stuck).1 in
        absurd (ground arith)
    | inr ((k, s), picked) ↦
        let (found, closed) : IsCandidate d (some (k, s)) =
          rw picked at (oldest_from_lem none d d u tt (λ j t e. e)) in
        let same : open_sessions (delete k d) ≡ open_sessions d =
          open_sessions-delete k s d u found closed in
        let other : ("" == k) ≡ false = ==-lookup "" k s d n found in
        let named : (k == "") ≡ false = ground (arith, other, eq_iff k "", eq_iff "" k) in
        let unnamed : lookup "" (delete k d) ≡ none = ground (arith, lookup-delete k "" d, n) in
        let (d', run, clean) =
          remove_old_lem fuel (delete k d) (omega (arith, length-delete-lt k d s found))
            (delete-UniqueKeys k d u) (rw same c) unnamed in
        (
          d',
          remove_old_round fuel d k s many picked named ∙ run,
          record {
            bounded = clean.bounded;
            unique = clean.unique;
            keeps_open = clean.keeps_open ∙ same;
          },
        )
  ]
]

-- On a record whose keys are distinct and none of them empty, and that has at most 40 open sessions, the
-- cleaning succeeds.
-- It leaves 40 sessions at most under distinct keys, and the open sessions are still there, under
-- their keys and in their order.
pub remove_old_sessions_lem :
    (r : SessionRecord)
    → UniqueKeys r.sessions
    → length (open_sessions r.sessions) ≤ closed_sessions_max
    → lookup "" r.sessions ≡ none
    → (r' : SessionRecord) × (remove_old_sessions r ≡ ok r') × Cleaned r.sessions r'.sessions
unfolding remove_old_sessions
remove_old_sessions_lem r u c n =
    let (d', run, clean) = remove_old_lem (length r.sessions) r.sessions (omega arith) u c n in
    (record { sessions = d' }, rw (run, remove_old_sessions), clean)
