-- ===== src/Session/Record/Stale.antt =====
-- What `removeStaleSessions` leaves: the open sessions, and the closed ones that were used lately.
use libsignal_node.Common.{
  ℕ, ◌+◌, ◌≤◌, ◌<◌, ◌≡◌, ◌≢◌, refl, arith, [], ◌∷◌, Option, none, some, true, false, String, Dict,
  lookup, ltb, ◌&&◌, ◌⊎◌, inl, inr, Bool-cases, ◌==◌, nat_eq, string_eq,
}
use mathlib.Core.Path.{subst}
use text.Mathlib.TextEquality.{eq_iff}
use libsignal_node.Session.Entry.{SessionEntry}
use libsignal_node.Session.Record.{
  SessionRecord, is_closed, last_used, remove_stale, remove_stale_sessions,
}
use libsignal_node.Session.Record.Limits.{open_sessions, UniqueKeys}

-- The last use of a session, or, if it was never used, its creation, was at `time`.
abbrev pub LastAt : SessionEntry → ℕ → Type 0
LastAt s time =
    ((s.index_info.used ≢ 0) × (s.index_info.used ≡ time))
    ⊎ ((s.index_info.used ≡ 0) × (s.index_info.created ≡ time))

abbrev pub IsFresh : ℕ → ℕ → SessionEntry → Type 0
IsFresh now max_age s =
    (is_closed s ≡ false) ⊎ ((time : ℕ) × LastAt s time × (now ≤ time + max_age))

abbrev pub IsStale : ℕ → ℕ → SessionEntry → Type 0
IsStale now max_age s = (is_closed s ≡ true) × (time : ℕ) × LastAt s time × (time + max_age < now)

-- What becomes of the session under a key.
abbrev pub Remains : ℕ → ℕ → Option SessionEntry → Option SessionEntry → Type 0
Remains now max_age none after = (after ≡ none)
Remains now max_age (some s) after =
    (IsFresh now max_age s × (after ≡ some s)) ⊎ (IsStale now max_age s × (after ≡ none))

last_used-LastAt : (s : SessionEntry) → LastAt s (last_used s)
unfolding last_used
last_used-LastAt s = elim (Bool-cases (s.index_info.used == 0)) [
  | inl never ↦ inr (ground arith, ground arith)
  | inr once ↦ inl (λ e. ground arith, ground arith)
]

remove_stale-absent :
    (now max_age : ℕ) (key : String) (d : Dict String SessionEntry)
    → lookup key d ≡ none
    → lookup key (remove_stale now max_age d) ≡ none
unfolding remove_stale lookup
remove_stale-absent now max_age key [] h = refl
remove_stale-absent now max_age key ((k, s) ∷ d) h =
    ground (arith, remove_stale-absent now max_age key d)

remove_stale-here :
    (now max_age : ℕ) (key : String) (s : SessionEntry) (d : Dict String SessionEntry)
    → lookup key d ≡ none
    → (k : String) → (k == key) ≡ true
    → Remains now max_age (some s) (lookup key (remove_stale now max_age ((k, s) ∷ d)))
unfolding remove_stale lookup
remove_stale-here now max_age key s d h k same =
    elim (Bool-cases (is_closed s && ltb (last_used s + max_age) now)) [
      | inl stale ↦ inr (
        (ground arith, last_used s, last_used-LastAt s, ground arith),
        rw (remove_stale, stale) (remove_stale-absent now max_age key d h),
      )
      | inr kept ↦ elim (Bool-cases (is_closed s)) [
        | inl closed ↦ inl (
          inr (last_used s, last_used-LastAt s, ground arith),
          rw (remove_stale, kept, lookup, same) refl,
        )
        | inr open_ ↦ inl (inl open_, rw (remove_stale, kept, lookup, same) refl)
      ]
    ]

remove_stale-there :
    (now max_age : ℕ) (key k : String) (s : SessionEntry) (d : Dict String SessionEntry)
    → (k == key) ≡ false
    → lookup key (remove_stale now max_age ((k, s) ∷ d)) ≡ lookup key (remove_stale now max_age d)
unfolding remove_stale lookup
remove_stale-there now max_age key k s d other = ground arith

Remains-remove_stale :
    (now max_age : ℕ) (key : String) (d : Dict String SessionEntry)
    → UniqueKeys d
    → Remains now max_age (lookup key d) (lookup key (remove_stale now max_age d))
unfolding remove_stale lookup
Remains-remove_stale now max_age key [] u = refl
Remains-remove_stale now max_age key ((k, s) ∷ d) u = elim (Bool-cases (k == key)) [
  | inl same ↦
      rw (lookup, same)
        (remove_stale-here now max_age key s d
          (subst (λ x. lookup x d ≡ none) ((eq_iff k key).0 same) u.0) k same)
  | inr other ↦
      rw (lookup, other, remove_stale-there now max_age key k s d other)
        (Remains-remove_stale now max_age key d u.1)
]

open_sessions-remove_stale :
    (now max_age : ℕ) (d : Dict String SessionEntry)
    → open_sessions (remove_stale now max_age d) ≡ open_sessions d
unfolding remove_stale
open_sessions-remove_stale now max_age [] = refl
open_sessions-remove_stale now max_age ((key, s) ∷ d) =
    ground (arith, open_sessions-remove_stale now max_age d)

-- On a record whose keys are distinct, `removeStaleSessions` keeps under each key the session that was
-- there if it is open, or was used last at most `maxAgeMs` ago, or, if it was never used, made at most
-- `maxAgeMs` ago; any other session goes. The open sessions keep their order.
pub remove_stale_sessions-Remains :
    (now max_age : ℕ) (r : SessionRecord) (key : String)
    → UniqueKeys r.sessions
    → Remains now max_age
        (lookup key r.sessions)
        (lookup key (remove_stale_sessions now max_age r).sessions)
      × (open_sessions (remove_stale_sessions now max_age r).sessions ≡ open_sessions r.sessions)
unfolding remove_stale_sessions
remove_stale_sessions-Remains now max_age r key u = (
  Remains-remove_stale now max_age key r.sessions u,
  open_sessions-remove_stale now max_age r.sessions,
)
