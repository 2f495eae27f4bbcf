-- ===== src/Session/Record.antt =====
-- `SessionRecord` of src/session-record.ts: the sessions with one device, keyed by the base64 of their
-- base keys. `Date.now()` is the argument `now`.
pub mod Limits
pub mod Stale
use libsignal_node.Common.{
  ℕ, zero, suc, ◌+◌, ◌-◌, ◌≡◌, Bytes, List, [], ◌∷◌, map, string_eq, Option, none, some, Bool, true,
  false, not, ◌&&◌, String, Dict, lookup, put, delete, length, ltb, leb, ◌==◌, nat_eq, int_eq,
  if◌then◌else◌, ℤ, pos, minus_one, ltb_ℤ, Result, ok, err, plain_error, any,
}
use libsignal_node.Platform.{Platform}
use libsignal_node.Session.Entry.{SessionEntry, IndexInfo, BaseKeyType}

pub record SessionRecord : Type 0 where
  pub sessions : Dict String SessionEntry

abbrev pub closed_sessions_max : ℕ
closed_sessions_max = 40

abbrev pub empty_record : SessionRecord
empty_record = record { sessions = [] }

-- `isClosed`
unfoldable pub is_closed : SessionEntry → Bool
is_closed s = not (s.index_info.closed == minus_one)

unfoldable pub first_open : Dict String SessionEntry → Option SessionEntry
unfolding is_closed
first_open [] = none
first_open ((key, s) ∷ sessions) = if is_closed s then first_open sessions else some s

unfoldable pub get_open_session : SessionRecord → Option SessionEntry
get_open_session r = first_open r.sessions

unfoldable pub have_open_session : SessionRecord → Bool
have_open_session r = elim (get_open_session r) [
  | none ↦ false
  | some s ↦ elim s.registration_id [ none ↦ false | some _ ↦ true ]
]

-- `closeSession` and `openSession` on the session object.
unfoldable pub close_session : ℕ → SessionEntry → SessionEntry
unfolding is_closed
close_session now s =
    if is_closed s then s else record s { index_info = record s.index_info { closed = pos now } }

unfoldable pub open_session : SessionEntry → SessionEntry
open_session s = record s { index_info = record s.index_info { closed = minus_one } }

-- `closeSession(getOpenSession())`: the object that the record holds is closed in its place.
unfoldable pub close_first_open : ℕ → Dict String SessionEntry → Dict String SessionEntry
unfolding is_closed close_session
close_first_open now [] = []
close_first_open now ((key, s) ∷ sessions) =
    if is_closed s
    then (key, s) ∷ close_first_open now sessions
    else (key, close_session now s) ∷ sessions

-- What an update of the object `getOpenSession()` does to the record that holds it.
unfoldable pub replace_first_open :
    SessionEntry → Dict String SessionEntry → Dict String SessionEntry
unfolding is_closed
replace_first_open s' [] = []
replace_first_open s' ((key, s) ∷ sessions) =
    if is_closed s then (key, s) ∷ replace_first_open s' sessions else (key, s') ∷ sessions

unfoldable pub replace_open : SessionEntry → SessionRecord → SessionRecord
unfolding replace_first_open
replace_open s' r = record { sessions = replace_first_open s' r.sessions }

-- The stable sort of `getSessions`: most recently used first.
unfoldable pub insert_by_used : SessionEntry → List SessionEntry → List SessionEntry
insert_by_used s [] = s ∷ []
insert_by_used s (t ∷ ts) =
    if ltb t.index_info.used s.index_info.used then s ∷ t ∷ ts else t ∷ insert_by_used s ts

unfoldable pub sort_from : List SessionEntry → List SessionEntry → List SessionEntry
sort_from sorted [] = sorted
sort_from sorted (s ∷ rest) = sort_from (insert_by_used s sorted) rest

unfoldable pub get_sessions : SessionRecord → List SessionEntry
get_sessions r = sort_from [] (map (λ e. e.1) r.sessions)

-- The `for` loop of `removeOldSessions`: the closed session with the least `closed`, the first of them.
unfoldable pub oldest_from :
    Option (String × SessionEntry) → Dict String SessionEntry → Option (String × SessionEntry)
unfolding is_closed
oldest_from best [] = best
oldest_from none ((key, s) ∷ rest) = oldest_from (if is_closed s then some (key, s) else none) rest
oldest_from (some (k, b)) ((key, s) ∷ rest) =
    oldest_from
      (if is_closed s && ltb_ℤ s.index_info.closed b.index_info.closed
        then some (key, s)
        else some (k, b))
      rest

-- The `while` loop; `if (oldestKey)` refuses the empty key. It has as many rounds as there are sessions.
unfoldable pub remove_old : ℕ → Dict String SessionEntry → Result (Dict String SessionEntry)
remove_old zero sessions = ok sessions
remove_old (suc fuel) sessions = elim (ltb closed_sessions_max (length sessions)) [
  | false ↦ ok sessions
  | true ↦ elim (oldest_from none sessions) [
    | none ↦ err (plain_error "Corrupt sessions object")
    | some (key, s) ↦
        let rest = remove_old fuel (delete key sessions) in
        if key == "" then err (plain_error "Corrupt sessions object") else rest
  ]
]

unfoldable pub remove_old_sessions : SessionRecord → Result SessionRecord
remove_old_sessions r = elim (remove_old (length r.sessions) r.sessions) [
  | err e ↦ err e
  | ok sessions ↦ ok (record { sessions = sessions })
]

-- `used || created || 0`
unfoldable pub last_used : SessionEntry → ℕ
last_used s = if s.index_info.used == 0 then s.index_info.created else s.index_info.used

-- The loop of `removeStaleSessions`; `lastUsed < now - maxAge`, with a cutoff that may be negative.
unfoldable pub remove_stale : ℕ → ℕ → Dict String SessionEntry → Dict String SessionEntry
unfolding is_closed last_used
remove_stale now max_age [] = []
remove_stale now max_age ((key, s) ∷ rest) =
    let kept = remove_stale now max_age rest in
    if is_closed s && ltb (last_used s + max_age) now then kept else (key, s) ∷ kept

unfoldable pub remove_stale_sessions : ℕ → ℕ → SessionRecord → SessionRecord
remove_stale_sessions now max_age r = record { sessions = remove_stale now max_age r.sessions }

unfoldable pub delete_all_sessions : SessionRecord → SessionRecord
delete_all_sessions r = record { sessions = [] }

module _ (p : Platform) where
  unfoldable pub get_session : Bytes → SessionRecord → Result (Option SessionEntry)
  get_session key r = elim (lookup (p.to_base64 key) r.sessions) [
    | none ↦ ok none
    | some s ↦ elim s.index_info.base_key_type [
      | BaseKeyType.ours ↦ err (plain_error "Tried to lookup a session using our basekey")
      | BaseKeyType.theirs ↦ ok (some s)
    ]
  ]

  unfoldable pub set_session : SessionEntry → SessionRecord → SessionRecord
  set_session s r = record { sessions = put (p.to_base64 s.index_info.base_key) s r.sessions }
