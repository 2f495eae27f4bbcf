-- ===== src/Storage/File/Locking.antt =====
-- The lock file of src/file-storage.ts: `isLockStale`, `acquireFileLock` and `releaseFileLock`, and
-- processes on one host that call them, interleaved in any order. Each call of `fs` on the lock file is
-- one step, and `writeFileSync` with the flag "wx" is two: the file is created, and then written.
pub mod Overlap
use libsignal_node.Common.{
  ℕ, suc, ◌+◌, ◌-◌, ◌≤◌, ◌≡◌, ◌≢◌, Option, none, some, Bool, true, false, not, ◌&&◌, String, ltb,
  ◌==◌, nat_eq, string_eq, if◌then◌else◌,
}

pub record FileLockMetadata : Type 0 where
  pub token : String
  pub pid : ℕ
  pub hostname : String
  pub created_at : ℕ

-- A lock file, with its text if it can be parsed, its time of modification, and the process that created
-- it: a process that writes to a file that has been removed does not write to the one in its place.
pub record LockFile : Type 0 where
  pub created_by : ℕ
  pub metadata : Option FileLockMetadata
  pub modified : ℕ

-- What a process knows when it looks at the lock; `kill` tells which processes there are.
pub record Observer : Type 0 where
  pub hostname : String
  pub pid : ℕ
  pub started_at : ℕ
  pub now : ℕ
  pub kill : ℕ → Bool

unfoldable pub is_process_alive : Observer → ℕ → Bool
is_process_alive o pid = not (pid == 0) && o.kill pid

-- `isLockStale` after `readLockMetadata`: `none` goes on to the time of modification.
unfoldable pub owner_stale : Observer → Option LockFile → Option Bool
unfolding is_process_alive
owner_stale o none = none
owner_stale o (some l) = elim l.metadata [
  | none ↦ none
  | some m ↦
      if m.hostname == o.hostname
      then some (
          if m.pid == o.pid && ltb (m.created_at + 1000) o.started_at
          then true
          else not (is_process_alive o m.pid))
      else none
]

-- `Date.now() - fs.statSync(lockPath).mtimeMs > staleLockMs`
unfoldable pub is_old : Observer → ℕ → Option LockFile → Bool
is_old o stale_lock none = false
is_old o stale_lock (some l) = ltb (l.modified + stale_lock) o.now

-- The test of `releaseFileLock`.
unfoldable pub may_release : String → Option LockFile → Bool
may_release token none = true
may_release token (some l) = elim l.metadata [ none ↦ true | some m ↦ m.token == token ]

-- Where a process is: outside `acquireFileLock` or at the top of its loop; between the creation of the
-- file and its writing, with the token and `createdAt`; before the `rmSync` of the `catch`; before
-- `isLockStale`; before the `statSync` in it; before the `rmSync` that follows it; before the test of the
-- deadline; with a token; before the `rmSync` of `releaseFileLock`; thrown; dead.
pub data Pc : Type 0 where
  trying failed blocked statting removing waiting releasing refused dead : Pc
  writing : String → ℕ → Pc
  holding : String → Pc

-- Process `i` has the pid `i + 1`.
pub record System : Type 0 where
  pub lock : Option LockFile
  pub pc : ℕ → Pc
  pub now : ℕ

unfoldable pub set_at : (ℕ → Pc) → ℕ → Pc → ℕ → Pc
set_at f i a j = if j == i then a else f j

abbrev pub is_dead : Pc → Bool
is_dead dead = true
is_dead _ = false

-- The host's name, the limit for a stale lock, and when each process started.
pub record Setting : Type 0 where
  pub host : String
  pub stale_lock : ℕ
  pub started_at : ℕ → ℕ

abbrev pid_index : ℕ → ℕ
pid_index pid = pid - 1

abbrev pub observer : Setting → System → ℕ → Observer
observer c s i = record {
  hostname = c.host;
  pid = suc i;
  started_at = c.started_at i;
  now = s.now;
  kill = λ pid. not (is_dead (s.pc (pid_index pid)));
}

-- A file that was just created.
abbrev pub empty_lock : System → ℕ → LockFile
empty_lock s i = record { created_by = i; metadata = none; modified = s.now }

abbrev pub lock_of : Setting → System → ℕ → String → ℕ → LockFile
lock_of c s i token created_at = record {
  created_by = i;
  metadata =
      some (record { token = token; pid = suc i; hostname = c.host; created_at = created_at });
  modified = s.now;
}

-- The lock file after process `i` has written to the one that it created.
unfoldable pub write_lock : Setting → System → ℕ → String → ℕ → Option LockFile
write_lock c s i token created_at = elim s.lock [
  | none ↦ none
  | some l ↦ if l.created_by == i then some (lock_of c s i token created_at) else some l
]

abbrev pub move : System → Option LockFile → ℕ → Pc → System
move s lock i a = record s { lock = lock; pc = set_at s.pc i a }

-- One step. `writeFileSync` ends by `write`, `exists`, `fail_create` or `fail_write`; after an error other
-- than EEXIST the lock file is removed, by `clean_up`. In a calm run no write fails and no process dies.
pub data Step (c : Setting) (calm : Bool) (s : System) : System → Type 0 where
  tick : Step c calm s (record s { now = s.now + 1 })
  create :
      (i : ℕ) (token : String)
      → s.pc i ≡ trying
      → s.lock ≡ none
      → c.started_at i ≤ s.now
      → Step c calm s (move s (some (empty_lock s i)) i (writing token s.now))
  write :
      (i : ℕ) (token : String) (created_at : ℕ)
      → s.pc i ≡ writing token created_at
      → Step c calm s (move s (write_lock c s i token created_at) i (holding token))
  exists :
      (i : ℕ) (l : LockFile)
      → s.pc i ≡ trying
      → s.lock ≡ some l
      → Step c calm s (move s s.lock i blocked)
  fail_create : (i : ℕ) → calm ≡ false → s.pc i ≡ trying → Step c calm s (move s s.lock i failed)
  fail_write :
      (i : ℕ) (token : String) (created_at : ℕ)
      → calm ≡ false
      → s.pc i ≡ writing token created_at
      → Step c calm s (move s s.lock i failed)
  clean_up : (i : ℕ) → s.pc i ≡ failed → Step c calm s (move s none i refused)
  read_stale :
      (i : ℕ)
      → s.pc i ≡ blocked
      → owner_stale (observer c s i) s.lock ≡ some true
      → Step c calm s (move s s.lock i removing)
  read_fresh :
      (i : ℕ)
      → s.pc i ≡ blocked
      → owner_stale (observer c s i) s.lock ≡ some false
      → Step c calm s (move s s.lock i waiting)
  read_unknown :
      (i : ℕ)
      → s.pc i ≡ blocked
      → owner_stale (observer c s i) s.lock ≡ none
      → Step c calm s (move s s.lock i statting)
  stat_old :
      (i : ℕ)
      → s.pc i ≡ statting
      → is_old (observer c s i) c.stale_lock s.lock ≡ true
      → Step c calm s (move s s.lock i removing)
  stat_fresh :
      (i : ℕ)
      → s.pc i ≡ statting
      → is_old (observer c s i) c.stale_lock s.lock ≡ false
      → Step c calm s (move s s.lock i waiting)
  remove : (i : ℕ) → s.pc i ≡ removing → Step c calm s (move s none i trying)
  retry : (i : ℕ) → s.pc i ≡ waiting → Step c calm s (move s s.lock i trying)
  time_out : (i : ℕ) → s.pc i ≡ waiting → Step c calm s (move s s.lock i refused)
  read_own :
      (i : ℕ) (token : String)
      → s.pc i ≡ holding token
      → may_release token s.lock ≡ true
      → Step c calm s (move s s.lock i releasing)
  read_other :
      (i : ℕ) (token : String)
      → s.pc i ≡ holding token
      → may_release token s.lock ≡ false
      → Step c calm s (move s s.lock i trying)
  release : (i : ℕ) → s.pc i ≡ releasing → Step c calm s (move s none i trying)
  again : (i : ℕ) → s.pc i ≡ refused → Step c calm s (move s s.lock i trying)
  die : (i : ℕ) → calm ≡ false → Step c calm s (move s s.lock i dead)

abbrev pub init : ℕ → System
init now = record { lock = none; pc = λ _. trying; now = now }

pub data Reach (c : Setting) (calm : Bool) : System → System → Type 0 where
  start : {s : System} → Reach c calm s s
  later : {s t u : System} → Reach c calm s t → Step c calm t u → Reach c calm s u
