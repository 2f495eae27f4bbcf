-- ===== src/Storage/File/Locking/Overlap.antt =====
-- How two processes come to hold the lock of src/file-storage.ts at once.
use libsignal_node.Common.{
  if◌then◌else◌, ◌&&◌, string_eq, ◌-◌, ℕ, ◌+◌, ◌≤◌, ◌≡◌, ◌≢◌, refl, sym, ap, ◌∙◌, arith, none, some,
  Bool, true, false, String, ◌==◌, nat_eq,
}
use libsignal_node.Storage.File.Locking.{
  FileLockMetadata, LockFile, failed, dead, is_process_alive, Pc, trying, blocked, removing,
  refused, writing, holding, System, Setting, create, write, exists, fail_create, clean_up,
  read_stale, remove, Reach, start, later, observer, owner_stale, set_at, move, empty_lock,
  write_lock,
}

set_at_self : (f : ℕ → Pc) (i : ℕ) (a : Pc) → set_at f i a i ≡ a
unfolding set_at
set_at_self f i a = ground arith

set_at_other : (f : ℕ → Pc) (i j : ℕ) (a b : Pc) → i ≢ j → f j ≡ b → set_at f i a j ≡ b
unfolding set_at
set_at_other f i j a b h e = ground arith

-- A process that fails to write its lock, with any error but EEXIST, removes the lock of another: while
-- process `i` holds the lock, the failure of `k` lets `j` acquire it too.
pub fail-overlap :
    (c : Setting) (s : System) (i j k : ℕ) (token token' : String)
    → i ≢ j
    → i ≢ k
    → j ≢ k
    → s.pc i ≡ holding token
    → s.pc j ≡ trying
    → s.pc k ≡ trying
    → c.started_at j ≤ s.now
    → (s' : System) × Reach c false s s' × (s'.pc i ≡ holding token) × (s'.pc j ≡ holding token')
unfolding set_at
fail-overlap c s i j k token token' ij ik jk holds tries fails begun =
    let s1 = move s s.lock k failed in
    let s2 = move s1 none k refused in
    let s3 = move s2 (some (empty_lock s2 j)) j (writing token' s2.now) in
    let s4 = move s3 (write_lock c s3 j token' s2.now) j (holding token') in
    let r1 = later start (fail_create k refl fails) in
    let r2 = later r1 (clean_up k (set_at_self s.pc k failed)) in
    let r3 = later r2 (create j token' (ground arith) refl begun) in
    (
      s4,
      later r3 (write j token' s2.now (set_at_self s2.pc j (writing token' s2.now))),
      ground arith,
      set_at_self s3.pc j (holding token'),
    )

and_false : (b : Bool) → (b && false) ≡ false
and_false true = refl
and_false false = refl

if_true : (b : Bool) → (if b then true else true) ≡ true
if_true true = refl
if_true false = refl

-- A lock that a dead process left is stale to every process.
dead-owner_stale :
    (c : Setting) (s : System) (i d : ℕ) (l : LockFile) (m : FileLockMetadata)
    → s.lock ≡ some l
    → l.metadata ≡ some m
    → m.pid ≡ d + 1
    → m.hostname ≡ c.host
    → s.pc d ≡ dead
    → owner_stale (observer c s i) s.lock ≡ some true
unfolding owner_stale is_process_alive
dead-owner_stale c s i d l m a b e f g =
    let there : m.pid - 1 ≡ d = omega arith in
    let gone : is_process_alive (observer c s i) m.pid ≡ false = rw (there, g) (and_false _) in
    let same : (m.hostname == c.host) ≡ true = (string_eq.same_iff m.hostname c.host).1 f in
    rw (a, owner_stale, b, same, gone) (ap some (if_true _))

-- After a process that held the lock has died, two others can both come to hold it: the second removes the
-- file that the first one wrote, since nothing checks it between `isLockStale` and `rmSync`.
pub check_stale-overlap :
    (c : Setting) (s : System) (i j d : ℕ) (l : LockFile) (m : FileLockMetadata)
    (token token' : String)
    → i ≢ j
    → s.lock ≡ some l
    → l.metadata ≡ some m
    → m.pid ≡ d + 1
    → m.hostname ≡ c.host
    → s.pc d ≡ dead
    → s.pc i ≡ trying
    → s.pc j ≡ trying
    → c.started_at i ≤ s.now
    → c.started_at j ≤ s.now
    → (s' : System) × Reach c true s s' × (s'.pc i ≡ holding token) × (s'.pc j ≡ holding token')
check_stale-overlap c s i j d l m token token' ij a b e f g ti tj bi bj =
    let ji : j ≢ i = λ x. ij (sym x) in
    let di : i ≢ d = λ x. let no : trying ≡ dead = sym ti ∙ (ap s.pc x ∙ g) in cc in
    let dj : j ≢ d = λ x. let no : trying ≡ dead = sym tj ∙ (ap s.pc x ∙ g) in cc in
    let s1 = move s s.lock i blocked in
    let s2 = move s1 s1.lock j blocked in
    let s3 = move s2 s2.lock i removing in
    let s4 = move s3 s3.lock j removing in
    let s5 = move s4 none i trying in
    let s6 = move s5 (some (empty_lock s5 i)) i (writing token s5.now) in
    let s7 = move s6 (write_lock c s6 i token s5.now) i (holding token) in
    let s8 = move s7 none j trying in
    let s9 = move s8 (some (empty_lock s8 j)) j (writing token' s8.now) in
    let s10 = move s9 (write_lock c s9 j token' s8.now) j (holding token') in
    let d2 = set_at_other s1.pc j d blocked dead dj (set_at_other s.pc i d blocked dead di g) in
    let r1 = later start (exists i l ti a) in
    let r2 = later r1 (exists j l (set_at_other s.pc i j blocked trying ij tj) a) in
    let r3 = later r2 (
      read_stale i (set_at_other s1.pc j i blocked blocked ji (set_at_self s.pc i blocked))
        (dead-owner_stale c s2 i d l m a b e f d2)) in
    let r4 = later r3 (
      read_stale j (set_at_other s2.pc i j removing blocked ij (set_at_self s1.pc j blocked))
        (dead-owner_stale c s3 j d l m a b e f (set_at_other s2.pc i d removing dead di d2))) in
    let r5 =
      later r4
        (remove i (set_at_other s3.pc j i removing removing ji (set_at_self s2.pc i removing))) in
    let r6 = later r5 (create i token (set_at_self s4.pc i trying) refl bi) in
    let r7 = later r6 (write i token s5.now (set_at_self s5.pc i (writing token s5.now))) in
    let r8 = later r7 (
      remove j (
        set_at_other s6.pc i j (holding token) removing ij (
          set_at_other s5.pc i j (writing token s5.now) removing ij
            (set_at_other s4.pc i j trying removing ij (set_at_self s3.pc j removing))))) in
    let r9 = later r8 (create j token' (set_at_self s7.pc j trying) refl bj) in
    let r10 = later r9 (write j token' s8.now (set_at_self s8.pc j (writing token' s8.now))) in
    (
      s10,
      r10,
      set_at_other s9.pc j i (holding token') (holding token) ji (
          set_at_other s8.pc j i (writing token' s8.now) (holding token) ji (
            set_at_other s7.pc j i trying (holding token) ji
              (set_at_self s6.pc i (holding token)))),
      set_at_self s9.pc j (holding token'),
    )
