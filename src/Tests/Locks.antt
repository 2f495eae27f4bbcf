-- ===== src/Tests/Locks.antt =====
-- The lock file with processes that hold it, fail and die.
use libsignal_node.Common.{◌≡◌, refl, arith, some, true, false}
use libsignal_node.Storage.File.Locking.{
  FileLockMetadata, LockFile, trying, dead, holding, System, Setting, Reach, start, later, lock_of,
  write_lock, create, write, empty_lock, writing, move, init, set_at,
}
use libsignal_node.Storage.File.Locking.Overlap.{fail-overlap, check_stale-overlap}

abbrev setting : Setting
setting = record { host = "host"; stale_lock = 600000; started_at = λ i. 5 }

-- Process 2 has the lock.
abbrev held : System
held = move (init 9) (some (lock_of setting (init 9) 2 "t" 9)) 2 (holding "t")

held_by_2 : held.pc 2 ≡ holding "t"
unfolding set_at
held_by_2 = refl

held_trying_0 : held.pc 0 ≡ trying
unfolding set_at
held_trying_0 = refl

held_trying_1 : held.pc 1 ≡ trying
unfolding set_at
held_trying_1 = refl

fail-overlap_example :
    (s : System) × Reach setting false held s × (s.pc 2 ≡ holding "t") × (s.pc 0 ≡ holding "u")
fail-overlap_example =
    fail-overlap setting held 2 0 1 "t" "u" (omega arith) (omega arith) (omega arith) held_by_2
      held_trying_0 held_trying_1 (omega arith)

abbrev metadata_of_3 : FileLockMetadata
metadata_of_3 = record { token = "t"; pid = 4; hostname = "host"; created_at = 9 }

abbrev lock_of_3 : LockFile
lock_of_3 = record { created_by = 3; metadata = some metadata_of_3; modified = 9 }

-- Process 3 has died with the lock.
abbrev left : System
left = record { lock = some lock_of_3; pc = set_at (λ _. trying) 3 dead; now = 20 }

left_dead : left.pc 3 ≡ dead
unfolding set_at
left_dead = refl

left_trying_0 : left.pc 0 ≡ trying
unfolding set_at
left_trying_0 = refl

left_trying_1 : left.pc 1 ≡ trying
unfolding set_at
left_trying_1 = refl

check_stale-overlap_example :
    (s : System) × Reach setting true left s × (s.pc 0 ≡ holding "u") × (s.pc 1 ≡ holding "v")
check_stale-overlap_example =
    check_stale-overlap setting left 0 1 3 lock_of_3 metadata_of_3 "u" "v" (omega arith) refl refl
      refl refl left_dead left_trying_0 left_trying_1 (omega arith) (omega arith)

-- Process 2 comes to hold the lock by two steps.
held_reached : Reach setting true (init 9) (
    move
      (move (init 9) (some (empty_lock (init 9) 2)) 2 (writing "t" 9))
      (some (lock_of setting (init 9) 2 "t" 9))
      2
      (holding "t"))
unfolding set_at write_lock
held_reached = later (later start (create 2 "t" refl refl (omega arith))) (write 2 "t" 9 refl)
