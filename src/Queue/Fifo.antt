-- ===== src/Queue/Fifo.antt =====
-- The buckets of src/queue-job.ts are first-in first-out queues.
use mathlib.Core.List.{append_assoc, append-nil}
use libsignal_node.Common.{
  ℕ, ◌+◌, ◌≤◌, ◌<◌, ◌≡◌, refl, sym, ap, ◌∙◌, List, [], ◌∷◌, ◌++◌, Option, none, some, arith, length,
  length-append, length-drop, drop, drop-eq-cons, drop_append_le, drop_all, get_elem?, ◌⊎◌, inl,
  inr,
}
use libsignal_node.Queue.{Active, Bucket, idle, active, queue_job, settle, running}

-- The jobs that have not been settled, the running one first.
abbrev pub pending : Bucket → List ℕ
pending idle = []
pending (active a) = drop a.index a.queue

abbrev pub IsSound : Bucket → Type 0
IsSound idle = Unit
IsSound (active a) = (a.index < a.limit) × (a.limit ≤ length a.queue)

queue_job-IsSound : (job : ℕ) (b : Bucket) → IsSound b → IsSound (queue_job job b)
unfolding queue_job
queue_job-IsSound job idle s = omega arith
queue_job-IsSound job (active a) s = omega (arith, length-append a.queue (job ∷ []))

pub pending-queue_job :
    (job : ℕ) (b : Bucket) → IsSound b → pending (queue_job job b) ≡ pending b ++ job ∷ []
unfolding queue_job
pending-queue_job job idle s = refl
pending-queue_job job (active a) s = drop_append_le a.index a.queue (job ∷ []) (omega arith)

settle-IsSound : (a : Active) → IsSound (active a) → IsSound (settle a)
unfolding settle
settle-IsSound a s = ground (arith, length-drop a.limit a.queue)

pending-settle : (a : Active) → IsSound (active a) → pending (settle a) ≡ drop (a.index + 1) a.queue
unfolding settle
pending-settle a s = ground (arith, drop_all (a.index + 1) a.queue)

-- What happens to a bucket: a job is queued, or the running job settles (with nothing running, that
-- is no event).
pub data Event : Type 0 where
  queued : ℕ → Event
  settled : Event

abbrev pub put_first : Option ℕ → List ℕ → List ℕ
put_first none done = done
put_first (some job) done = job ∷ done

-- The jobs that a history settles, in order, and the bucket after it.
pub run : Bucket → List Event → List ℕ × Bucket
run b [] = ([], b)
run b (queued job ∷ events) = run (queue_job job b) events
run idle (settled ∷ events) = run idle events
run (active a) (settled ∷ events) =
    let (done, b) = run (settle a) events in (put_first (get_elem? a.queue a.index) done, b)

abbrev pub jobs : List Event → List ℕ
jobs [] = []
jobs (queued job ∷ events) = job ∷ jobs events
jobs (settled ∷ events) = jobs events

-- From any sound bucket, whatever the interleaving of `queueJob` calls and settled jobs: the jobs that
-- have run, followed by those still waiting, are the jobs that waited at the start followed by those
-- that were queued, in that order. So jobs run in the order they were queued, each once, none lost.
pub run_fifo :
    (b : Bucket) (events : List Event)
    → IsSound b
    → (run b events).0 ++ pending (run b events).1 ≡ pending b ++ jobs events
unfolding run
run_fifo b [] s = sym (append-nil (pending b))
run_fifo b (queued job ∷ events) s =
    run_fifo (queue_job job b) events (queue_job-IsSound job b s)
    ∙ ap (λ xs. xs ++ jobs events) (pending-queue_job job b s)
    ∙ append_assoc (pending b) (job ∷ []) (jobs events)
run_fifo idle (settled ∷ events) s = run_fifo idle events s
run_fifo (active a) (settled ∷ events) s =
    let (job, found, split) = drop-eq-cons a.index a.queue (omega arith) in
    rw (found, split)
      (ap (◌∷◌ job) (
        run_fifo (settle a) events (settle-IsSound a s)
        ∙ ap (λ xs. xs ++ jobs events) (pending-settle a s)))

-- A sound bucket is either idle, with no job waiting or running, or the job that is running is the
-- first of those not yet settled.
pub running-eq-pending :
    (b : Bucket)
    → IsSound b
    → ((b ≡ idle) × (pending b ≡ []) × (running b ≡ none))
      ⊎ ((job : ℕ) × (rest : List ℕ) × (pending b ≡ job ∷ rest) × (running b ≡ some job))
unfolding running
running-eq-pending idle s = inl (refl, refl, refl)
running-eq-pending (active a) s =
    let (job, found, split) = drop-eq-cons a.index a.queue (omega arith) in
    inr (job, drop (a.index + 1) a.queue, split, found)
