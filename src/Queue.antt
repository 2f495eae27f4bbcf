-- ===== src/Queue.antt =====
-- src/queue-job.ts: jobs of one bucket run one at a time, in the order in which they were queued. The
-- executor awaits each job; between two awaits other code may queue more, which the steps below choose.
pub mod Fifo
use libsignal_node.Common.{
  ℕ, zero, suc, ◌+◌, ◌-◌, ◌≡◌, List, [], ◌∷◌, ◌++◌, Option, none, some, Bool, true, false, length,
  take, drop, ltb, min, get_elem?, if◌then◌else◌,
}

abbrev pub gc_limit : ℕ
gc_limit = 500

-- The state of an active bucket: the array, and the executor's `i` and `limit`. `idle` is a bucket that
-- the map does not hold.
pub record Active : Type 0 where
  pub queue : List ℕ
  pub index : ℕ
  pub limit : ℕ

pub data Bucket : Type 0 where
  idle : Bucket
  active : Active → Bucket

-- `queueJob`: the bucket is made if it is not there, and the executor starts at once, in the same turn,
-- with a queue of one job.
unfoldable pub queue_job : ℕ → Bucket → Bucket
queue_job job idle = active (record { queue = job ∷ []; index = 0; limit = min 1 gc_limit })
queue_job job (active a) = active (record a { queue = a.queue ++ job ∷ [] })

-- When the job at `index` has settled the loop goes on: to the next job, or past `limit` to the
-- `splice` and the next round, or to `cleanup` when the queue ends at `limit`.
unfoldable pub settle : Active → Bucket
settle a =
    if ltb (a.index + 1) a.limit
    then active (record a { index = a.index + 1 })
    else if ltb a.limit (length a.queue)
    then (let rest = drop a.limit a.queue in
        active (record { queue = rest; index = 0; limit = min (length rest) gc_limit }))
    else idle

-- The job that is running.
unfoldable pub running : Bucket → Option ℕ
running idle = none
running (active a) = get_elem? a.queue a.index
