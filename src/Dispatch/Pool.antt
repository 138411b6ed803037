-- ===== src/Dispatch/Pool.antt =====
-- `assign_queued_jobs` of job_dispatcher.py reads the workers without an `ORDER BY`. Here they are a pool,
-- which has no order, and the dispatcher is a function of it.
use open_mesh_ai.Prelude.{ℕ, ◌≡◌, ap, Option, String, List}
use open_mesh_ai.Db.Models.{Worker, Job}
use open_mesh_ai.Db.Session.{Db}
use open_mesh_ai.Dispatch.Queueing.{queued_jobs}
use open_mesh_ai.Dispatch.Assign.{dispatch_queue, online_workers, assign_queued_jobs}
use open_mesh_ai.Dispatch.Reordered.{Swapped, dispatch_queue-Swapped}
use mathlib.Core.Quot
use mathlib.Core.Quot.{Quot}
use text.Mathlib.TextEquality.{IsScalar-prop}

-- Lists of workers, up to swaps of neighbours of different ids: workers of different ids in any order.
abbrev pub Pool : Type 0
Pool = Quot Swapped

abbrev pub pool_of : List Worker → Pool
pool_of = Quot.mk

Outcome-set : IsSet (Db → Option (ℕ × Db))
Outcome-set = hlevel (IsScalar-prop)

dispatch_pool : ℕ → (ℕ → String) → List Job → Pool → Db → Option (ℕ × Db)
dispatch_pool now nonce_of jobs =
    Quot.lift Outcome-set (dispatch_queue now nonce_of jobs)
      (dispatch_queue-Swapped now nonce_of jobs)

-- If what is read of the workers is the pool of the workers that are online, in whatever order, a pass over
-- the queue is that of `assign_queued_jobs`: the same assignments to the same workers, or the same exception.
pub assign_queued_jobs-pool :
    (limit now : ℕ) (nonce_of : ℕ → String) (ws : List Worker) (db : Db)
    → pool_of ws ≡ pool_of (online_workers db)
    → dispatch_queue now nonce_of (queued_jobs limit db) ws db
      ≡ assign_queued_jobs limit now nonce_of db
unfolding dispatch_pool assign_queued_jobs
assign_queued_jobs-pool limit now nonce_of ws db same =
    ap (λ pool. dispatch_pool now nonce_of (queued_jobs limit db) pool db) same
