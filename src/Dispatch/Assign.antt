-- ===== src/Dispatch/Assign.antt =====
-- `assign_queued_jobs` of job_dispatcher.py, and one round of `_dispatch_loop` of scheduler.py.
use open_mesh_ai.Prelude.{
  ℕ, suc, ◌+◌, Bool, false, ◌&&◌, Option, none, some, List, [], ◌∷◌, ◌++◌, String, ltb, ◌==◌,
  if◌then◌else◌, filter_by, count_by, ◌>>=◌,
}
use open_mesh_ai.Db.Enums.{running, AssignmentStatus, is_active, is_online}
use open_mesh_ai.Db.Models.{Worker, Job, Assignment}
use open_mesh_ai.Db.Session.{Db, update_job}
use open_mesh_ai.Dispatch.Queueing.{queued_jobs}
use open_mesh_ai.Dispatch.Settings.{job_price_multiplier}
use open_mesh_ai.Dispatch.Candidates.{candidates_of, select_candidate}

abbrev pub is_worker : ℕ → Option ℕ → Bool
is_worker i none = false
is_worker i (some j) = j == i

abbrev pub is_active_for : ℕ → Assignment → Bool
is_active_for i a = is_worker i a.worker_id && is_active a.status

-- `active_counts`, with 0 for a worker that is not in it.
abbrev pub active_counts : Db → ℕ → ℕ
active_counts db i = count_by (is_active_for i) db.assignments

abbrev pub online_workers : Db → List Worker
online_workers db = filter_by (λ w. is_online w.status) db.workers

-- The session, the counts and `assigned_count` as they change through the loop.
pub record Round : Type 0 where
  pub db : Db
  pub counts : ℕ → ℕ
  pub assigned_count : ℕ

abbrev pub new_assignment : ℕ → (ℕ → String) → Job → Worker → Db → Assignment
new_assignment now nonce_of job w db = record {
  id = db.next_assignment_id;
  job_id = job.id;
  worker_id = some w.id;
  status = AssignmentStatus.assigned;
  assigned_at = now;
  finished_at = none;
  nonce = nonce_of job.id;
}

abbrev pub bump : (ℕ → ℕ) → ℕ → ℕ → ℕ
bump counts i j = if j == i then counts i + 1 else counts j

unfoldable pub assign : ℕ → (ℕ → String) → Job → Worker → Round → Round
assign now nonce_of job w r = record {
  db =
      update_job job.id (λ j. record j { status = running })
        (record r.db {
          assignments = r.db.assignments ++ new_assignment now nonce_of job w r.db ∷ [];
          next_assignment_id = suc r.db.next_assignment_id;
        });
  counts = bump r.counts w.id;
  assigned_count = r.assigned_count + 1;
}

-- One queued job: it is given to the best candidate, and stays queued where there is none.
unfoldable pub dispatch_job : ℕ → (ℕ → String) → List Worker → Job → Round → Option Round
dispatch_job now nonce_of workers job r = do
  candidates ← candidates_of (job_price_multiplier job) r.counts workers
  selected ← select_candidate candidates
  some (elim selected [ none ↦ r | some c ↦ assign now nonce_of job c.worker r ])

unfoldable pub dispatch_all : ℕ → (ℕ → String) → List Worker → List Job → Round → Option Round
dispatch_all now nonce_of workers [] r = some r
dispatch_all now nonce_of workers (job ∷ jobs) r = do
  r' ← dispatch_job now nonce_of workers job r
  dispatch_all now nonce_of workers jobs r'

abbrev pub start_round : Db → Round
start_round db = record { db = db; counts = active_counts db; assigned_count = 0 }

-- From the queue and the workers that were read. The early returns, with no queued job or no worker
-- online, assign nothing.
unfoldable pub dispatch_queue : ℕ → (ℕ → String) → List Job → List Worker → Db → Option (ℕ × Db)
dispatch_queue now nonce_of [] workers db = some (0, db)
dispatch_queue now nonce_of (job ∷ jobs) [] db = some (0, db)
dispatch_queue now nonce_of (job ∷ jobs) (w ∷ ws) db = do
  r ← dispatch_all now nonce_of (w ∷ ws) (job ∷ jobs) (start_round db)
  some (r.assigned_count, r.db)

-- `now` is the clock; `nonce_of` makes the nonce of a job, with its `uuid4`.
unfoldable pub assign_queued_jobs : ℕ → ℕ → (ℕ → String) → Db → Option (ℕ × Db)
unfolding dispatch_queue
assign_queued_jobs limit now nonce_of db =
    dispatch_queue now nonce_of (queued_jobs limit db) (online_workers db) db

-- A round of `_dispatch_loop`: what was assigned is committed; an exception is logged, and the session
-- closes without a commit.
unfoldable pub dispatch_round : ℕ → (ℕ → String) → Db → Db
dispatch_round now nonce_of db = elim (assign_queued_jobs 50 now nonce_of db) [
  | none ↦ db
  | some (assigned, db') ↦ if ltb 0 assigned then db' else db
]
