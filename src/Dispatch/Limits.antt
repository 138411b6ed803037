-- ===== src/Dispatch/Limits.antt =====
-- What a whole pass of `assign_queued_jobs` does to the table of assignments: it adds as many as it
-- reports, its counts are those of the table, and no worker goes past its `max_concurrency`.
use Prim.Native.Nat.{max}
use open_mesh_ai.Prelude.{
  ℕ, ◌+◌, ◌≤◌, ◌<◌, ◌≡◌, refl, true, not, ◌&&◌, some, List, [], ◌∷◌, String, ℤ, pos, pos_part,
  leb_ℤ, ◌==◌, arith, In, inl, inr, Bool-cases, count_by-append, length, length-append, subst,
  >>=-eq-some, some_inj, In-filter_by, ap,
}
use open_mesh_ai.Db.Enums.{is_online}
use open_mesh_ai.Db.Models.{Worker, WorkerSettings, Job}
use open_mesh_ai.Db.Session.{Db}
use open_mesh_ai.Dispatch.Settings.{job_price_multiplier}
use open_mesh_ai.Dispatch.Queueing.{queued_jobs}
use open_mesh_ai.Dispatch.Candidates.{Candidate, has_room}
use open_mesh_ai.Dispatch.Capacity.{IsEligible, dispatch_job_cases}
use open_mesh_ai.Dispatch.Assign.{
  Round, assign, dispatch_job, dispatch_all, active_counts, is_active_for, new_assignment,
  start_round, dispatch_queue, assign_queued_jobs, online_workers, bump,
}

-- What one job keeps, the pass keeps.
pub dispatch_all_inv :
    (P : Round → Type 0) (now : ℕ) (nonce_of : ℕ → String) (ws : List Worker)
    → ((job : Job) (r r' : Round) → P r → dispatch_job now nonce_of ws job r ≡ some r' → P r')
    → (jobs : List Job) (r r' : Round) → P r
    → dispatch_all now nonce_of ws jobs r ≡ some r'
    → P r'
unfolding dispatch_all
dispatch_all_inv P now nonce_of ws keep [] r r' h e = subst P (some_inj e) h
dispatch_all_inv P now nonce_of ws keep (job ∷ jobs) r r' h e =
    let (next, one, rest) = >>=-eq-some (dispatch_job now nonce_of ws job r) _ e in
    dispatch_all_inv P now nonce_of ws keep jobs next r' (keep job r next h one) rest

-- How a pass ends: with nothing done, or with what the loop made of the first round.
pub dispatch_queue_inv :
    (P : ℕ → Db → Type 0) (now : ℕ) (nonce_of : ℕ → String) (jobs : List Job) (ws : List Worker)
    (db : Db)
    → P 0 db
    → ((r : Round)
        → dispatch_all now nonce_of ws jobs (start_round db) ≡ some r
        → P r.assigned_count r.db)
    → (n : ℕ) (db' : Db) → dispatch_queue now nonce_of jobs ws db ≡ some (n, db')
    → P n db'
unfolding dispatch_queue
dispatch_queue_inv P now nonce_of [] ws db idle loop n db' e =
    subst (λ (out : ℕ × Db). P out.0 out.1) (some_inj e) idle
dispatch_queue_inv P now nonce_of (job ∷ jobs) [] db idle loop n db' e =
    subst (λ (out : ℕ × Db). P out.0 out.1) (some_inj e) idle
dispatch_queue_inv P now nonce_of (job ∷ jobs) (w ∷ ws) db idle loop n db' e =
    let (r, looped, e') =
      >>=-eq-some (dispatch_all now nonce_of (w ∷ ws) (job ∷ jobs) (start_round db)) _ e in
    subst (λ (out : ℕ × Db). P out.0 out.1) (some_inj e') (loop r looped)

-- The counts are those of the table, which only grows, by what the pass reports.
record IsTracked (start : Db) (r : Round) : Type 0 where
  counted : (i : ℕ) → r.counts i ≡ active_counts r.db i
  grown : length r.db.assignments ≡ length start.assignments + r.assigned_count

assign-IsTracked :
    (start : Db) (now : ℕ) (nonce_of : ℕ → String) (job : Job) (w : Worker) (r : Round)
    → IsTracked start r
    → IsTracked start (assign now nonce_of job w r)
unfolding assign
assign-IsTracked start now nonce_of job w r t = record {
  counted = λ i. ground (
    arith,
    t.counted i,
    t.counted w.id,
    count_by-append (is_active_for i) r.db.assignments
        (new_assignment now nonce_of job w r.db ∷ []),
  );
  grown = omega (
    arith,
    t.grown,
    length-append r.db.assignments (new_assignment now nonce_of job w r.db ∷ []),
  );
}

dispatch_job-IsTracked :
    (start : Db) (now : ℕ) (nonce_of : ℕ → String) (ws : List Worker) (job : Job) (r r' : Round)
    → IsTracked start r
    → dispatch_job now nonce_of ws job r ≡ some r'
    → IsTracked start r'
dispatch_job-IsTracked start now nonce_of ws job r r' t e =
    elim (dispatch_job_cases now nonce_of ws job r r' e) [
      | inl same ↦ rw same t
      | inr (c, eligible, e') ↦ rw e' (assign-IsTracked start now nonce_of job c.worker r t)
    ]

-- The primary key: no two workers share an id.
abbrev pub HasKeys : List Worker → Type 0
HasKeys ws = (v w : Worker) → In v ws → In w ws → v.id ≡ w.id → v ≡ w

-- One worker's count is at most what it was, or at most its limit.
abbrev IsWithin : Worker → ℤ → ℕ → Round → Type 0
IsWithin w limit start r = r.counts w.id ≤ max start (pos_part limit)

has_room-lt :
    (load : ℕ) (w : Worker) (s : WorkerSettings)
    → w.settings ≡ some s
    → has_room load w ≡ true
    → load < pos_part s.max_concurrency
has_room-lt load w s e h =
    let room : (s.accept_new_assignments && not (leb_ℤ s.max_concurrency (pos load))) ≡ true =
      rw e at h in
    ground arith

assign-counts :
    (now : ℕ) (nonce_of : ℕ → String) (job : Job) (v : Worker) (r : Round) (i : ℕ)
    → (assign now nonce_of job v r).counts i ≡ bump r.counts v.id i
unfolding assign
assign-counts now nonce_of job v r i = refl

dispatch_job-IsWithin :
    (now : ℕ) (nonce_of : ℕ → String) (ws : List Worker) (w : Worker) (s : WorkerSettings)
    (start : ℕ)
    → ((v : Worker) → In v ws → v.id ≡ w.id → v ≡ w)
    → w.settings ≡ some s
    → (job : Job) (r r' : Round) → IsWithin w s.max_concurrency start r
    → dispatch_job now nonce_of ws job r ≡ some r'
    → IsWithin w s.max_concurrency start r'
dispatch_job-IsWithin now nonce_of ws w s start unique set job r r' h e =
    elim (dispatch_job_cases now nonce_of ws job r r' e) [
      | inl same ↦ rw same h
      | inr (c, eligible, e') ↦ rw e' (given c eligible)
    ]
  where
    given :
        (c : Candidate)
        → IsEligible (job_price_multiplier job) r.counts ws c
        → IsWithin w s.max_concurrency start (assign now nonce_of job c.worker r)
    given c (member, room, asks) = elim (Bool-cases (w.id == c.worker.id)) [
      | inl hit ↦
          let same = unique c.worker member (ground arith) in
          let room' = subst (λ (v : Worker). has_room (r.counts v.id) v ≡ true) same room in
          let load = ap (λ (v : Worker). r.counts v.id) same in
          rw (assign-counts now nonce_of job c.worker r w.id, hit)
            (omega (arith, load, has_room-lt (r.counts w.id) w s set room'))
      | inr miss ↦ rw (assign-counts now nonce_of job c.worker r w.id, miss) h
    ]

-- `assign_queued_jobs` reports as many assignments as it adds, and takes no worker past its
-- `max_concurrency`: after a pass a worker of the table has no more active assignments than its limit
-- allows, or than it had before.
pub dispatch_limits :
    (limit now : ℕ) (nonce_of : ℕ → String) (db db' : Db) (n : ℕ) (w : Worker) (s : WorkerSettings)
    → HasKeys db.workers
    → In w db.workers
    → w.settings ≡ some s
    → assign_queued_jobs limit now nonce_of db ≡ some (n, db')
    → (length db'.assignments ≡ length db.assignments + n)
      × (active_counts db' w.id ≤ max (active_counts db w.id) (pos_part s.max_concurrency))
unfolding assign_queued_jobs
dispatch_limits limit now nonce_of db db' n w s keys member set e =
    dispatch_queue_inv
      (λ m out.
        (length out.assignments ≡ length db.assignments + m)
        × (active_counts out w.id ≤ max (active_counts db w.id) (pos_part s.max_concurrency)))
      now nonce_of (queued_jobs limit db) (online_workers db) db (omega arith, omega arith) loop n
      db' e
  where
    ws : List Worker
    ws = online_workers db

    unique : (v : Worker) → In v ws → v.id ≡ w.id → v ≡ w
    unique v m = keys v w (In-filter_by (λ x. is_online x.status) v db.workers m) member

    loop :
        (r : Round)
        → dispatch_all now nonce_of ws (queued_jobs limit db) (start_round db) ≡ some r
        → (length r.db.assignments ≡ length db.assignments + r.assigned_count)
          × (active_counts r.db w.id ≤ max (active_counts db w.id) (pos_part s.max_concurrency))
    loop r e' =
        let tracked =
          dispatch_all_inv (IsTracked db) now nonce_of ws
            (dispatch_job-IsTracked db now nonce_of ws) (queued_jobs limit db) (start_round db) r
            (record { counted = λ i. refl; grown = omega arith }) e' in
        let within =
          dispatch_all_inv (IsWithin w s.max_concurrency (active_counts db w.id)) now nonce_of ws
            (dispatch_job-IsWithin now nonce_of ws w s (active_counts db w.id) unique set)
            (queued_jobs limit db) (start_round db) r (omega arith) e' in
        (tracked.grown, omega (arith, within, tracked.counted w.id))
