-- ===== src/System/Quiet.antt =====
-- The steps that leave the accounts and the ledger as they are.
use open_mesh_ai.Prelude.{
  not, is_some, find_by, subst, ℕ, zero, suc, ◌≡◌, refl, Option, none, some, List, [], ◌∷◌, String,
  ltb, sym, ap, ◌∙◌, if◌then◌else◌, >>=-eq-some, some_inj, inl, inr, Bool-cases,
}
use open_mesh_ai.Decimal.Order.{Decimal}
use open_mesh_ai.Db.Enums.{JobType, worker_owner}
use open_mesh_ai.Db.Models.{User, Worker, Job}
use open_mesh_ai.Db.Session.{Db}
use open_mesh_ai.Dispatch.Assign.{
  Round, assign, dispatch_job, dispatch_round, assign_queued_jobs, start_round, online_workers,
}
use open_mesh_ai.Dispatch.Queueing.{create_queued_job, queued_jobs}
use open_mesh_ai.Dispatch.Candidates.{Candidate, candidates_of, select_candidate}
use open_mesh_ai.Dispatch.Settings.{job_price_multiplier}
use open_mesh_ai.Dispatch.Limits.{dispatch_all_inv, dispatch_queue_inv}
use open_mesh_ai.Admin.Actions.{
  AdminEnqueueDemoRequest, enqueue_from, demo_payload, enqueue_demo_jobs,
}
use open_mesh_ai.Api.Reply.{Reply, ok, refused, server_error, >>=-eq-ok, require_that->>, ok_inj}
use open_mesh_ai.Api.Users.{get_owned_worker, require_roles}
use open_mesh_ai.Api.Workers.{WorkerRegisterRequest, has_name, register_worker}
use open_mesh_ai.Api.Jobs.{heartbeat_worker}
use open_mesh_ai.Api.Peers.{PeerAuth, register_peer, authenticate_peer}
use open_mesh_ai.Api.Books.{books}
use open_mesh_ai.System.Steps.{after}

-- What holds before a request and of what it answers with, holds after it.
pub after_inv :
    {A : Type 0} (P : Db → Type 0) (reply : Reply (A × Db)) (db : Db)
    → P db
    → ((out : A × Db) → reply ≡ ok out → P out.1)
    → P (after reply db)
after_inv P (ok out) db h answered = answered out refl
after_inv P (refused status detail) db h answered = h
after_inv P server_error db h answered = h

enqueue_from-books :
    (float_text : Decimal → String) (job_type : JobType) (priority index count : ℕ) (db : Db)
    → books (enqueue_from float_text job_type priority index count db) ≡ books db
unfolding create_queued_job
enqueue_from-books float_text job_type priority index zero db = refl
enqueue_from-books float_text job_type priority index (suc count) db =
    enqueue_from-books float_text job_type priority (suc index) count
      (create_queued_job float_text none (demo_payload index) job_type priority _ db).1

dispatch_job-books :
    (now : ℕ) (nonce_of : ℕ → String) (ws : List Worker) (db : Db) (job : Job) (r r' : Round)
    → books r.db ≡ books db
    → dispatch_job now nonce_of ws job r ≡ some r'
    → books r'.db ≡ books db
unfolding dispatch_job assign
dispatch_job-books now nonce_of ws db job r r' same e =
    let (candidates, _, e1) =
      >>=-eq-some (candidates_of (job_price_multiplier job) r.counts ws) _ e in
    let (selected, _, e2) = >>=-eq-some (select_candidate candidates) _ e1 in from selected e2
  where
    from :
        (selected : Option Candidate)
        → some (elim selected [ none ↦ r | some c ↦ assign now nonce_of job c.worker r ]) ≡ some r'
        → books r'.db ≡ books db
    from none e2 = ap (λ (x : Round). books x.db) (sym (some_inj e2)) ∙ same
    from (some c) e2 = ap (λ (x : Round). books x.db) (sym (some_inj e2)) ∙ same

-- A round of the dispatcher, whatever comes of it.
pub dispatch_round-books :
    (now : ℕ) (nonce_of : ℕ → String) (db : Db) → books (dispatch_round now nonce_of db) ≡ books db
unfolding dispatch_round assign_queued_jobs
dispatch_round-books now nonce_of db = from (assign_queued_jobs 50 now nonce_of db) (λ n db' e.
    dispatch_queue_inv (λ n db'. books db' ≡ books db) now nonce_of (queued_jobs 50 db)
      (online_workers db) db refl
      (λ r.
        dispatch_all_inv (λ r. books r.db ≡ books db) now nonce_of (online_workers db)
          (dispatch_job-books now nonce_of (online_workers db) db) (queued_jobs 50 db)
          (start_round db) r refl)
      n db' e)
  where
    from :
        (out : Option (ℕ × Db))
        → ((n : ℕ) (db' : Db) → out ≡ some (n, db') → books db' ≡ books db)
        → books (elim out [ none ↦ db | some (n, db') ↦ if ltb 0 n then db' else db ]) ≡ books db
    from none kept = refl
    from (some (n, db')) kept = elim (Bool-cases (ltb 0 n)) [
      | inl assigned ↦ rw assigned (kept n db' refl)
      | inr idle ↦ rw idle
    ]

pub heartbeat_worker-books :
    (now worker_id : ℕ) (u : User) (db : Db) (out : (ℕ × ℕ) × Db)
    → heartbeat_worker now worker_id u db ≡ ok out
    → books out.1 ≡ books db
unfolding heartbeat_worker
heartbeat_worker-books now worker_id u db out e =
    let (w, _, e1) = >>=-eq-ok (get_owned_worker worker_id u.id db) _ e in
    subst (λ (x : (ℕ × ℕ) × Db). books x.1 ≡ books db) (ok_inj e1) refl

pub register_worker-books :
    (next_id : ℕ) (u : User) (p : WorkerRegisterRequest) (db : Db) (out : Worker × Db)
    → register_worker next_id u p db ≡ ok out
    → books out.1 ≡ books db
unfolding register_worker
register_worker-books next_id u p db out e =
    let (unused, e1) =
      require_that->> (not (is_some (find_by (has_name p.name) db.workers))) _ _ _ e in
    subst (λ (x : Worker × Db). books x.1 ≡ books db) (ok_inj e1) refl

pub register_peer-books :
    (now : ℕ) (auth : PeerAuth) (url : String) (db : Db) (out : (String × String × ℕ) × Db)
    → register_peer now auth url db ≡ ok out
    → books out.1 ≡ books db
unfolding register_peer
register_peer-books now auth url db out e =
    let (peer, _, e1) = >>=-eq-ok (authenticate_peer auth db) _ e in
    subst (λ (x : (String × String × ℕ) × Db). books x.1 ≡ books db) (ok_inj e1) refl

pub enqueue_demo_jobs-books :
    (float_text : Decimal → String) (p : AdminEnqueueDemoRequest) (u : User) (db : Db)
    (out : ℕ × Db)
    → enqueue_demo_jobs float_text p u db ≡ ok out
    → books out.1 ≡ books db
unfolding enqueue_demo_jobs
enqueue_demo_jobs-books float_text p u db out e =
    let (admin, _, e1) = >>=-eq-ok (require_roles (worker_owner ∷ []) u) _ e in
    subst (λ (x : ℕ × Db). books x.1 ≡ books db) (ok_inj e1)
      (enqueue_from-books float_text p.job_type p.priority 0 p.count db)
