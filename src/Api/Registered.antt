-- ===== src/Api/Registered.antt =====
-- Workers that come by api/workers.py and keep alive by api/jobs.py, and the dispatcher: no operation
-- gives a worker its settings.
use open_mesh_ai.Prelude.{
  ℕ, ◌≡◌, refl, Bool, not, none, some, List, [], ◌∷◌, ◌++◌, String, ◌==◌, All, filter_by, find_by,
  update_by, is_some, Bool-cases, inl, inr, ◌∙◌, subst,
}
use open_mesh_ai.Decimal.Order.{Decimal}
use open_mesh_ai.Db.Enums.{is_online}
use open_mesh_ai.Db.Models.{User, Worker, Job}
use open_mesh_ai.Db.Session.{Db}
use open_mesh_ai.Dispatch.Queueing.{queued_jobs}
use open_mesh_ai.Dispatch.Settings.{job_price_multiplier}
use open_mesh_ai.Dispatch.Candidates.{candidates_of, select_candidate, sort}
use open_mesh_ai.Dispatch.Assign.{
  Round, dispatch_job, dispatch_all, dispatch_queue, assign_queued_jobs, start_round,
  online_workers,
}
use open_mesh_ai.Api.Reply.{ok, require_that->>, >>=-eq-ok, ok_inj}
use open_mesh_ai.Api.Users.{get_owned_worker}
use open_mesh_ai.Api.Jobs.{heartbeat_worker, seen_online}
use open_mesh_ai.Api.Workers.{WorkerRegisterRequest, register_worker, new_worker, has_name}

abbrev pub HasNoSettings : Worker → Type 0
HasNoSettings w = w.settings ≡ none

All-append :
    (ws : List Worker) (w : Worker)
    → All HasNoSettings ws
    → HasNoSettings w
    → All HasNoSettings (ws ++ w ∷ [])
All-append [] w h k = (k, tt)
All-append (v ∷ ws) w h k = (h.0, All-append ws w h.1 k)

All-update_by :
    (p : Worker → Bool) (f : Worker → Worker) (ws : List Worker)
    → ((w : Worker) → (f w).settings ≡ w.settings)
    → All HasNoSettings ws
    → All HasNoSettings (update_by p f ws)
All-update_by p f [] same h = tt
All-update_by p f (w ∷ ws) same h = elim (Bool-cases (p w)) [
  | inl hit ↦ rw hit (same w ∙ h.0, h.1)
  | inr miss ↦ rw miss (h.0, All-update_by p f ws same h.1)
]

All-filter_by :
    (p : Worker → Bool) (ws : List Worker)
    → All HasNoSettings ws
    → All HasNoSettings (filter_by p ws)
All-filter_by p [] h = tt
All-filter_by p (w ∷ ws) h = elim (Bool-cases (p w)) [
  | inl kept ↦ rw kept (h.0, All-filter_by p ws h.1)
  | inr dropped ↦ rw dropped (All-filter_by p ws h.1)
]

-- No worker without settings is a candidate.
candidates_of-none :
    (price : Decimal) (counts : ℕ → ℕ) (ws : List Worker)
    → All HasNoSettings ws
    → candidates_of price counts ws ≡ some []
unfolding candidates_of
candidates_of-none price counts [] h = refl
candidates_of-none price counts (w ∷ ws) h = rw (candidates_of-none price counts ws h.1, h.0)

dispatch_all-none :
    (now : ℕ) (nonce_of : ℕ → String) (ws : List Worker) (jobs : List Job) (r : Round)
    → All HasNoSettings ws
    → dispatch_all now nonce_of ws jobs r ≡ some r
unfolding dispatch_all dispatch_job select_candidate sort
dispatch_all-none now nonce_of ws [] r h = refl
dispatch_all-none now nonce_of ws (job ∷ jobs) r h =
    rw (candidates_of-none (job_price_multiplier job) r.counts ws h)
      (dispatch_all-none now nonce_of ws jobs r h)

dispatch_queue-none :
    (now : ℕ) (nonce_of : ℕ → String) (jobs : List Job) (ws : List Worker) (db : Db)
    → All HasNoSettings ws
    → dispatch_queue now nonce_of jobs ws db ≡ some (0, db)
unfolding dispatch_queue
dispatch_queue-none now nonce_of [] ws db h = refl
dispatch_queue-none now nonce_of (job ∷ jobs) [] db h = refl
dispatch_queue-none now nonce_of (job ∷ jobs) (w ∷ ws) db h =
    rw (dispatch_all-none now nonce_of (w ∷ ws) (job ∷ jobs) (start_round db) h)

-- Where no worker has settings, a registration and a heartbeat keep it so, and a pass of the
-- dispatcher assigns nothing, whatever is queued.
pub registered_unassigned :
    (limit now later next_id : ℕ) (nonce_of : ℕ → String) (u : User)
    (payload : WorkerRegisterRequest) (w : Worker) (i : ℕ) (seen : ℕ × ℕ) (db db1 db2 : Db)
    → All HasNoSettings db.workers
    → register_worker next_id u payload db ≡ ok (w, db1)
    → heartbeat_worker now i u db1 ≡ ok (seen, db2)
    → All HasNoSettings db2.workers × (assign_queued_jobs limit later nonce_of db2 ≡ some (0, db2))
unfolding register_worker heartbeat_worker assign_queued_jobs
registered_unassigned limit now later next_id nonce_of u payload w i seen db db1 db2 h e e1 =
    let (free, e') =
      require_that->> (not (is_some (find_by (has_name payload.name) db.workers))) _ _ _ e in
    let h1 =
      subst (λ (x : Worker × Db). All HasNoSettings x.1.workers) (ok_inj e')
        (All-append db.workers (new_worker next_id u payload) h refl) in
    let (v, owned, e'') = >>=-eq-ok (get_owned_worker i u.id db1) _ e1 in
    let h2 =
      subst (λ (x : (ℕ × ℕ) × Db). All HasNoSettings x.1.workers) (ok_inj e'')
        (All-update_by (λ x. x.id == v.id) (seen_online now) db1.workers (λ x. refl) h1) in
    (
      h2,
      dispatch_queue-none later nonce_of (queued_jobs limit db2) (online_workers db2) db2
          (All-filter_by (λ x. is_online x.status) db2.workers h2),
    )
