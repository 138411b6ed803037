-- ===== src/Dispatch/Crash.antt =====
-- One worker can stop the dispatch of every job: a price that is not a number makes the comparison
-- `worker_price > job_price` of job_dispatcher.py raise.
use open_mesh_ai.Prelude.{
  ℕ, ◌≡◌, ◌≢◌, refl, true, Option, none, some, List, [], ◌∷◌, String, arith, In, inl, inr, ◌>>=◌,
  subst,
}
use open_mesh_ai.Decimal.Order.{Decimal, gt, is_nan}
use open_mesh_ai.Db.Models.{Worker, Job}
use open_mesh_ai.Db.Session.{Db}
use open_mesh_ai.Dispatch.Settings.{job_price_multiplier}
use open_mesh_ai.Dispatch.Queueing.{queued_jobs}
use open_mesh_ai.Dispatch.Candidates.{has_room, price_of, candidates_of, add_candidate}
use open_mesh_ai.Dispatch.Assign.{
  dispatch_job, dispatch_all, dispatch_queue, assign_queued_jobs, dispatch_round, active_counts,
  online_workers,
}

gt_nan : (a b : Decimal) → is_nan a ≡ true → gt a b ≡ none
unfolding gt
gt_nan a b h = ground arith

candidates_of-raises :
    (price : Decimal) (counts : ℕ → ℕ) (w : Worker) (ws : List Worker)
    → In w ws
    → has_room (counts w.id) w ≡ true
    → is_nan (price_of w) ≡ true
    → candidates_of price counts ws ≡ none
unfolding candidates_of
candidates_of-raises price counts w [] m room h = elim m [ ]
candidates_of-raises price counts w (v ∷ ws) (inr m) room h =
    rw (candidates_of-raises price counts w ws m room h)
candidates_of-raises price counts w (v ∷ ws) (inl same) room h =
    here (candidates_of price counts ws)
  where
    here : (rest : Option (List _)) → (rest >>= add_candidate price (counts v.id) v) ≡ none
    here none = refl
    here (some cs) =
        let room' = subst (λ (x : Worker). has_room (counts x.id) x ≡ true) same room in
        let h' = subst (λ (x : Worker). is_nan (price_of x) ≡ true) same h in
        rw (room', gt_nan (price_of v) price h')

dispatch_queue-raises :
    (now : ℕ) (nonce_of : ℕ → String) (db : Db) (w : Worker) (jobs : List Job) (ws : List Worker)
    → In w ws
    → has_room (active_counts db w.id) w ≡ true
    → is_nan (price_of w) ≡ true
    → jobs ≢ []
    → dispatch_queue now nonce_of jobs ws db ≡ none
unfolding dispatch_queue dispatch_all dispatch_job
dispatch_queue-raises now nonce_of db w [] ws m room h busy = absurd (busy refl)
dispatch_queue-raises now nonce_of db w (job ∷ jobs) [] m room h busy = elim m [ ]
dispatch_queue-raises now nonce_of db w (job ∷ jobs) (v ∷ ws) m room h busy =
    rw (candidates_of-raises (job_price_multiplier job) (active_counts db) w (v ∷ ws) m room h)

-- While a worker that is online, takes assignments and has room asks for a price that is not a number,
-- a pass over a queue that is not empty raises, and the scheduler's round assigns nothing, to any worker.
pub dispatch_stopped :
    (now : ℕ) (nonce_of : ℕ → String) (db : Db) (w : Worker)
    → In w (online_workers db)
    → has_room (active_counts db w.id) w ≡ true
    → is_nan (price_of w) ≡ true
    → queued_jobs 50 db ≢ []
    → (assign_queued_jobs 50 now nonce_of db ≡ none) × (dispatch_round now nonce_of db ≡ db)
unfolding assign_queued_jobs dispatch_round
dispatch_stopped now nonce_of db w m room h busy =
    let stopped =
      dispatch_queue-raises now nonce_of db w (queued_jobs 50 db) (online_workers db) m room h
        busy in
    (stopped, rw (stopped, dispatch_round))
