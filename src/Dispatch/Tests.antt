-- ===== src/Dispatch/Tests.antt =====
-- The theorems on job_dispatcher.py at one waiting job and one or two workers.
use Prim.Native.Nat.{max}
use open_mesh_ai.Prelude.{
  arith, ◌+◌, ◌≤◌, ◌≡◌, ◌≢◌, refl, true, none, some, [], ◌∷◌, pos, pos_part, All, In, length, inl,
  inr, sym, ◌∙◌,
}
use open_mesh_ai.Decimal.Order.{fin, gt, lt_num, is_nan}
use open_mesh_ai.Decimal.Rounding.{round_half_even}
use open_mesh_ai.Decimal.Minus.{rounded, minus_raises}
use open_mesh_ai.Decimal.Parse.{parse}
use open_mesh_ai.Json.{str, end, field, get, decimal_of}
use open_mesh_ai.Db.Enums.{JobStatus, running}
use open_mesh_ai.Db.Models.{Worker}
use open_mesh_ai.Db.Session.{Db}
use open_mesh_ai.Dispatch.Queueing.{queued_jobs, in_order, enqueue}
use open_mesh_ai.Dispatch.Settings.{worker_decimal_setting, worker_latency_ms, job_price_multiplier}
use open_mesh_ai.Dispatch.Candidates.{
  Candidate, price_of, candidates_of, select_candidate, precedes, sort, insert,
}
use open_mesh_ai.Dispatch.Assign.{
  active_counts, assign, dispatch_job, dispatch_all, dispatch_queue, assign_queued_jobs,
  dispatch_round,
}
use open_mesh_ai.Dispatch.Best.{IsAsGood, select_candidate-least}
use open_mesh_ai.Dispatch.Pool.{assign_queued_jobs-pool}
use mathlib.Core.Quot
use mathlib.Core.Quot.{Quot}
use open_mesh_ai.Dispatch.Limits.{HasKeys, dispatch_limits}
use open_mesh_ai.Dispatch.Crash.{dispatch_stopped}
use open_mesh_ai.Samples.{gpu, worker_with, roomy, handed_out, waiting_pool, pool_with, job_in}

abbrev slow : Candidate
slow = record {
  reputation = fin (pos 500_000_000_000_000_000_000_000_000_001) 30;
  latency_ms = 900;
  load = 0;
  worker = gpu;
}

abbrev fast : Candidate
fast = record { reputation = fin (pos 50) 2; latency_ms = 20; load = 1; worker = gpu }

-- The reputations are equal to 28 digits: the latency decides.
fast_selected : select_candidate (slow ∷ fast ∷ []) ≡ some (some fast)
unfolding select_candidate sort insert precedes lt_num rounded minus_raises round_half_even
fast_selected = refl

select_candidate-least_example : In fast (slow ∷ fast ∷ []) × All (IsAsGood fast) (slow ∷ fast ∷ [])
select_candidate-least_example = select_candidate-least (slow ∷ fast ∷ []) fast fast_selected

gpu_only : (v : Worker) → In v (gpu ∷ []) → v ≡ gpu
gpu_only v (inl e) = e
gpu_only v (inr m) = elim m [ ]

waiting_pool-HasKeys : HasKeys waiting_pool.workers
waiting_pool-HasKeys v w a b e = gpu_only v a ∙ sym (gpu_only w b)

abbrev dispatched_pool : Db
dispatched_pool = record waiting_pool {
  jobs = job_in running ∷ [];
  assignments = record handed_out { id = 2; assigned_at = 9 } ∷ [];
  next_assignment_id = 3;
}

waiting_pool-dispatched :
    assign_queued_jobs 50 9 (λ i. "n1") waiting_pool ≡ some (1, dispatched_pool)
unfolding assign_queued_jobs dispatch_all dispatch_job assign candidates_of select_candidate sort
    insert gt lt_num worker_decimal_setting worker_latency_ms job_price_multiplier queued_jobs
    in_order enqueue get decimal_of parse minus_raises round_half_even
waiting_pool-dispatched = refl

dispatch_limits_example :
    (length dispatched_pool.assignments ≡ length waiting_pool.assignments + 1)
    × (active_counts dispatched_pool 7
        ≤ max (active_counts waiting_pool 7) (pos_part roomy.max_concurrency))
dispatch_limits_example =
    dispatch_limits 50 9 (λ i. "n1") waiting_pool dispatched_pool 1 gpu roomy waiting_pool-HasKeys
      (inl refl) refl waiting_pool-dispatched

-- A worker that asks for the price `NaN`.
abbrev greedy : Worker
greedy = worker_with (field "price_multiplier" (str "NaN") end)

abbrev greedy_pool : Db
greedy_pool = pool_with (gpu ∷ greedy ∷ []) (job_in JobStatus.queued ∷ []) [] []

greedy-is_nan : is_nan (price_of greedy) ≡ true
unfolding worker_decimal_setting get decimal_of parse
greedy-is_nan = refl

greedy_pool-busy : queued_jobs 50 greedy_pool ≢ []
unfolding queued_jobs in_order enqueue
greedy_pool-busy e = cc

dispatch_stopped_example :
    (assign_queued_jobs 50 9 (λ i. "n1") greedy_pool ≡ none)
    × (dispatch_round 9 (λ i. "n1") greedy_pool ≡ greedy_pool)
dispatch_stopped_example =
    dispatch_stopped 9 (λ i. "n1") greedy_pool greedy (inr (inl refl)) refl greedy-is_nan
      greedy_pool-busy

abbrev second_gpu : Worker
second_gpu = record gpu { id = 8; name = "gpu-8" }

abbrev two_workers : Db
two_workers = pool_with (gpu ∷ second_gpu ∷ []) (job_in JobStatus.queued ∷ []) [] []

assign_queued_jobs-pool_example :
    dispatch_queue 20 (λ i. "n") (queued_jobs 50 two_workers) (second_gpu ∷ gpu ∷ []) two_workers
    ≡ assign_queued_jobs 50 20 (λ i. "n") two_workers
assign_queued_jobs-pool_example =
    assign_queued_jobs-pool 50 20 (λ i. "n") (second_gpu ∷ gpu ∷ []) two_workers
      (Quot.sound ([], second_gpu, gpu, [], refl, refl, λ e. omega arith))
