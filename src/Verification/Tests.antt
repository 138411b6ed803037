-- ===== src/Verification/Tests.antt =====
-- The theorems on verification.py at a job with an expected hash, a dispute and a ban.
use open_mesh_ai.Prelude.{List, Bool, inr, ◌+ℤ◌, ◌≡◌, refl, true, false, some, [], ◌∷◌, String, pos}
use open_mesh_ai.Decimal.Order.{Decimal, fin, gt, lt_num}
use open_mesh_ai.Decimal.Rounding.{round_half_even}
use open_mesh_ai.Decimal.Parse.{parse}
use open_mesh_ai.Decimal.Context.{IsUnit, add, clamp_unit, round_28}
use open_mesh_ai.Json.{int, float, end, field, get, put}
use open_mesh_ai.Db.Enums.{banned, pending, verified, running}
use open_mesh_ai.Db.Models.{Worker, SubmissionResult}
use open_mesh_ai.Db.Session.{Db}
use open_mesh_ai.Verification.Reputation.{
  adjusted, verified_reputation_delta, rejected_reputation_delta, rejected_value, reputation_value,
  row_after, adjust_worker_reputation,
}
use open_mesh_ai.Verification.Process.{
  expected_hash, process_submission_verification, process_canonical_job,
}
use open_mesh_ai.Verification.Ban.{
  adjusted-reputation, HasCount, adjusted_all, adjusted_all-ban, spec,
}
use open_mesh_ai.Verification.Verdict.{recorded}
use open_mesh_ai.Verification.Outcome.{verdict_recorded, IsAllowed}
use open_mesh_ai.Samples.{gpu, worker_with, whole_floats, finished, good_result, pool_with, job_in}

abbrev float_text : Decimal → String
float_text d = "0.51"

abbrev kept : Worker
kept = worker_with (field "reputation" (float "0.51") end)

abbrev blamed : Worker
blamed =
    let w =
      worker_with
        (field "reputation" (float "0.51") (field "rejected_submissions" (int (pos 1)) end)) in
    record w { status = banned }

gpu-kept : adjusted float_text rejected_reputation_delta false (pos 1) gpu ≡ some kept
unfolding adjusted reputation_value row_after get put parse add clamp_unit rejected_value gt lt_num
    round_28 round_half_even
gpu-kept = refl

adjusted-reputation_example :
    (u : Decimal) × IsUnit u × (spec "reputation" kept ≡ some (float (float_text u)))
adjusted-reputation_example =
    adjusted-reputation float_text rejected_reputation_delta false (pos 1) gpu kept gpu-kept

-- One submission is verified, then one is rejected.
abbrev history : List (Decimal × Bool)
history = (verified_reputation_delta, false) ∷ (rejected_reputation_delta, true) ∷ []

gpu-history : adjusted_all float_text (pos 1) history gpu ≡ some blamed
unfolding adjusted_all adjusted reputation_value row_after get put parse add clamp_unit
    rejected_value gt lt_num round_28 round_half_even ◌+ℤ◌
gpu-history = refl

adjusted_all-ban_example : HasCount 1 blamed × (blamed.status ≡ banned)
unfolding get
adjusted_all-ban_example =
    adjusted_all-ban float_text (pos 1) history 0 gpu blamed (inr (refl, refl)) gpu-history

abbrev new_result : SubmissionResult
new_result = record good_result { verification_status = pending }

abbrev submitted_pool : Db
submitted_pool = pool_with (gpu ∷ []) (job_in running ∷ []) (finished ∷ []) (new_result ∷ [])

abbrev verified_pool : Db
verified_pool =
    pool_with (kept ∷ []) (job_in running ∷ []) (finished ∷ [])
      (record good_result { verification_score = some (fin (pos 10) 1) } ∷ [])

submitted_pool-verified :
    process_submission_verification whole_floats 20 "n2" finished new_result submitted_pool
    ≡ some (verified, verified_pool)
unfolding process_submission_verification process_canonical_job adjust_worker_reputation adjusted
    reputation_value row_after get put parse add clamp_unit rejected_value gt lt_num round_28
    round_half_even
submitted_pool-verified = refl

verdict_recorded_example :
    IsAllowed (expected_hash finished submitted_pool) new_result.output_hash verified
    × (recorded 1 verified_pool.results ≡ some verified)
verdict_recorded_example =
    verdict_recorded whole_floats 20 "n2" finished new_result submitted_pool verified_pool verified
      refl submitted_pool-verified
