-- ===== src/Api/Tests.antt =====
-- The theorems on the api at one submission that is accepted.
use open_mesh_ai.Prelude.{ℕ, ◌≡◌, refl, Bool, true, false, none, some, List}
use open_mesh_ai.Decimal.Rounding.{round_half_even}
use open_mesh_ai.Decimal.Order.{gt, lt_num}
use open_mesh_ai.Decimal.Parse.{parse}
use open_mesh_ai.Decimal.Context.{add, clamp_unit, round_28}
use open_mesh_ai.Json.{end, get, put}
use open_mesh_ai.Db.Enums.{AssignmentStatus}
use open_mesh_ai.RateLimit.Limiter.{limiter, allow, admit}
use open_mesh_ai.Crypto.Base64.{decode_base64url, sextets, sextet, decode_sextets}
use open_mesh_ai.Crypto.Signature.{verify_ed25519_signature}
use open_mesh_ai.Verification.Reputation.{
  adjust_worker_reputation, adjusted, reputation_value, row_after,
}
use open_mesh_ai.Verification.Policy.{load_audit_policy}
use open_mesh_ai.Verification.Process.{process_submission_verification, process_canonical_job}
use open_mesh_ai.Api.Reply.{ok, is_ok}
use open_mesh_ai.Api.Users.{get_owned_worker}
use open_mesh_ai.Api.Submit.{
  App, JobSubmitRequest, JobSubmitResponse, submit_job, submit_checked, find_submittable, accept,
  account_for,
}
use open_mesh_ai.Api.Accepted.{Answered, submit_job-Answered}
use open_mesh_ai.Api.Once.{submit_job_once}
use open_mesh_ai.Samples.{running_pool, owner, buyer, whole_floats, signature_text}

-- A scheme that takes a signature of 64 bytes for its own.
abbrev pub trusting : List ℕ → List ℕ → List ℕ → Bool
trusting key signature message = true

abbrev pub request : JobSubmitRequest
request = record {
  worker_id = 7;
  assignment_id = 1;
  nonce = "n1";
  signature = signature_text;
  output = some end;
  error_message = none;
  artifact_uri = none;
  output_hash = some "h1";
  metrics_json = none;
}

abbrev pub app : App
app = record { db = running_pool; submit_rate_limiter = limiter 60 60_000_000 }

abbrev response : JobSubmitResponse
response = record { assignment_id = 1; status = AssignmentStatus.completed; finished_at = 20 }

abbrev app_after : App
app_after = (submit_job whole_floats trusting 20 20 "n2" true owner request app).1

request-ok :
    submit_job whole_floats trusting 20 20 "n2" true owner request app ≡ (ok response, app_after)
unfolding submit_job get_owned_worker allow admit limiter submit_checked find_submittable
    verify_ed25519_signature decode_base64url sextets sextet decode_sextets accept account_for
    process_submission_verification process_canonical_job adjust_worker_reputation adjusted
    reputation_value row_after get put parse add clamp_unit gt lt_num round_28 round_half_even
    load_audit_policy
request-ok = refl

submit_job_once_example :
    is_ok (submit_job whole_floats trusting 90 90 "n3" true owner request app_after).0 ≡ false
submit_job_once_example =
    submit_job_once whole_floats trusting 20 20 90 90 "n2" "n3" true true owner owner request
      request app app_after response request-ok refl

submit_job-Answered_example :
    Answered whole_floats trusting 20 20 "n2" true owner request app app_after response
submit_job-Answered_example =
    submit_job-Answered whole_floats trusting 20 20 "n2" true owner request app app_after response
      request-ok

-- The buyer owns no worker.
buyer-refused : is_ok (submit_job whole_floats trusting 20 20 "n2" true buyer request app).0 ≡ false
unfolding submit_job get_owned_worker
buyer-refused = refl
