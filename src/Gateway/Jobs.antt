-- ===== src/Gateway/Jobs.antt =====
-- `_create_job`, `_wait_for_verification`, `_cancel_job` and `_run_job` of pool-gateway/app/main.py.
-- The coordinator is on the other side of the network: what it answers, and what the clock says
-- before each request, is a list of polls. A list that ends before the wait does leaves it waiting.
use open_mesh_ai.Prelude.{
  ℕ, Bool, false, ◌||◌, Option, none, some, List, [], ◌∷◌, String, ltb, ◌==◌, str_eq, if◌then◌else◌,
}
use open_mesh_ai.Json.{Json, str, null, bool, int, float, arr, obj, Fields, end, field, get}

-- An HTTP status of success with a body, a status that `raise_for_status` raises for, or an exception:
-- no response comes, or its body is no JSON object.
pub data Response : Type 0 where
  body : Fields → Response
  http_error : ℕ → Response
  broken : Response

pub data Outcome (A : Type 0) : Type 0 where
  done : A → Outcome A
  -- `HTTPException` with its status and detail.
  refused : ℕ → String → Outcome A
  -- `HTTPStatusError` of the client library.
  raised : ℕ → Outcome A
  -- Any other exception.
  failed : Outcome A
  waiting : Outcome A

-- One turn of the loop: the clock at its head, and the answer to the request.
pub record Poll : Type 0 where
  pub now : ℕ
  pub response : Response

-- What the gateway sends to the coordinator: the job with its body, a poll, a cancellation. The last
-- two have in their path the job's id, the `str` of a value.
pub data Request : Type 0 where
  post_job : Fields → Request
  get_job cancel_job : Json → Request

-- `job.get("status") == "verified"`
abbrev pub is_verified_job : Fields → Bool
is_verified_job job = elim (get "status" job) [
  | none ↦ false
  | some null ↦ false
  | some (bool b) ↦ false
  | some (int z) ↦ false
  | some (float r) ↦ false
  | some (str s) ↦ str_eq s "verified"
  | some (arr xs) ↦ false
  | some (obj d) ↦ false
]

abbrev pub also : {A : Type 0} → Request → A × List Request → A × List Request
also r (out, sent) = (out, r ∷ sent)

-- The result, and the requests that were sent. The cancellation's own failure is only logged.
unfoldable pub wait_for_verification : Json → ℕ → List Poll → Outcome Fields × List Request
wait_for_verification job_id timeout_at [] = (waiting, [])
wait_for_verification job_id timeout_at (p ∷ ps) =
    let rest = wait_for_verification job_id timeout_at ps in
    if ltb p.now timeout_at
    then also (get_job job_id) (elim p.response [
      | http_error status ↦ (raised status, [])
      | broken ↦ (failed, [])
      | body job ↦ if is_verified_job job then (done job, []) else rest
    ])
    else (refused 503 "Verification timeout", cancel_job job_id ∷ [])

-- The body of `POST /internal/jobs/create`.
abbrev pub created_body : String → String → Fields → String → Fields
created_body client_id job_type payload request_id = field "client_id" (str client_id) (
    field "job_type" (str job_type)
      (field "payload" (obj payload) (field "request_id" (str request_id) end)))

-- The job's id. 402 and 429 are both an empty balance; a body without the id is `KeyError`.
unfoldable pub create_job : Response → Outcome Json
create_job (http_error status) =
    if status == 402 || status == 429 then refused 402 "Insufficient balance" else raised status
create_job (body created) = elim (get "job_id" created) [ none ↦ failed | some id ↦ done id ]
create_job broken = failed

abbrev pub output_of : Outcome Fields × List Request → Outcome (Option Json) × List Request
output_of (done job, sent) = (done (get "output" job), sent)
output_of (refused status detail, sent) = (refused status detail, sent)
output_of (raised status, sent) = (raised status, sent)
output_of (failed, sent) = (failed, sent)
output_of (waiting, sent) = (waiting, sent)

-- The job is posted, and answered with `created`.
unfoldable pub run_job : Fields → Response → ℕ → List Poll → Outcome (Option Json) × List Request
run_job posted created timeout_at polls = also (post_job posted) (elim (create_job created) [
  | done job_id ↦ output_of (wait_for_verification job_id timeout_at polls)
  | refused code detail ↦ (refused code detail, [])
  | raised code ↦ (raised code, [])
  | failed ↦ (failed, [])
  | waiting ↦ (waiting, [])
])
