-- ===== src/Api/Jobs.antt =====
-- `create_internal_job`, `heartbeat_worker` and `poll_job` of api/jobs.py. An answer comes with the
-- rows as they are after the request; a refusal leaves them.
use open_mesh_ai.Prelude.{
  ℕ, Bool, false, ◌&&◌, Option, none, some, List, [], ◌∷◌, ◌++◌, String, ◌==◌, leb, if◌then◌else◌,
  is_empty, filter_by,
}
use open_mesh_ai.Decimal.Order.{Decimal}
use open_mesh_ai.Json.{Fields, str, setdefault}
use open_mesh_ai.Db.Enums.{JobType, online, JobStatus, queued, is_assigned}
use open_mesh_ai.Db.Models.{User, Worker, Assignment}
use open_mesh_ai.Db.Session.{Db, job_by_id, update_worker}
use open_mesh_ai.Dispatch.Queueing.{create_queued_job}
use open_mesh_ai.Api.Reply.{Reply, ok, ◌>>=◌, or_refuse}
use open_mesh_ai.Api.Users.{get_owned_worker}

pub record InternalJobCreateRequest : Type 0 where
  pub request_id : Option String
  pub created_by_user_id : Option ℕ
  pub payload : Fields
  pub job_type : JobType
  pub priority : ℕ
  pub price_multiplier : Decimal

pub record InternalJobCreateResponse : Type 0 where
  pub job_id : ℕ
  pub status : JobStatus
  pub estimated_units : ℕ
  pub price_multiplier : Decimal

-- `if payload.request_id: job_payload.setdefault("request_id", …)`
abbrev pub with_request_id : Option String → Fields → Fields
with_request_id none payload = payload
with_request_id (some i) payload =
    if is_empty i then payload else setdefault "request_id" (str i) payload

unfoldable pub create_internal_job :
    (Decimal → String) → InternalJobCreateRequest → Db → Reply (InternalJobCreateResponse × Db)
create_internal_job float_text payload db =
    let ((job, estimated_units), db') =
      create_queued_job float_text payload.created_by_user_id
        (with_request_id payload.request_id payload.payload) payload.job_type payload.priority
        payload.price_multiplier db in
    ok (
      record {
        job_id = job.id;
        status = queued;
        estimated_units = estimated_units;
        price_multiplier = payload.price_multiplier;
      },
      db',
    )

abbrev pub seen_online : ℕ → Worker → Worker
seen_online now w = record w { last_seen_at = some now; status = online }

-- The worker's id and the instant.
unfoldable pub heartbeat_worker : ℕ → ℕ → User → Db → Reply ((ℕ × ℕ) × Db)
heartbeat_worker now worker_id current_user db = do
  w ← get_owned_worker worker_id current_user.id db
  let rows = update_worker w.id (seen_online now) db
  ok (
    (w.id, now),
    record rows {
      heartbeats = db.heartbeats ++ record { worker_id = w.id; recorded_at = now } ∷ [];
    },
  )

abbrev pub is_given_to : ℕ → Assignment → Bool
is_given_to i a = elim a.worker_id [ none ↦ false | some j ↦ j == i ]

-- `ORDER BY assigned_at ASC`, the first row: of two rows at one instant, the first.
abbrev pub earlier : Assignment → Option Assignment → Assignment
earlier a none = a
earlier a (some b) = if leb a.assigned_at b.assigned_at then a else b

abbrev pub earliest : List Assignment → Option Assignment
earliest [] = none
earliest (a ∷ rows) = some (earlier a (earliest rows))

abbrev pub waiting_for : ℕ → Db → List Assignment
waiting_for i db = filter_by (λ a. is_given_to i a && is_assigned a.status) db.assignments

pub record JobPollResponse : Type 0 where
  pub assignment_id : ℕ
  pub job : Fields
  pub nonce : String
  pub cost_hint_tokens : ℕ

unfoldable pub poll_job : ℕ → User → Db → Reply JobPollResponse
poll_job worker_id current_user db = do
  w ← get_owned_worker worker_id current_user.id db
  a ← or_refuse (earliest (waiting_for w.id db)) 404 "No assignment available"
  j ← or_refuse (job_by_id a.job_id db) 404 "No assignment available"
  ok (record {
    assignment_id = a.id;
    job = j.payload;
    nonce = a.nonce;
    cost_hint_tokens = j.priority;
  })
