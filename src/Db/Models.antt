-- ===== src/Db/Models.antt =====
-- The rows of pool-coordinator/app/db/models. A row holds the columns that decide something here;
-- `created_at` stands where a query reads it. Ids, counts and instants are numbers, an instant in
-- microseconds; a `Numeric(18, 8)` amount is a signed number of units of 0.00000001.
use open_mesh_ai.Prelude.{ℕ, Bool, Option, String, ℤ}
use open_mesh_ai.Json.{Fields}
use open_mesh_ai.Decimal.Order.{Decimal}
use open_mesh_ai.Db.Enums.{
  Role, WorkerStatus, JobType, JobStatus, AssignmentStatus, OwnerType, VerificationStatus,
}

pub record User : Type 0 where
  pub id : ℕ
  pub email : String
  pub role : Role
  pub is_active : Bool
  pub password_hash : Option String

pub record ApiKey : Type 0 where
  pub id : ℕ
  pub user_id : ℕ
  pub name : String
  pub key_prefix : String
  pub key_hash : String
  pub revoked : Bool

pub record Account : Type 0 where
  pub id : ℕ
  pub owner_type : OwnerType
  pub owner_id : ℕ
  pub currency : String
  pub balance : ℤ

pub record LedgerEntry : Type 0 where
  pub id : ℕ
  pub account_id : ℕ
  pub job_id : Option ℕ
  pub assignment_id : Option ℕ
  pub amount : ℤ
  pub entry_type : String
  pub created_at : ℕ

pub record WorkerSettings : Type 0 where
  pub max_concurrency : ℤ
  pub heartbeat_timeout_seconds : ℤ
  pub accept_new_assignments : Bool

-- `specs_json` is a `dict` or absent; `settings` is the row of `worker_settings` for this worker.
pub record Worker : Type 0 where
  pub id : ℕ
  pub name : String
  pub owner_user_id : ℕ
  pub status : WorkerStatus
  pub region : Option String
  pub specs_json : Option Fields
  pub public_key : Option String
  pub last_seen_at : Option ℕ
  pub settings : Option WorkerSettings

pub record WorkerHeartbeat : Type 0 where
  pub worker_id : ℕ
  pub recorded_at : ℕ

pub record Job : Type 0 where
  pub id : ℕ
  pub created_by_user_id : Option ℕ
  pub job_type : JobType
  pub status : JobStatus
  pub payload : Fields
  pub priority : ℕ
  pub canonical_expected_hash : Option String
  pub is_audit_job : Bool

pub record Assignment : Type 0 where
  pub id : ℕ
  pub job_id : ℕ
  pub worker_id : Option ℕ
  pub status : AssignmentStatus
  pub assigned_at : ℕ
  pub finished_at : Option ℕ
  pub nonce : String

-- `assignment_id` is unique: a result is found by its assignment. The score is a `Decimal`.
pub record SubmissionResult : Type 0 where
  pub assignment_id : ℕ
  pub output : Option Fields
  pub error_message : Option String
  pub artifact_uri : Option String
  pub output_hash : Option String
  pub signature : Option String
  pub metrics_json : Option Fields
  pub verification_status : VerificationStatus
  pub verification_score : Option Decimal

pub record PoolSettings : Type 0 where
  pub audit_interval_jobs : ℤ
  pub audit_job_rate_bps : ℤ
  pub fraud_ban_threshold : ℤ
  pub embed_similarity_threshold : Decimal
  pub pool_fee_bps : ℤ

pub record PricingRule : Type 0 where
  pub id : ℕ
  pub name : String
  pub job_type : JobType
  pub unit_cost_tokens : ℤ
  pub is_active : Bool
  pub effective_from : ℕ

pub record Peer : Type 0 where
  pub peer_id : String
  pub url : String
  pub shared_secret : String
  pub last_seen : Option ℕ
