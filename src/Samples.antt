-- ===== src/Samples.antt =====
-- A pool with one client, one worker and one embedding job, for the tests: the rows of a deployment
-- with its books in order.
use open_mesh_ai.Prelude.{
  ℕ, ◌+◌, ◌*◌, ◌/◌, true, false, none, some, List, [], ◌∷◌, String, pos, pos_part, leb, ◌==◌,
  if◌then◌else◌,
}
use open_mesh_ai.Decimal.Order.{fin}
use open_mesh_ai.Json.{float, str, Fields, end, field}
use open_mesh_ai.Db.Enums.{
  client, worker_owner, online, embedding, running, JobStatus, AssignmentStatus, user, verified,
}
use open_mesh_ai.Db.Models.{
  User, Account, LedgerEntry, WorkerSettings, Worker, Job, Assignment, SubmissionResult,
  PoolSettings, PricingRule,
}
use open_mesh_ai.Db.Session.{Db, empty_db}
use open_mesh_ai.Verification.Floats.{Floats}

-- Whole numbers in the place of floats.
abbrev pub whole_floats : Floats ℕ
whole_floats = record {
  zero = 0;
  of_int = pos_part;
  of_text = λ s. 0;
  of_decimal = λ d. 1;
  repr = λ x. "0.51";
  add = λ a b. a + b;
  mul = λ a b. a * b;
  sqrt = λ a. a;
  is_zero = λ a. a == 0;
  div = λ a b. if b == 0 then none else some (a / b);
  geb = λ a b. leb b a;
}

abbrev pub buyer : User
buyer = record {
  id = 1;
  email = "buyer@example.org";
  role = client;
  is_active = true;
  password_hash = none;
}

abbrev pub owner : User
owner = record {
  id = 2;
  email = "owner@example.org";
  role = worker_owner;
  is_active = true;
  password_hash = none;
}

abbrev pub roomy : WorkerSettings
roomy = record {
  max_concurrency = pos 2;
  heartbeat_timeout_seconds = pos 30;
  accept_new_assignments = true;
}

-- 43 characters for 32 bytes, 86 for 64.
abbrev pub public_key_text : String
public_key_text = "AAAAAAAAAAAAAAAAAAAAAAAAAAAAAAAAAAAAAAAAAAA"

abbrev pub signature_text : String
signature_text =
    "AAAAAAAAAAAAAAAAAAAAAAAAAAAAAAAAAAAAAAAAAAAAAAAAAAAAAAAAAAAAAAAAAAAAAAAAAAAAAAAAAAAAAA"

abbrev pub worker_with : Fields → Worker
worker_with specs = record {
  id = 7;
  name = "gpu-7";
  owner_user_id = 2;
  status = online;
  region = none;
  specs_json = some specs;
  public_key = some public_key_text;
  last_seen_at = none;
  settings = some roomy;
}

abbrev pub gpu : Worker
gpu = worker_with (field "reputation" (float "0.5") end)

abbrev pub job_in : JobStatus → Job
job_in status = record {
  id = 1;
  created_by_user_id = some 1;
  job_type = embedding;
  status = status;
  payload = field "input" (str "hello") end;
  priority = 5;
  canonical_expected_hash = some "h1";
  is_audit_job = false;
}

abbrev pub handed_out : Assignment
handed_out = record {
  id = 1;
  job_id = 1;
  worker_id = some 7;
  status = AssignmentStatus.assigned;
  assigned_at = 10;
  finished_at = none;
  nonce = "n1";
}

abbrev pub finished : Assignment
finished = record handed_out { status = AssignmentStatus.completed; finished_at = some 20 }

abbrev pub good_result : SubmissionResult
good_result = record {
  assignment_id = 1;
  output = some end;
  error_message = none;
  artifact_uri = none;
  output_hash = some "h1";
  signature = some signature_text;
  metrics_json = none;
  verification_status = verified;
  verification_score = none;
}

abbrev pub pool : PoolSettings
pool = record {
  audit_interval_jobs = pos 0;
  audit_job_rate_bps = pos 0;
  fraud_ban_threshold = pos 1;
  embed_similarity_threshold = fin (pos 985) 3;
  pool_fee_bps = pos 500;
}

abbrev pub price : PricingRule
price = record {
  id = 1;
  name = "embedding";
  job_type = embedding;
  unit_cost_tokens = pos 300_000_000;
  is_active = true;
  effective_from = 0;
}

-- The buyer was given tokens; the ledger says so.
abbrev pub grant : LedgerEntry
grant = record {
  id = 1;
  account_id = 1;
  job_id = none;
  assignment_id = none;
  amount = pos 1_000_000_000;
  entry_type = "grant";
  created_at = 1;
}

abbrev pub buyer_account : Account
buyer_account = record {
  id = 1;
  owner_type = user;
  owner_id = 1;
  currency = "TOK";
  balance = pos 1_000_000_000;
}

abbrev pub pool_with : List Worker → List Job → List Assignment → List SubmissionResult → Db
pool_with ws js as_rows rs = record empty_db {
  users = buyer ∷ owner ∷ [];
  workers = ws;
  jobs = js;
  assignments = as_rows;
  results = rs;
  accounts = buyer_account ∷ [];
  ledger = grant ∷ [];
  pool_settings = some pool;
  pricing_rules = price ∷ [];
  next_job_id = 2;
  next_assignment_id = 2;
  next_account_id = 2;
  next_entry_id = 2;
}

-- The job is running on the worker; nothing is submitted.
abbrev pub running_pool : Db
running_pool = pool_with (gpu ∷ []) (job_in running ∷ []) (handed_out ∷ []) []

-- The job waits.
abbrev pub waiting_pool : Db
waiting_pool = pool_with (gpu ∷ []) (job_in JobStatus.queued ∷ []) [] []
