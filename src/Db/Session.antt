-- ===== src/Db/Session.antt =====
-- The tables that one SQLAlchemy session works on, in the order of their primary keys. A sequence
-- gives the next id of each table whose ids the code reads. The session is made with
-- `autoflush=False`; the operations here write at once, and every query of the services that could
-- tell the difference is modelled where it stands.
use open_mesh_ai.Prelude.{ℕ, Option, none, List, [], ◌==◌, find_by, update_by}
use open_mesh_ai.Db.Models.{
  User, Account, LedgerEntry, Worker, WorkerHeartbeat, Job, Assignment, SubmissionResult,
  PoolSettings, PricingRule, Peer,
}

pub record Db : Type 0 where
  pub users : List User
  pub workers : List Worker
  pub heartbeats : List WorkerHeartbeat
  pub jobs : List Job
  pub assignments : List Assignment
  pub results : List SubmissionResult
  pub accounts : List Account
  pub ledger : List LedgerEntry
  pub pool_settings : Option PoolSettings
  pub pricing_rules : List PricingRule
  pub peers : List Peer
  pub next_job_id : ℕ
  pub next_assignment_id : ℕ
  pub next_account_id : ℕ
  pub next_entry_id : ℕ

-- `db.get(Job, id)` and the like.
abbrev pub job_by_id : ℕ → Db → Option Job
job_by_id i db = find_by (λ j. j.id == i) db.jobs

abbrev pub worker_by_id : ℕ → Db → Option Worker
worker_by_id i db = find_by (λ w. w.id == i) db.workers

abbrev pub assignment_by_id : ℕ → Db → Option Assignment
assignment_by_id i db = find_by (λ a. a.id == i) db.assignments

-- `assignment.result`
abbrev pub result_of : ℕ → Db → Option SubmissionResult
result_of i db = find_by (λ r. r.assignment_id == i) db.results

-- Writes to a loaded object reach the row with its primary key.
abbrev pub update_job : ℕ → (Job → Job) → Db → Db
update_job i f db = record db { jobs = update_by (λ j. j.id == i) f db.jobs }

abbrev pub update_worker : ℕ → (Worker → Worker) → Db → Db
update_worker i f db = record db { workers = update_by (λ w. w.id == i) f db.workers }

abbrev pub update_assignment : ℕ → (Assignment → Assignment) → Db → Db
update_assignment i f db = record db { assignments = update_by (λ a. a.id == i) f db.assignments }

abbrev pub update_result : ℕ → (SubmissionResult → SubmissionResult) → Db → Db
update_result i f db = record db { results = update_by (λ r. r.assignment_id == i) f db.results }

abbrev pub empty_db : Db
empty_db = record {
  users = [];
  workers = [];
  heartbeats = [];
  jobs = [];
  assignments = [];
  results = [];
  accounts = [];
  ledger = [];
  pool_settings = none;
  pricing_rules = [];
  peers = [];
  next_job_id = 1;
  next_assignment_id = 1;
  next_account_id = 1;
  next_entry_id = 1;
}
