-- ===== src/Finance/Accounting.antt =====
-- `apply_job_verification_accounting`. The early returns and the price are `posting_of`; what is
-- written, when none of them is taken, is `settle`. The session does not flush by itself: a later call sees
-- the entries once the request has committed them.
use open_mesh_ai.Prelude.{
  ℕ, Bool, false, not, ◌&&◌, Option, none, some, ℤ, pos, ◌-ℤ◌, neg, ◌==◌, str_eq, find_by, is_some,
  ◌>>=◌, ◌>>◌, require,
}
use open_mesh_ai.Db.Enums.{user, system, is_verified, is_void_assignment, is_void_job}
use open_mesh_ai.Db.Models.{Assignment, SubmissionResult, PoolSettings, Worker, LedgerEntry}
use open_mesh_ai.Db.Session.{Db, job_by_id, worker_by_id}
use open_mesh_ai.Finance.Accounts.{
  get_or_create_account, create_ledger_entry, pool_account_owner_id, token_currency,
}
use open_mesh_ai.Finance.Pricing.{estimate_payload_units, active_pricing_rule, job_cost, fee_of}

-- `assignment.worker`
abbrev pub worker_of : Assignment → Db → Option Worker
worker_of a db = a.worker_id >>= λ i. worker_by_id i db

abbrev pub is_charge_of : ℕ → LedgerEntry → Bool
is_charge_of i e =
    (elim e.assignment_id [ none ↦ false | some j ↦ j == i ]) && str_eq e.entry_type "job_charge"

abbrev pub pool_fee_bps_of : Option PoolSettings → ℤ
pool_fee_bps_of none = pos 0
pool_fee_bps_of (some s) = s.pool_fee_bps

-- Who pays, who is paid, and how much.
pub record Posting : Type 0 where
  pub client_id : ℕ
  pub worker_owner_id : ℕ
  pub cost : ℤ
  pub pool_fee : ℤ

unfoldable pub posting_of : Assignment → SubmissionResult → Db → Option Posting
posting_of a result db = do
  require (is_verified result.verification_status)
  w ← worker_of a db
  j ← job_by_id a.job_id db
  client_id ← j.created_by_user_id
  require (not (is_void_assignment a.status))
  require (not (is_void_job j.status))
  require (not (is_some (find_by (is_charge_of a.id) db.ledger)))
  rule ← active_pricing_rule j.job_type db.pricing_rules
  let cost = job_cost (estimate_payload_units j.payload) rule.unit_cost_tokens
  some (record {
    client_id = client_id;
    worker_owner_id = w.owner_user_id;
    cost = cost;
    pool_fee = fee_of cost (pool_fee_bps_of db.pool_settings);
  })

unfoldable pub settle : ℕ → Assignment → Posting → Db → Db
settle now a p db =
    let (client_account, db1) = get_or_create_account user p.client_id token_currency db in
    let (pool_account, db2) =
      get_or_create_account system pool_account_owner_id token_currency db1 in
    let (owner_account, db3) = get_or_create_account user p.worker_owner_id token_currency db2 in
    let db4 =
      create_ledger_entry now client_account.id (neg p.cost) "job_charge" (some a.job_id)
        (some a.id) db3 in
    let db5 =
      create_ledger_entry now pool_account.id p.pool_fee "pool_fee" (some a.job_id) (some a.id)
        db4 in
    create_ledger_entry now owner_account.id (p.cost -ℤ p.pool_fee) "worker_reward" (some a.job_id)
      (some a.id) db5

unfoldable pub apply_job_verification_accounting : ℕ → Assignment → SubmissionResult → Db → Db
apply_job_verification_accounting now a result db = elim (posting_of a result db) [
  | none ↦ db
  | some p ↦ settle now a p db
]
