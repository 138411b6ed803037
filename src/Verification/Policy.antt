-- ===== src/Verification/Policy.antt =====
-- `load_audit_policy` and `should_mark_new_job_as_audit` of verification.py.
use open_mesh_ai.Prelude.{
  ◌%◌, Bool, false, not, ◌||◌, Option, none, some, ℤ, pos, pos_part, leb_ℤ, ◌==◌, if◌then◌else◌,
  length,
}
use open_mesh_ai.Decimal.Order.{Decimal, fin}
use open_mesh_ai.Db.Models.{PoolSettings}
use open_mesh_ai.Db.Session.{Db}

-- The threshold is the `Decimal` of the column; the code compares with its nearest `float`.
pub record AuditPolicy : Type 0 where
  pub audit_interval_jobs : ℤ
  pub audit_job_rate_bps : ℤ
  pub embed_similarity_threshold : Decimal
  pub fraud_ban_threshold : ℤ

abbrev pub policy_of : Option PoolSettings → AuditPolicy
policy_of none = record {
  audit_interval_jobs = pos 0;
  audit_job_rate_bps = pos 0;
  embed_similarity_threshold = fin (pos 985) 3;
  fraud_ban_threshold = pos 2;
}
policy_of (some s) = record {
  audit_interval_jobs = s.audit_interval_jobs;
  audit_job_rate_bps = s.audit_job_rate_bps;
  embed_similarity_threshold = s.embed_similarity_threshold;
  fraud_ban_threshold = s.fraud_ban_threshold;
}

unfoldable pub load_audit_policy : Db → AuditPolicy
load_audit_policy db = policy_of db.pool_settings

-- The interval is positive where the remainder is taken.
unfoldable pub should_mark_new_job_as_audit : Db → Bool
unfolding load_audit_policy
should_mark_new_job_as_audit db =
    let policy = load_audit_policy db in
    let total_jobs = length db.assignments in
    if leb_ℤ policy.audit_interval_jobs (pos 0) || leb_ℤ policy.audit_job_rate_bps (pos 0)
    then false
    else if total_jobs == 0
    then false
    else if not (total_jobs % pos_part policy.audit_interval_jobs == 0)
    then false
    else leb_ℤ (pos 10_000) policy.audit_job_rate_bps
