-- ===== src/Dispatch/Queueing.antt =====
-- `create_queued_job` of job_dispatcher.py, and the order of the queue that `assign_queued_jobs`
-- reads.
use open_mesh_ai.Prelude.{
  ℕ, suc, Bool, false, ◌&&◌, ◌||◌, Option, none, List, [], ◌∷◌, ◌++◌, String, ltb, ◌==◌,
  if◌then◌else◌, take, filter_by,
}
use open_mesh_ai.Decimal.Order.{Decimal}
use open_mesh_ai.Json.{Fields, float, setdefault}
use open_mesh_ai.Db.Enums.{JobType, queued, is_queued}
use open_mesh_ai.Db.Models.{Job}
use open_mesh_ai.Db.Session.{Db}
use open_mesh_ai.Finance.Pricing.{estimate_payload_units}

-- `float_text d` is `repr(float(d))`, the double nearest to `d` as its shortest text. The flush gives
-- the job its id; the columns that the call leaves out take their defaults.
unfoldable pub create_queued_job :
    (Decimal → String) → Option ℕ → Fields → JobType → ℕ → Decimal → Db → (Job × ℕ) × Db
create_queued_job float_text created_by_user_id payload job_type priority price_multiplier db = (
  (job, estimate_payload_units payload),
  record db { jobs = db.jobs ++ job ∷ []; next_job_id = suc db.next_job_id },
)
  where
    job : Job
    job = record {
      id = db.next_job_id;
      created_by_user_id = created_by_user_id;
      job_type = job_type;
      status = queued;
      payload = setdefault "price_multiplier" (float (float_text price_multiplier)) payload;
      priority = priority;
      canonical_expected_hash = none;
      is_audit_job = false;
    }

-- `ORDER BY priority DESC, id ASC`
abbrev pub comes_before : Job → Job → Bool
comes_before j k = ltb k.priority j.priority || (k.priority == j.priority && ltb j.id k.id)

unfoldable pub enqueue : Job → List Job → List Job
enqueue j [] = j ∷ []
enqueue j (k ∷ ks) = let rest = enqueue j ks in if comes_before k j then k ∷ rest else j ∷ k ∷ ks

unfoldable pub in_order : List Job → List Job
in_order [] = []
in_order (j ∷ js) = enqueue j (in_order js)

-- The first `limit` queued jobs. No other session holds a lock on them: `skip_locked` skips none.
unfoldable pub queued_jobs : ℕ → Db → List Job
queued_jobs limit db = take limit (in_order (filter_by (λ j. is_queued j.status) db.jobs))
