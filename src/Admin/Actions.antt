-- ===== src/Admin/Actions.antt =====
-- `admin_finance_summary`, `enqueue_demo_jobs`, `list_jobs_admin`, `list_workers_admin`, `admin_emission_status` and
-- `admin_emission_run_now` of api/admin.py. A run of the emission is committed.
use open_mesh_ai.Prelude.{
  ℕ, zero, suc, ◌+◌, Bool, true, false, ◌&&◌, ◌||◌, Option, none, some, List, [], ◌∷◌, String, pos,
  ltb, ◌==◌, take, map, filter_by, text_of, join, if◌then◌else◌,
}
use open_mesh_ai.Decimal.Order.{Decimal, fin}
use open_mesh_ai.Json.{Fields, end, field, str, float}
use open_mesh_ai.Db.Enums.{
  worker_owner, JobType, JobStatus, queued, running, completed, failed, canceled,
}
use open_mesh_ai.Db.Models.{User, Job}
use open_mesh_ai.Db.Session.{Db}
use open_mesh_ai.Finance.Accounts.{FinanceSummary, get_finance_summary}
use open_mesh_ai.Dispatch.Queueing.{create_queued_job}
use open_mesh_ai.Emission.Run.{
  DailyEmissionStatus, DailyEmissionResult, get_daily_emission_status, run_daily_emission,
}
use open_mesh_ai.Admin.Workers.{AdminWorkerItem, worker_items}
use open_mesh_ai.Api.Reply.{Reply, ok, ◌>>=◌, or_fail}
use open_mesh_ai.Api.Users.{require_roles}

unfoldable pub admin_finance_summary : User → Db → Reply FinanceSummary
admin_finance_summary current_user db = do
  admin ← require_roles (worker_owner ∷ []) current_user
  ok (get_finance_summary db)

pub record AdminEnqueueDemoRequest : Type 0 where
  pub count : ℕ
  pub job_type : JobType
  pub priority : ℕ

abbrev pub demo_payload : ℕ → Fields
demo_payload index =
    field "prompt" (str (join "" ("demo-job-" ∷ text_of (index + 1) ∷ [])))
      (field "price_multiplier" (float "1.0") end)

-- `for index in range(payload.count)`, of which `count` are left.
abbrev pub enqueue_from : (Decimal → String) → JobType → ℕ → ℕ → ℕ → Db → Db
enqueue_from float_text job_type priority index zero db = db
enqueue_from float_text job_type priority index (suc count) db =
    enqueue_from float_text job_type priority (suc index) count
      (create_queued_job float_text none (demo_payload index) job_type priority (fin (pos 10) 1)
        db).1

unfoldable pub enqueue_demo_jobs :
    (Decimal → String) → AdminEnqueueDemoRequest → User → Db → Reply (ℕ × Db)
enqueue_demo_jobs float_text payload current_user db = do
  admin ← require_roles (worker_owner ∷ []) current_user
  ok (payload.count, enqueue_from float_text payload.job_type payload.priority 0 payload.count db)

abbrev pub job_status_eq : JobStatus → JobStatus → Bool
job_status_eq queued queued = true
job_status_eq running running = true
job_status_eq completed completed = true
job_status_eq failed failed = true
job_status_eq canceled canceled = true
job_status_eq _ _ = false

pub record JobAdminItem : Type 0 where
  pub id : ℕ
  pub job_type : JobType
  pub status : JobStatus
  pub priority : ℕ
  pub created_by_user_id : Option ℕ
  pub created_at : ℕ

abbrev pub admin_item : (ℕ → ℕ) → Job → JobAdminItem
admin_item created_at job = record {
  id = job.id;
  job_type = job.job_type;
  status = job.status;
  priority = job.priority;
  created_by_user_id = job.created_by_user_id;
  created_at = created_at job.id;
}

-- `ORDER BY created_at DESC, id DESC`
abbrev pub is_later : JobAdminItem → JobAdminItem → Bool
is_later j k = ltb k.created_at j.created_at || (j.created_at == k.created_at && ltb k.id j.id)

abbrev pub insert_item : JobAdminItem → List JobAdminItem → List JobAdminItem
insert_item j [] = j ∷ []
insert_item j (k ∷ ks) =
    let rest = insert_item j ks in if is_later k j then k ∷ rest else j ∷ k ∷ ks

abbrev pub latest_first : List JobAdminItem → List JobAdminItem
latest_first [] = []
latest_first (j ∷ js) = insert_item j (latest_first js)

abbrev pub with_status : Option JobStatus → Job → Bool
with_status none job = true
with_status (some status) job = job_status_eq job.status status

-- `created_at` is the column of the job with an id.
unfoldable pub list_jobs_admin : (ℕ → ℕ) → Option JobStatus → User → Db → Reply (List JobAdminItem)
list_jobs_admin created_at status current_user db = do
  admin ← require_roles (worker_owner ∷ []) current_user
  ok (
      take 200
        (latest_first (map (admin_item created_at) (filter_by (with_status status) db.jobs))))

-- The text of a spec that reads as no number ends the request.
unfoldable pub list_workers_admin : User → Db → Reply (List AdminWorkerItem)
list_workers_admin current_user db = do
  admin ← require_roles (worker_owner ∷ []) current_user
  or_fail (worker_items db db.workers)

unfoldable pub admin_emission_status : ℕ → ℕ → User → Db → Reply DailyEmissionStatus
admin_emission_status cap_tokens now current_user db = do
  admin ← require_roles (worker_owner ∷ []) current_user
  ok (get_daily_emission_status cap_tokens now db)

unfoldable pub admin_emission_run_now : ℕ → ℕ → ℕ → User → Db → Reply (DailyEmissionResult × Db)
admin_emission_run_now cap_tokens base_tokens now current_user db = do
  admin ← require_roles (worker_owner ∷ []) current_user
  or_fail (run_daily_emission cap_tokens base_tokens now db)
