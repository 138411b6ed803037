-- ===== src/Admin/Workers.antt =====
-- `list_workers_admin` of api/admin.py. A worker whose specs do not read as numbers makes the request
-- fail: `none`.
use open_mesh_ai.Prelude.{
  ℕ, ◌^◌, ◌/◌, true, false, ◌&&◌, Option, none, some, List, [], ◌∷◌, String, ℤ, pos, pos_part,
  neg_part, ◌-ℤ◌, count_by, is_empty, int_of_text, if◌then◌else◌, ◌>>=◌,
}
use open_mesh_ai.Decimal.Order.{Decimal, fin, infinity, nan}
use open_mesh_ai.Decimal.Parse.{parse}
use open_mesh_ai.Json.{
  Json, null, bool, int, float, str, arr, obj, nil, cons, end, field, decimal_of,
}
use open_mesh_ai.Db.Enums.{WorkerStatus, is_active}
use open_mesh_ai.Db.Models.{Worker, WorkerSettings, Assignment}
use open_mesh_ai.Db.Session.{Db}
use open_mesh_ai.Dispatch.Settings.{spec_of, default_reputation}
use open_mesh_ai.Api.Jobs.{is_given_to}

-- `Decimal(str(specs.get("reputation", 0.5)))`
abbrev pub shown_reputation : Option Json → Option Decimal
shown_reputation none = some default_reputation
shown_reputation (some v) = decimal_of v

-- A number without its fraction.
abbrev pub truncated : ℤ → ℕ → ℤ
truncated n places = pos (pos_part n / 10 ^ places) -ℤ pos (neg_part n / 10 ^ places)

-- `int(specs.get("estimated_latency_ms", 0) or 0)`
abbrev pub int_or_zero : Option Json → Option ℤ
int_or_zero none = some (pos 0)
int_or_zero (some null) = some (pos 0)
int_or_zero (some (bool true)) = some (pos 1)
int_or_zero (some (bool false)) = some (pos 0)
int_or_zero (some (int z)) = some z
int_or_zero (some (float r)) = elim (parse r) [
  | none ↦ none
  | some (fin n places) ↦ some (truncated n places)
  | some (infinity positive) ↦ none
  | some (nan signalling) ↦ none
]
int_or_zero (some (str s)) = if is_empty s then some (pos 0) else int_of_text s
int_or_zero (some (arr nil)) = some (pos 0)
int_or_zero (some (arr (cons x xs))) = none
int_or_zero (some (obj end)) = some (pos 0)
int_or_zero (some (obj (field k v d))) = none

pub record AdminWorkerItem : Type 0 where
  pub id : ℕ
  pub name : String
  pub owner_user_id : ℕ
  pub status : WorkerStatus
  pub reputation : Decimal
  pub estimated_latency_ms : ℤ
  pub active_jobs : ℕ
  pub max_parallel_jobs : ℤ

abbrev pub active_count : ℕ → Db → ℕ
active_count i db =
    count_by (λ (a : Assignment). is_given_to i a && is_active a.status) db.assignments

abbrev pub max_parallel : Option WorkerSettings → ℤ
max_parallel none = pos 1
max_parallel (some settings) = settings.max_concurrency

unfoldable pub worker_item : Db → Worker → Option AdminWorkerItem
worker_item db w = do
  reputation ← shown_reputation (spec_of w "reputation")
  latency ← int_or_zero (spec_of w "estimated_latency_ms")
  some (record {
    id = w.id;
    name = w.name;
    owner_user_id = w.owner_user_id;
    status = w.status;
    reputation = reputation;
    estimated_latency_ms = latency;
    active_jobs = active_count w.id db;
    max_parallel_jobs = max_parallel w.settings;
  })

-- The rows are in the order of their ids.
unfoldable pub worker_items : Db → List Worker → Option (List AdminWorkerItem)
worker_items db [] = some []
worker_items db (w ∷ ws) = do
  item ← worker_item db w
  items ← worker_items db ws
  some (item ∷ items)
