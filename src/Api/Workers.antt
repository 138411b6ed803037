-- ===== src/Api/Workers.antt =====
-- api/workers.py: a worker-owner registers a worker and lists its own.
use open_mesh_ai.Prelude.{
  ℕ, Bool, Option, none, List, [], ◌∷◌, ◌++◌, String, ◌==◌, str_eq, find_by, filter_by, is_some,
  not,
}
use open_mesh_ai.Json.{Fields}
use open_mesh_ai.Db.Enums.{offline}
use open_mesh_ai.Db.Models.{User, Worker}
use open_mesh_ai.Db.Session.{Db}
use open_mesh_ai.Api.Reply.{Reply, ok, ◌>>◌, require_that}

pub record WorkerRegisterRequest : Type 0 where
  pub name : String
  pub region : Option String
  pub specs_json : Option Fields
  pub public_key : Option String

abbrev pub has_name : String → Worker → Bool
has_name name w = str_eq w.name name

abbrev pub new_worker : ℕ → User → WorkerRegisterRequest → Worker
new_worker i current_user payload = record {
  id = i;
  name = payload.name;
  owner_user_id = current_user.id;
  status = offline;
  region = payload.region;
  specs_json = payload.specs_json;
  public_key = payload.public_key;
  last_seen_at = none;
  settings = none;
}

-- `next_id` is the id that the table's sequence gives. `IntegrityError` is a name that is taken.
unfoldable pub register_worker : ℕ → User → WorkerRegisterRequest → Db → Reply (Worker × Db)
register_worker next_id current_user payload db = do
  require_that (not (is_some (find_by (has_name payload.name) db.workers))) 409
      "Worker name already exists"
  let w = new_worker next_id current_user payload
  ok (w, record db { workers = db.workers ++ w ∷ [] })

unfoldable pub list_workers : User → Db → List Worker
list_workers current_user db = filter_by (λ w. w.owner_user_id == current_user.id) db.workers
