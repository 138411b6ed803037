-- ===== src/Api/Users.antt =====
-- `get_current_user` and `require_roles` of api/dependencies/auth.py, and `_get_owned_worker` of
-- api/jobs.py. `subject` is the id in the token, and `none` where the token is not valid.
use open_mesh_ai.Prelude.{ℕ, Bool, false, ◌&&◌, Option, List, [], ◌∷◌, ◌==◌, find_by, ◌||◌}
use open_mesh_ai.Db.Enums.{Role, role_eq}
use open_mesh_ai.Db.Models.{User, Worker}
use open_mesh_ai.Db.Session.{Db}
use open_mesh_ai.Api.Reply.{Reply, ok, ◌>>=◌, ◌>>◌, require_that, or_refuse}

unfoldable pub get_current_user : Option ℕ → Db → Reply User
get_current_user subject db = do
  user_id ← or_refuse subject 401 "Invalid token"
  user ← or_refuse (find_by (λ u. u.id == user_id) db.users) 401 "User not available"
  require_that user.is_active 401 "User not available"
  ok user

abbrev pub has_role : Role → List Role → Bool
has_role role [] = false
has_role role (r ∷ rs) = role_eq role r || has_role role rs

unfoldable pub require_roles : List Role → User → Reply User
require_roles roles current_user = do
  require_that (has_role current_user.role roles) 403 "Insufficient role"
  ok current_user

unfoldable pub get_owned_worker : ℕ → ℕ → Db → Reply Worker
get_owned_worker worker_id owner_user_id db =
    or_refuse (find_by (λ w. w.id == worker_id && w.owner_user_id == owner_user_id) db.workers) 404
      "Worker not found"
