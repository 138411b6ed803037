-- ===== src/Api/Tokens.antt =====
-- core/security.py: the tokens of `login`, and what `get_current_user` makes of one. `encode` and
-- `decode` are those of the JWT library with the secret and the algorithm of the settings; an instant is
-- a number of seconds.
use open_mesh_ai.Prelude.{
  ℕ, ◌+◌, ◌*◌, Bool, true, false, Option, none, some, String, ℤ, pos, negsuc, str_eq, text_of,
  int_of_text, ◌>>=◌, ◌>>◌, require,
}
use open_mesh_ai.Decimal.Order.{fin, infinity, nan}
use open_mesh_ai.Decimal.Parse.{parse}
use open_mesh_ai.Json.{Json, null, bool, int, float, str, arr, obj, Fields, end, field, get}
use open_mesh_ai.Db.Enums.{Role, client, worker_owner}
use open_mesh_ai.Db.Models.{User}
use open_mesh_ai.Db.Session.{Db}
use open_mesh_ai.Admin.Workers.{truncated}
use open_mesh_ai.Api.Reply.{Reply, ok, refused, server_error}
use open_mesh_ai.Api.Auth.{TokenKind, access, refresh}
use open_mesh_ai.Api.Users.{get_current_user}

-- A token that is not valid, or no longer, is `none`.
pub record Jwt : Type 0 where
  pub encode : Fields → String
  pub decode : ℕ → String → Option Fields

pub record TokenSettings : Type 0 where
  pub access_token_ttl_minutes : ℕ
  pub refresh_token_ttl_minutes : ℕ

abbrev pub kind_text : TokenKind → String
kind_text access = "access"
kind_text refresh = "refresh"

abbrev pub role_value : Role → String
role_value client = "client"
role_value worker_owner = "worker_owner"

abbrev pub ttl_of : TokenSettings → TokenKind → ℕ
ttl_of settings access = settings.access_token_ttl_minutes
ttl_of settings refresh = settings.refresh_token_ttl_minutes

-- `{"sub": …, "email": …, "role": …, "type": …}` with `exp`
abbrev pub claims_of : TokenKind → User → ℕ → Fields
claims_of kind u expires_at = field "sub" (str (text_of u.id)) (
    field "email" (str u.email) (
      field "role" (str (role_value u.role))
        (field "type" (str (kind_text kind)) (field "exp" (int (pos expires_at)) end))))

-- `create_access_token` and `create_refresh_token` without `expires_minutes`, as `login` calls them: the
-- token and its lifetime in seconds.
unfoldable pub create_token : Jwt → TokenSettings → ℕ → TokenKind → User → String × ℕ
create_token jwt settings now kind u =
    let ttl = 60 * ttl_of settings kind in (jwt.encode (claims_of kind u (now + ttl)), ttl)

abbrev pub is_text : String → Option Json → Bool
is_text s (some (str t)) = str_eq t s
is_text s none = false
is_text s (some null) = false
is_text s (some (bool b)) = false
is_text s (some (int z)) = false
is_text s (some (float r)) = false
is_text s (some (arr xs)) = false
is_text s (some (obj d)) = false

-- `payload.get("sub")` where it is not `None`.
abbrev pub present : Option Json → Option Json
present none = none
present (some null) = none
present (some (bool b)) = some (bool b)
present (some (int z)) = some (int z)
present (some (float r)) = some (float r)
present (some (str s)) = some (str s)
present (some (arr xs)) = some (arr xs)
present (some (obj d)) = some (obj d)

-- The subject of a valid token of the kind; `none` is `TokenValidationError`.
unfoldable pub validate_token : Jwt → ℕ → TokenKind → String → Option Json
validate_token jwt now expected token = do
  payload ← jwt.decode now token
  require (is_text (kind_text expected) (get "type" payload))
  present (get "sub" payload)

abbrev pub id_or_refuse : Option ℤ → Reply ℤ
id_or_refuse none = refused 401 "Invalid token"
id_or_refuse (some z) = ok z

-- `int(payload["sub"])`: `ValueError` is a refusal, `TypeError` and `OverflowError` are handled by nothing.
abbrev pub subject_id : Json → Reply ℤ
subject_id (str s) = id_or_refuse (int_of_text s)
subject_id (int z) = ok z
subject_id (bool true) = ok (pos 1)
subject_id (bool false) = ok (pos 0)
subject_id (float r) = elim (parse r) [
  | none ↦ refused 401 "Invalid token"
  | some (fin n places) ↦ ok (truncated n places)
  | some (infinity positive) ↦ server_error
  | some (nan signalling) ↦ refused 401 "Invalid token"
]
subject_id null = server_error
subject_id (arr xs) = server_error
subject_id (obj d) = server_error

-- `db.get(User, user_id)`: no user has a negative id.
abbrev pub user_of : Db → Reply ℤ → Reply User
user_of db (ok (pos i)) = get_current_user (some i) db
user_of db (ok (negsuc i)) = refused 401 "User not available"
user_of db (refused status detail) = refused status detail
user_of db server_error = server_error

unfoldable pub authenticate : Jwt → ℕ → String → Db → Reply User
authenticate jwt now token db = elim (validate_token jwt now access token) [
  | none ↦ refused 401 "Invalid token"
  | some subject ↦ user_of db (subject_id subject)
]
