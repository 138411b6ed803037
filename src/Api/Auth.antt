-- ===== src/Api/Auth.antt =====
-- `register` and `login` of api/auth.py. Password hashes and tokens are those of argon2 and JWT:
-- `verify_password password hash` checks a password, `create_token kind user` makes a token.
use open_mesh_ai.Prelude.{
  ℕ, suc, Bool, true, false, not, some, [], ◌∷◌, ◌++◌, String, pos, str_eq, find_by, is_some,
}
use open_mesh_ai.Db.Enums.{Role, client, worker_owner, user}
use open_mesh_ai.Db.Models.{User, Account}
use open_mesh_ai.Db.Session.{Db}
use open_mesh_ai.Api.Reply.{Reply, ok, ◌>>=◌, ◌>>◌, require_that, or_refuse}

pub record RegisterRequest : Type 0 where
  pub email : String
  pub password : String
  pub role : String

-- `payload.role == "client"`
abbrev pub role_named : String → Role
role_named name = elim (str_eq name "client") [ true ↦ client | false ↦ worker_owner ]

abbrev pub has_email : String → User → Bool
has_email email u = str_eq u.email email

-- `password_hash` is `hash_password` of the password.
abbrev pub new_user : ℕ → String → RegisterRequest → User
new_user i password_hash payload = record {
  id = i;
  email = payload.email;
  role = role_named payload.role;
  is_active = true;
  password_hash = some password_hash;
}

abbrev pub usd_account : ℕ → ℕ → Account
usd_account i owner_id = record {
  id = i;
  owner_type = user;
  owner_id = owner_id;
  currency = "USD";
  balance = pos 0;
}

-- A client gets an account.
abbrev pub open_account : User → Db → Db
open_account u db = elim u.role [
  | client ↦ record db {
    accounts = db.accounts ++ usd_account db.next_account_id u.id ∷ [];
    next_account_id = suc db.next_account_id;
  }
  | worker_owner ↦ db
]

-- `next_id` is the id that the table's sequence gives.
unfoldable pub register : (String → String) → ℕ → RegisterRequest → Db → Reply (User × Db)
register hash_password next_id payload db = do
  require_that (not (is_some (find_by (has_email payload.email) db.users))) 409
      "Email already registered"
  let u = new_user next_id (hash_password payload.password) payload
  ok (u, open_account u (record db { users = db.users ++ u ∷ [] }))

pub record LoginRequest : Type 0 where
  pub email : String
  pub password : String

pub data TokenKind : Type 0 where
  access refresh : TokenKind

-- Without `expires_in`, the setting's lifetime in seconds.
pub record TokenResponse : Type 0 where
  pub access_token : String
  pub refresh_token : String

unfoldable pub login :
    (String → String → Bool) → (TokenKind → User → String) → LoginRequest → Db → Reply TokenResponse
login verify_password create_token payload db = do
  u ← or_refuse (find_by (has_email payload.email) db.users) 401 "Invalid credentials"
  hash ← or_refuse u.password_hash 401 "Invalid credentials"
  require_that (verify_password payload.password hash) 401 "Invalid credentials"
  ok (record { access_token = create_token access u; refresh_token = create_token refresh u })
