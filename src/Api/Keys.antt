-- ===== src/Api/Keys.antt =====
-- `create_api_key` of api/auth.py, with services/api_keys.py. The table of keys, which no other code
-- reads, stands beside the session. `secret` is what `secrets.token_urlsafe` gives, `sha256` the digest in
-- hexadecimal, and the commit ends as it ends.
use open_mesh_ai.Prelude.{ℕ, false, List, [], ◌∷◌, ◌++◌, String, join, take_text}
use open_mesh_ai.Db.Enums.{client}
use open_mesh_ai.Db.Models.{User, ApiKey}
use open_mesh_ai.Api.Reply.{Reply, ok, refused, ◌>>=◌}
use open_mesh_ai.Api.Users.{require_roles}

pub record GeneratedApiKey : Type 0 where
  pub raw_key : String
  pub key_hash : String
  pub key_prefix : String

abbrev pub extract_prefix : String → String
extract_prefix raw_key = take_text 12 raw_key

unfoldable pub generate_api_key_material : (String → String) → String → GeneratedApiKey
generate_api_key_material sha256 secret =
    let raw_key = join "" ("omk" ∷ "_" ∷ secret ∷ []) in
    record { raw_key = raw_key; key_hash = sha256 raw_key; key_prefix = extract_prefix raw_key }

pub data Commit : Type 0 where
  committed : Commit
  -- `IntegrityError`, and another `SQLAlchemyError`
  integrity_error : Commit
  database_error : Commit

pub record ApiKeyResponse : Type 0 where
  pub id : ℕ
  pub name : String
  pub key_prefix : String
  pub key : String

abbrev pub key_row : ℕ → ℕ → String → GeneratedApiKey → ApiKey
key_row next_id user_id name material = record {
  id = next_id;
  user_id = user_id;
  name = name;
  key_prefix = material.key_prefix;
  key_hash = material.key_hash;
  revoked = false;
}

abbrev pub key_response : ApiKey → String → ApiKeyResponse
key_response row raw_key = record {
  id = row.id;
  name = row.name;
  key_prefix = row.key_prefix;
  key = raw_key;
}

abbrev pub after_commit :
    Commit → ApiKey → String → List ApiKey → Reply (ApiKeyResponse × List ApiKey)
after_commit committed row raw_key rows = ok (key_response row raw_key, rows ++ row ∷ [])
after_commit integrity_error row raw_key rows =
    refused 409 "Unable to create API key. Please retry."
after_commit database_error row raw_key rows = refused 500 "Unable to create API key."

-- `next_id` is the id that the table's sequence gives.
unfoldable pub create_api_key :
    (String → String)
    → Commit
    → ℕ
    → String
    → String
    → User
    → List ApiKey
    → Reply (ApiKeyResponse × List ApiKey)
create_api_key sha256 commit next_id secret name current_user rows = do
  user ← require_roles (client ∷ []) current_user
  let material = generate_api_key_material sha256 secret
  after_commit commit (key_row next_id user.id name material) material.raw_key rows
