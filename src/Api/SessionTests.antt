-- ===== src/Api/SessionTests.antt =====
-- The theorems on logins, keys and the validation of a submission.
use open_mesh_ai.Prelude.{
  ◌≤◌, ◌≡◌, refl, false, none, some, [], ◌∷◌, str_eq, if◌then◌else◌, join, take_text,
}
use open_mesh_ai.Json.{Fields, end, field, str, get, dumps}
use open_mesh_ai.Db.Models.{User}
use open_mesh_ai.Db.Session.{Db}
use open_mesh_ai.Samples.{buyer, owner, pool_with}
use open_mesh_ai.Api.Reply.{ok}
use open_mesh_ai.Api.Users.{require_roles}
use open_mesh_ai.Api.Auth.{access, refresh, LoginRequest, TokenResponse}
use open_mesh_ai.Api.Tokens.{Jwt, TokenSettings, claims_of}
use open_mesh_ai.Api.Sessions.{expiry}
use open_mesh_ai.Api.Keys.{create_api_key, committed, generate_api_key_material}
use open_mesh_ai.Api.Submit.{JobSubmitRequest}
use open_mesh_ai.Api.Validated.{
  IsOneOf, key_count, json_size, max_metrics_keys, max_json_payload_chars, validate_submission,
  validate_submission-IsOneOf,
}

abbrev member : User
member = record buyer { password_hash = some "secret" }

abbrev members : Db
members = record (pool_with [] [] [] []) { users = member ∷ owner ∷ [] }

abbrev quarter : TokenSettings
quarter = record { access_token_ttl_minutes = 15; refresh_token_ttl_minutes = 20_160 }

-- A token is the kind alone, and only the member has one.
abbrev kinds : Jwt
kinds = record {
  encode = λ claims. elim (get "type" claims) [ some (str s) ↦ s | _ ↦ "" ];
  decode = λ now token.
      if str_eq token "access"
      then some (claims_of access member (expiry quarter 100 access))
      else if str_eq token "refresh"
      then some (claims_of refresh member (expiry quarter 100 refresh))
      else none;
}

abbrev entry : LoginRequest
entry = record { email = "buyer@example.org"; password = "secret" }

abbrev entered : TokenResponse
entered = record { access_token = "access"; refresh_token = "refresh" }

-- The answer holds the key, the row its first twelve characters and its digest.
new_key :
    create_api_key (λ s. "digest") committed 4 "0123456789abcdef" "laptop" buyer []
    ≡ ok (
      record { id = 4; name = "laptop"; key_prefix = "omk_01234567"; key = "omk_0123456789abcdef" },
      record {
        id = 4;
        user_id = 1;
        name = "laptop";
        key_prefix = "omk_01234567";
        key_hash = "digest";
        revoked = false;
      }
          ∷ [],
    )
unfolding create_api_key require_roles generate_api_key_material join take_text
new_key = refl

abbrev failed_run : JobSubmitRequest
failed_run = record {
  worker_id = 7;
  assignment_id = 1;
  nonce = "n1";
  signature = "s";
  output = none;
  error_message = some "out of memory";
  artifact_uri = none;
  output_hash = none;
  metrics_json = some (field "seconds" (str "3") end);
}

validate_submission-IsOneOf_example :
    IsOneOf none (some "out of memory")
    × ((metrics : Fields)
        → some (field "seconds" (str "3") end) ≡ some metrics
        → (key_count metrics ≤ max_metrics_keys) × (json_size metrics ≤ max_json_payload_chars))
unfolding validate_submission dumps
validate_submission-IsOneOf_example = validate_submission-IsOneOf failed_run refl
