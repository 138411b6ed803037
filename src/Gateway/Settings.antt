-- ===== src/Gateway/Settings.antt =====
-- `Settings`, `_parse_bool` and `load_settings` of pool-gateway/app/main.py. The environment is a
-- function; a setting that is a float is what `float` makes of its text.
use open_mesh_ai.Prelude.{
  Bool, false, Option, none, some, List, [], ◌∷◌, String, ℤ, str_eq, is_empty, if◌then◌else◌, ◌||◌,
  strip, split, partition, is_on, int_of_text, ◌>>=◌,
}

pub record Settings (F : Type 0) : Type 0 where
  pub coordinator_url : String
  pub internal_token : String
  pub api_keys : List (String × String)
  pub rate_limit_per_minute_api_key : ℤ
  pub rate_limit_per_minute_ip : ℤ
  pub poll_timeout_seconds : F
  pub poll_interval_seconds : F
  pub cors_enabled : Bool
  pub cors_allow_origins : List String
  pub enable_prometheus_metrics : Bool

abbrev pub parse_bool : Option String → Bool → Bool
parse_bool none default = default
parse_bool (some value) default = is_on value

-- `api_keys.get(key)`
abbrev pub client_of : String → List (String × String) → Option String
client_of key [] = none
client_of key ((k, client_id) ∷ keys) = if str_eq k key then some client_id else client_of key keys

-- `api_keys[key] = client_id`
abbrev pub put_client : String → String → List (String × String) → List (String × String)
put_client key client_id [] = (key, client_id) ∷ []
put_client key client_id ((k, c) ∷ keys) =
    if str_eq k key then (k, client_id) ∷ keys else (k, c) ∷ put_client key client_id keys

-- One `client:key` of the list. The tests are on the texts before they are stripped.
abbrev pub add_item : String → List (String × String) → List (String × String)
add_item item keys =
    let (client_id, api_key) = partition b':' item in
    if is_empty (strip item) || (is_empty client_id || is_empty api_key)
    then keys
    else put_client (strip api_key) (strip client_id) keys

abbrev pub add_items : List String → List (String × String) → List (String × String)
add_items [] keys = keys
add_items (item ∷ items) keys = add_items items (add_item item keys)

unfoldable pub api_keys_of : String → List (String × String)
api_keys_of raw_keys = add_items (split b',' raw_keys) []

abbrev pub origins_of : List String → List String
origins_of [] = []
origins_of (origin ∷ origins) =
    let rest = origins_of origins in if is_empty (strip origin) then rest else strip origin ∷ rest

-- `os.getenv(name, default)`
abbrev pub or_default : Option String → String → String
or_default none default = default
or_default (some value) default = value

-- `none` where `int` or `float` raises.
unfoldable pub load_settings :
    {F : Type 0} → (String → Option F) → (String → Option String) → Option (Settings F)
load_settings float env = do
  per_key ← int_of_text (
      or_default (env "RATE_LIMIT_PER_MINUTE_API_KEY")
        (or_default (env "RATE_LIMIT_PER_MINUTE") "60"))
  per_ip ← int_of_text (or_default (env "RATE_LIMIT_PER_MINUTE_IP") "120")
  timeout ← float (or_default (env "POLL_TIMEOUT_SECONDS") "20")
  interval ← float (or_default (env "POLL_INTERVAL_SECONDS") "1.0")
  some (record {
    coordinator_url = or_default (env "COORDINATOR_URL") "http://localhost:8001";
    internal_token = or_default (env "COORDINATOR_INTERNAL_TOKEN") "dev-internal-token";
    api_keys = api_keys_of (or_default (env "GATEWAY_API_KEYS") "client-dev:dev-key");
    rate_limit_per_minute_api_key = per_key;
    rate_limit_per_minute_ip = per_ip;
    poll_timeout_seconds = timeout;
    poll_interval_seconds = interval;
    cors_enabled = parse_bool (env "CORS_ENABLED") false;
    cors_allow_origins = origins_of (split b',' (or_default (env "CORS_ALLOW_ORIGINS") ""));
    enable_prometheus_metrics = parse_bool (env "ENABLE_PROMETHEUS_METRICS") false;
  })
