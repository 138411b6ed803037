-- ===== src/Gateway/ClientTests.antt =====
-- The theorems on the keys and limits of the gateway at a table of two clients.
use open_mesh_ai.Prelude.{
  signed_digits, digits_from, ℕ, ◌≤◌, ◌≡◌, refl, false, none, some, List, [], ◌∷◌, String, pos,
  length, codes, All, In, ◌⊎◌, split, partition, lstrip, rstrip, count_by, arith, int_of_text,
}
use open_mesh_ai.Json.{end, field, str}
use open_mesh_ai.RateLimit.Bucket.{is_within}
use open_mesh_ai.RateLimit.Invariant.{is_call}
use open_mesh_ai.RateLimit.Gateway.{check}
use open_mesh_ai.RateLimit.Limiter.{limiter}
use open_mesh_ai.Gateway.Jobs.{body, Request, post_job, created_body, body}
use open_mesh_ai.Gateway.Settings.{Settings, client_of, api_keys_of, load_settings}
use open_mesh_ai.Gateway.Clients.{Sender, started, client_ip, get_client_id}
use open_mesh_ai.Gateway.Limited.{Arrival, served, gateway_limit}
use open_mesh_ai.Gateway.Endpoints.{RankRequest, rank_fields, Exchange, rank}
use open_mesh_ai.Gateway.Sent.{rank_sent}
use open_mesh_ai.Gateway.Configured.{Configures, api_keys_of-configured}

abbrev two_keys : String
two_keys = "alice: k1 ,,:k2,bob:k2"

two_keys-table : api_keys_of two_keys ≡ ("k1", "alice") ∷ ("k2", "bob") ∷ []
unfolding api_keys_of split partition lstrip rstrip
two_keys-table = refl

-- An item whose key is a space gives the empty key, which a request without a key has, to a client.
empty_key : client_of "" (api_keys_of "alice: ") ≡ some "alice"
unfolding api_keys_of split partition lstrip rstrip
empty_key = refl

api_keys_of-configured_example :
    (item : String) × In item (split b',' two_keys) × Configures item "k2" "bob"
unfolding api_keys_of split partition lstrip rstrip
api_keys_of-configured_example = api_keys_of-configured two_keys "k2" "bob" refl

-- `env` with nothing set; floats are texts.
load_settings_defaults :
    load_settings (λ s. some s) (λ name. none)
    ≡ some (record {
      coordinator_url = "http://localhost:8001";
      internal_token = "dev-internal-token";
      api_keys = ("dev-key", "client-dev") ∷ [];
      rate_limit_per_minute_api_key = pos 60;
      rate_limit_per_minute_ip = pos 120;
      poll_timeout_seconds = "20";
      poll_interval_seconds = "1.0";
      cors_enabled = false;
      cors_allow_origins = [];
      enable_prometheus_metrics = false;
    })
unfolding load_settings api_keys_of split partition lstrip rstrip int_of_text signed_digits
    digits_from
load_settings_defaults = refl

abbrev two_a_minute : Settings ℕ
two_a_minute = record {
  coordinator_url = "http://coordinator";
  internal_token = "token";
  api_keys = ("k1", "alice") ∷ ("k2", "bob") ∷ [];
  rate_limit_per_minute_api_key = pos 2;
  rate_limit_per_minute_ip = pos 2;
  poll_timeout_seconds = 20;
  poll_interval_seconds = 1;
  cors_enabled = false;
  cors_allow_origins = [];
  enable_prometheus_metrics = false;
}

abbrev from_proxy : String → String → Sender
from_proxy key address = record {
  x_api_key = key;
  forwarded_for = some address;
  host = some "10.0.0.1";
}

abbrev arrives : ℕ → Sender → Arrival
arrives t s = record { now = t; then_now = t; sender = s }

-- Three requests of one client within a minute, each under another name in the proxy's header: the third is
-- refused; so is another client's behind an address that was used twice.
abbrev busy : List Arrival
busy =
    arrives 0 (from_proxy "k1" "a")
    ∷ arrives 5 (from_proxy "k1" "b, c")
    ∷ arrives 9 (from_proxy "k1" "d")
    ∷ arrives 10 (from_proxy "k2" "b")
    ∷ arrives 11 (from_proxy "k2" "b")
    ∷ arrives 12 (from_proxy "k3" "b")
    ∷ []

busy-served : served [] (started 60 two_a_minute) busy ≡ (10, "k2") ∷ (5, "k1") ∷ (0, "k1") ∷ []
unfolding served started get_client_id client_ip check split lstrip rstrip limiter
busy-served = refl

gateway_limit_example :
    count_by (is_call "k1" (is_within 0 60)) (served [] (started 60 two_a_minute) busy) ≤ 2
gateway_limit_example =
    gateway_limit 60 two_a_minute busy "k1" 0
      (omega arith, (omega arith, (omega arith, (omega arith, (omega arith, (omega arith, tt))))))

abbrev ranks : RankRequest
ranks = record { query = "q"; texts = "a" ∷ "b" ∷ [] }

abbrev answered : Exchange
answered = record {
  now = 1;
  then_now = 1;
  request_id = "r";
  created = body (field "job_id" (str "7") end);
  timeout_at = 20;
  polls = record { now = 2; response = body (field "status" (str "verified") end) } ∷ [];
}

rank_sent_example :
    let sent = (rank answered (from_proxy "k1" "a") ranks (started 60 two_a_minute)).0.1 in
    (sent ≡ [])
    ⊎ ((client_id : String) × (later : List Request) × (client_of "k1"
            (("k1", "alice") ∷ ("k2", "bob") ∷ [])
          ≡ some client_id)
        × All (λ t. length (codes t) ≤ 10_000) ("a" ∷ "b" ∷ [])
        × (sent ≡ post_job (created_body client_id "rank" (rank_fields ranks) "r") ∷ later))
unfolding started
rank_sent_example = rank_sent answered (from_proxy "k1" "a") ranks (started 60 two_a_minute)
