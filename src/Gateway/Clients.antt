-- ===== src/Gateway/Clients.antt =====
-- `_client_ip` and `get_client_id` of pool-gateway/app/main.py, with the limiters that `lifespan` makes.
use open_mesh_ai.Prelude.{
  ℕ, Option, none, some, List, [], ◌∷◌, String, pos_part, is_empty, if◌then◌else◌, strip, split,
}
use open_mesh_ai.RateLimit.Limiter.{Limiter, limiter}
use open_mesh_ai.RateLimit.Gateway.{Check, passes, too_many_requests, check}
use open_mesh_ai.Gateway.Jobs.{Outcome, done, refused}
use open_mesh_ai.Gateway.Settings.{Settings, client_of}

-- What a request says of its sender: the key (a missing header is an empty text), the header of a
-- proxy, and the address of the connection.
pub record Sender : Type 0 where
  pub x_api_key : String
  pub forwarded_for : Option String
  pub host : Option String

-- `text or "unknown"`
abbrev pub or_unknown : String → String
or_unknown s = if is_empty s then "unknown" else s

abbrev pub first_part : List String → String
first_part [] = ""
first_part (part ∷ parts) = part

abbrev pub header_text : Option String → String
header_text none = ""
header_text (some value) = strip value

unfoldable pub client_ip : Sender → String
client_ip s =
    if is_empty (header_text s.forwarded_for)
    then (elim s.host [ none ↦ "unknown" | some host ↦ or_unknown host ])
    else or_unknown (strip (first_part (split b',' (header_text s.forwarded_for))))

-- `app.state`
pub record State : Type 0 where
  pub api_keys : List (String × String)
  pub rate_limiter_api_key : Limiter
  pub rate_limiter_ip : Limiter

-- A limit of zero or less admits nothing. `minute` is the window of 60 seconds in units of the clock.
unfoldable pub started : {F : Type 0} → ℕ → Settings F → State
started minute settings = record {
  api_keys = settings.api_keys;
  rate_limiter_api_key = limiter (pos_part settings.rate_limit_per_minute_api_key) minute;
  rate_limiter_ip = limiter (pos_part settings.rate_limit_per_minute_ip) minute;
}

abbrev pub checked : String → Check × Limiter → State → Outcome String × State
checked client_id (passes, l) g = (done client_id, record g { rate_limiter_ip = l })
checked client_id (too_many_requests, l) g =
    (refused 429 "Rate limit exceeded", record g { rate_limiter_ip = l })

abbrev pub after_key : ℕ → Sender → String → Check × Limiter → State → Outcome String × State
after_key then_now s client_id (too_many_requests, l) g =
    (refused 429 "Rate limit exceeded", record g { rate_limiter_api_key = l })
after_key then_now s client_id (passes, l) g =
    checked client_id (check then_now (client_ip s) g.rate_limiter_ip)
      (record g { rate_limiter_api_key = l })

-- The key's limiter is asked first, at `now`, the address's at `then_now`: a request that the second
-- refuses is counted by the first.
unfoldable pub get_client_id : ℕ → ℕ → Sender → State → Outcome String × State
get_client_id now then_now s g = elim (client_of s.x_api_key g.api_keys) [
  | none ↦ (refused 401 "Invalid API key", g)
  | some client_id ↦ after_key then_now s client_id (check now s.x_api_key g.rate_limiter_api_key) g
]
