-- ===== src/Gateway/Limited.antt =====
-- `get_client_id` of pool-gateway/app/main.py with its limiters: how often one key is let through.
use open_mesh_ai.Prelude.{
  ℕ, ◌≤◌, ◌≡◌, refl, Bool, true, false, none, some, List, [], ◌∷◌, String, pos_part, if◌then◌else◌,
  arith, count_by, Bool-cases, Option-cases, inl, inr, is_some,
}
use open_mesh_ai.RateLimit.Limiter.{Limiter, allow}
use open_mesh_ai.RateLimit.Bucket.{is_within}
use open_mesh_ai.RateLimit.Invariant.{Calls, is_call}
use open_mesh_ai.RateLimit.Window.{run, IsMonotone, window_limit}
use open_mesh_ai.RateLimit.Gateway.{Check, passes, too_many_requests, check, verdict, check-allow}
use open_mesh_ai.Gateway.Jobs.{Outcome, done, refused}
use open_mesh_ai.Gateway.Settings.{Settings, client_of}
use open_mesh_ai.Gateway.Clients.{
  Sender, client_ip, State, started, checked, after_key, get_client_id,
}

-- A request: the clock where the key's limiter is asked, and where the address's is.
pub record Arrival : Type 0 where
  pub now : ℕ
  pub then_now : ℕ
  pub sender : Sender

abbrev pub is_done : {A : Type 0} → Outcome A → Bool
is_done (done a) = true
is_done _ = false

abbrev pub calls_of : List Arrival → Calls
calls_of [] = []
calls_of (a ∷ rest) = (a.now, a.sender.x_api_key) ∷ calls_of rest

-- The requests that were given a client's id, by instant and key, the latest first.
unfoldable pub served : Calls → State → List Arrival → Calls
served log g [] = log
served log g (a ∷ rest) =
    let (out, g') = get_client_id a.now a.then_now a.sender g in
    served (if is_done out then (a.now, a.sender.x_api_key) ∷ log else log) g' rest

-- The calls that reach the key's limiter.
abbrev known : List (String × String) → List Arrival → Calls
known keys [] = []
known keys (a ∷ rest) =
    if is_some (client_of a.sender.x_api_key keys)
    then (a.now, a.sender.x_api_key) ∷ known keys rest
    else known keys rest

IsMonotone-later : (t t' : ℕ) (cs : Calls) → t ≤ t' → IsMonotone t' cs → IsMonotone t cs
IsMonotone-later t t' [] h m = tt
IsMonotone-later t t' ((now, key) ∷ cs) h m = (omega (arith, m.0), m.1)

known-IsMonotone :
    (t : ℕ) (keys : List (String × String)) (rest : List Arrival)
    → IsMonotone t (calls_of rest)
    → IsMonotone t (known keys rest)
known-IsMonotone t keys [] m = tt
known-IsMonotone t keys (a ∷ rest) m =
    elim (Bool-cases (is_some (client_of a.sender.x_api_key keys))) [
      | inl there ↦ rw there (m.0, known-IsMonotone a.now keys rest m.1)
      | inr absent ↦
          rw absent
            (IsMonotone-later t a.now (known keys rest) m.0 (known-IsMonotone a.now keys rest m.1))
    ]

checked-kept :
    (client_id : String) (c : Check × Limiter) (g : State)
    → let g' = (checked client_id c g).1 in
      (g'.api_keys ≡ g.api_keys) × (g'.rate_limiter_api_key ≡ g.rate_limiter_api_key)
checked-kept client_id (passes, l) g = (refl, refl)
checked-kept client_id (too_many_requests, l) g = (refl, refl)

-- What the key's limiter decided is the bound of what the request comes to.
after_key-allowed :
    (then_now : ℕ) (s : Sender) (client_id : String) (admitted : Bool) (l : Limiter) (g : State)
    → let (out, g') = after_key then_now s client_id (verdict admitted, l) g in
      (g'.api_keys ≡ g.api_keys)
      × (g'.rate_limiter_api_key ≡ l)
      × (admitted ≡ false → is_done out ≡ false)
after_key-allowed then_now s client_id false l g = (refl, refl, λ e. refl)
after_key-allowed then_now s client_id true l g =
    let kept =
      checked-kept client_id (check then_now (client_ip s) g.rate_limiter_ip)
        (record g { rate_limiter_api_key = l }) in
    (kept.0, kept.1, λ e. cc)

count_by-logged :
    (p : ℕ × String → Bool) (c : ℕ × String) (served_now admitted : Bool) (log log' : Calls)
    → count_by p log ≤ count_by p log'
    → (admitted ≡ false → served_now ≡ false)
    → count_by p (if served_now then c ∷ log else log)
      ≤ count_by p (if admitted then c ∷ log' else log')
count_by-logged p c true true log log' h le = omega (arith, h)
count_by-logged p c true false log log' h le = let bad = le refl in cc
count_by-logged p c false true log log' h le = omega (arith, h)
count_by-logged p c false false log log' h le = h

get_client_id-known :
    (now then_now : ℕ) (s : Sender) (client_id : String) (g : State)
    → client_of s.x_api_key g.api_keys ≡ some client_id
    → let (out, g') = get_client_id now then_now s g in
      let (admitted, l) = allow now s.x_api_key g.rate_limiter_api_key in
      (g'.api_keys ≡ g.api_keys)
      × (g'.rate_limiter_api_key ≡ l)
      × (admitted ≡ false → is_done out ≡ false)
unfolding get_client_id
get_client_id-known now then_now s client_id g there =
    rw (there, get_client_id, check-allow now s.x_api_key g.rate_limiter_api_key)
      (after_key-allowed then_now s client_id _ _ g)

get_client_id-unknown :
    (now then_now : ℕ) (s : Sender) (g : State)
    → client_of s.x_api_key g.api_keys ≡ none
    → get_client_id now then_now s g ≡ (refused 401 "Invalid API key", g)
unfolding get_client_id
get_client_id-unknown now then_now s g absent = rw (absent, get_client_id)

served-le :
    (p : ℕ × String → Bool) (log log' : Calls) (g : State) (rest : List Arrival)
    → count_by p log ≤ count_by p log'
    → count_by p (served log g rest)
      ≤ count_by p (run log' g.rate_limiter_api_key (known g.api_keys rest)).0
unfolding served run
served-le p log log' g [] h = h
served-le p log log' g (a ∷ rest) h =
    elim (Option-cases (client_of a.sender.x_api_key g.api_keys)) [
      | inl absent ↦
          rw (absent, get_client_id-unknown a.now a.then_now a.sender g absent)
            (served-le p log log' g rest h)
      | inr (client_id, there) ↦
          let (out, g') = get_client_id a.now a.then_now a.sender g in
          let (admitted, l) = allow a.now a.sender.x_api_key g.rate_limiter_api_key in
          let (same_keys, same_limiter, refuses) =
            get_client_id-known a.now a.then_now a.sender client_id g there in
          let later =
            served-le p (if is_done out then (a.now, a.sender.x_api_key) ∷ log else log)
              (if admitted then (a.now, a.sender.x_api_key) ∷ log' else log') g' rest
              (count_by-logged p _ (is_done out) admitted log log' h refuses) in
          rw there (rw (same_keys, same_limiter) at later)
    ]

-- While the clock does not go back, no window of a minute, wherever it begins, holds more requests with
-- one key that are given a client's id than the setting for keys allows, and none where that is not
-- positive, whatever addresses they come from.
pub gateway_limit :
    {F : Type 0} (minute : ℕ) (settings : Settings F) (arrivals : List Arrival) (key : String)
    (start : ℕ)
    → IsMonotone 0 (calls_of arrivals)
    → count_by (is_call key (is_within start minute)) (served [] (started minute settings) arrivals)
      ≤ pos_part settings.rate_limit_per_minute_api_key
unfolding started
gateway_limit minute settings arrivals key start m =
    let bound =
      window_limit (pos_part settings.rate_limit_per_minute_api_key) minute
        (known settings.api_keys arrivals) key start
        (known-IsMonotone 0 settings.api_keys arrivals m) in
    omega (
      arith,
      bound,
      served-le (is_call key (is_within start minute)) [] [] (started minute settings) arrivals
          (omega arith),
    )
