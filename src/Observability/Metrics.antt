-- ===== src/Observability/Metrics.antt =====
-- `PrometheusMetrics` of pool-coordinator/app/core/observability.py, which pool-gateway/app/main.py
-- repeats. A latency is a float: a value of `F` with its sum and its text to six places.
use open_mesh_ai.Prelude.{
  ℕ, suc, Bool, true, false, ◌&&◌, ◌||◌, Option, none, some, List, [], ◌∷◌, ◌++◌, String, ltb,
  str_eq, codes, text_of, join, if◌then◌else◌, ◌==◌, is_on, map,
}

pub record Latency (F : Type 0) : Type 0 where
  pub zero : F
  pub add : F → F → F
  -- `{total:.6f}`
  pub six_places : F → String

-- A path and a method.
abbrev pub Key : Type 0
Key = String × String

abbrev pub key_eq : Key → Key → Bool
key_eq (p, m) (q, n) = str_eq p q && str_eq m n

pub record PrometheusMetrics (F : Type 0) : Type 0 where
  pub enabled : Bool
  pub request_count : List (Key × ℕ)
  pub request_latency_sum : List (Key × F)

abbrev pub new_metrics : {F : Type 0} → Bool → PrometheusMetrics F
new_metrics enabled = record { enabled = enabled; request_count = []; request_latency_sum = [] }

-- `cls(enabled=raw in {…})`, without the variable "false".
abbrev pub from_env : {F : Type 0} → Option String → PrometheusMetrics F
from_env none = new_metrics false
from_env (some raw) = new_metrics (is_on raw)

-- `table[key] += …` on a `defaultdict`
abbrev pub change : {V : Type 0} → V → (V → V) → Key → List (Key × V) → List (Key × V)
change zero f k [] = (k, f zero) ∷ []
change zero f k ((j, v) ∷ rows) =
    if key_eq j k then (j, f v) ∷ rows else (j, v) ∷ change zero f k rows

unfoldable pub observe_http_request :
    {F : Type 0} → Latency F → String → String → F → PrometheusMetrics F → PrometheusMetrics F
observe_http_request latency path method elapsed_seconds m =
    if m.enabled
    then record m {
      request_count = change 0 suc (path, method) m.request_count;
      request_latency_sum =
          change latency.zero (λ total. latency.add total elapsed_seconds) (path, method)
            m.request_latency_sum;
    }
    else m

-- The order of texts by their characters.
abbrev pub codes_before : List ℕ → List ℕ → Bool
codes_before s [] = false
codes_before [] (d ∷ t) = true
codes_before (c ∷ s) (d ∷ t) = let rest = codes_before s t in ltb c d || (c == d && rest)

abbrev pub key_before : Key → Key → Bool
key_before (p, m) (q, n) =
    codes_before (codes p) (codes q) || (str_eq p q && codes_before (codes m) (codes n))

abbrev pub insert_row : {V : Type 0} → Key × V → List (Key × V) → List (Key × V)
insert_row r [] = r ∷ []
insert_row r (s ∷ rows) =
    let rest = insert_row r rows in if key_before s.0 r.0 then s ∷ rest else r ∷ s ∷ rows

-- `sorted(table.items())`: no two rows have one key.
abbrev pub sorted_rows : {V : Type 0} → List (Key × V) → List (Key × V)
sorted_rows [] = []
sorted_rows (r ∷ rows) = insert_row r (sorted_rows rows)

abbrev pub line_of : String → Key → String → String
line_of name (path, method) value =
    join "" (name ∷ "{path=\"" ∷ path ∷ "\",method=\"" ∷ method ∷ "\"} " ∷ value ∷ [])

abbrev pub count_line : Key → ℕ → String
count_line k count = line_of "http_requests_total" k (text_of count)

abbrev pub latency_line : Key → String → String
latency_line = line_of "http_request_duration_seconds_sum"

abbrev pub lines_of : {F : Type 0} → Latency F → PrometheusMetrics F → List String
lines_of latency m =
    "# HELP http_requests_total Total HTTP requests by path and method."
    ∷ "# TYPE http_requests_total counter"
    ∷ (map (λ r. count_line r.0 r.1) (sorted_rows m.request_count)
        ++ ("# HELP http_request_duration_seconds_sum Total request latency in seconds by path and method."
            ∷ "# TYPE http_request_duration_seconds_sum counter"
            ∷ (map (λ r. latency_line r.0 (latency.six_places r.1))
                  (sorted_rows m.request_latency_sum)
                ++ "" ∷ [])))

unfoldable pub render : {F : Type 0} → Latency F → PrometheusMetrics F → String
render latency m = if m.enabled then join "\n" (lines_of latency m) else "# metrics disabled\n"
