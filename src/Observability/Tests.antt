-- ===== src/Observability/Tests.antt =====
-- The page of metrics after three requests.
use open_mesh_ai.Prelude.{
  number_text, digit_text, ℕ, ◌+◌, ◌≡◌, refl, true, List, [], ◌∷◌, String, join, text_of, none, In,
  ◌⊎◌,
}
use open_mesh_ai.Observability.Metrics.{Latency, new_metrics, lines_of, observe_http_request}
use open_mesh_ai.Observability.Rendered.{Observation, observe_all}
use open_mesh_ai.Observability.Middleware.{
  Handled, Asked, returned, raised, serve, request_context, dispatch, pages_count,
}

-- Latencies in whole seconds.
abbrev seconds : Latency ℕ
seconds = record {
  zero = 0;
  add = λ a b. a + b;
  six_places = λ a. join "." (text_of a ∷ "000000" ∷ []);
}

abbrev asked : String → String → ℕ → Observation ℕ
asked path method elapsed = record { path = path; method = method; elapsed_seconds = elapsed }

abbrev three : List (Observation ℕ)
three = asked "/v1/rank" "POST" 2 ∷ asked "/health" "GET" 1 ∷ asked "/v1/rank" "POST" 3 ∷ []

three_lines :
    lines_of seconds (observe_all seconds three (new_metrics true))
    ≡ "# HELP http_requests_total Total HTTP requests by path and method."
      ∷ "# TYPE http_requests_total counter"
      ∷ "http_requests_total{path=\"/health\",method=\"GET\"} 1"
      ∷ "http_requests_total{path=\"/v1/rank\",method=\"POST\"} 2"
      ∷ "# HELP http_request_duration_seconds_sum Total request latency in seconds by path and method."
      ∷ "# TYPE http_request_duration_seconds_sum counter"
      ∷ "http_request_duration_seconds_sum{path=\"/health\",method=\"GET\"} 1.000000"
      ∷ "http_request_duration_seconds_sum{path=\"/v1/rank\",method=\"POST\"} 5.000000" ∷ "" ∷ []
unfolding observe_all observe_http_request join text_of number_text digit_text
three_lines = refl

abbrev ranked : Handled ℕ → Asked ℕ ℕ
ranked handled = record {
  seen = asked "/v1/rank" "POST" 2;
  header = none;
  uuid = "u1";
  handled = handled;
}

-- One of the two requests ends in an exception.
abbrev two : List (Asked ℕ ℕ)
two = ranked (returned 200) ∷ ranked raised ∷ []

pages_count_example :
    let gateway = serve (request_context seconds) two (new_metrics true) in
    let coordinator = serve (dispatch seconds) two (new_metrics true) in
    (gateway.0 ≡ coordinator.0)
    × ((◌≡◌ {A = ℕ} 2 0)
        ⊎ In "http_requests_total{path=\"/v1/rank\",method=\"POST\"} 2"
            (lines_of seconds gateway.1))
    × ((◌≡◌ {A = ℕ} 1 0)
        ⊎ In "http_requests_total{path=\"/v1/rank\",method=\"POST\"} 1"
            (lines_of seconds coordinator.1))
unfolding join text_of number_text digit_text
pages_count_example = pages_count seconds two ("/v1/rank", "POST")
