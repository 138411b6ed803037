-- ===== src/Observability/Middleware.antt =====
-- What stands around every request: `RequestContextMiddleware.dispatch` of pool-coordinator/app/main.py
-- and `request_context` of pool-gateway/app/main.py. The lines that they log are left out.
use open_mesh_ai.Prelude.{
  ℕ, zero, suc, ◌⊎◌, ◌≡◌, ◌≢◌, refl, Bool, true, false, Option, none, some, List, [], ◌∷◌, String,
  map, filter_by, count_by, In, arith, inl, inr,
}
use open_mesh_ai.Observability.Metrics.{
  Latency, Key, key_eq, PrometheusMetrics, new_metrics, observe_http_request, count_line, lines_of,
}
use open_mesh_ai.Observability.Rendered.{Observation, key_of, observe_all, render-counts}

-- What `call_next` comes to: a response, or an exception that nothing handles.
pub data Handled (A : Type 0) : Type 0 where
  returned : A → Handled A
  raised : Handled A

abbrev pub has_returned : {A : Type 0} → Handled A → Bool
has_returned (returned response) = true
has_returned raised = false

-- The header `X-Request-ID`, or else a new one, which is `uuid`.
abbrev pub request_id_of : Option String → String → String
request_id_of none uuid = uuid
request_id_of (some i) uuid = i

-- A request, the time that it takes, and what is made of it.
pub record Asked (F A : Type 0) : Type 0 where
  pub seen : Observation F
  pub header : Option String
  pub uuid : String
  pub handled : Handled A

abbrev pub observe :
    {F : Type 0} → Latency F → Observation F → PrometheusMetrics F → PrometheusMetrics F
observe latency o = observe_http_request latency o.path o.method o.elapsed_seconds

-- The response carries the id of its request.
abbrev pub answer : {F A : Type 0} → Asked F A → Handled A → Handled (String × A)
answer q (returned response) = returned (request_id_of q.header q.uuid, response)
answer q raised = raised

-- Requests one after another.
abbrev pub serve :
    {F A : Type 0}
    → (Asked F A → Handled A → PrometheusMetrics F → Handled (String × A) × PrometheusMetrics F)
    → List (Asked F A)
    → PrometheusMetrics F
    → List (Handled (String × A)) × PrometheusMetrics F
serve handle [] m = ([], m)
serve handle (q ∷ qs) m =
    let (answered, m') = handle q q.handled m in
    let (rest, m'') = serve handle qs m' in (answered ∷ rest, m'')

or_none :
    (n : ℕ) (k : Key) (page : List String)
    → (n ≢ 0 → In (count_line k n) page)
    → (n ≡ 0) ⊎ In (count_line k n) page
or_none zero k page has = inl refl
or_none (suc n) k page has = inr (has (λ e. omega (arith, e)))

-- The page shows the number of what was observed, if there is any.
shown :
    {F : Type 0} (latency : Latency F) (seen : List (Observation F)) (k : Key)
    → let n = count_by (λ o. key_eq (key_of o) k) seen in
      (n ≡ 0) ⊎ In (count_line k n) (lines_of latency (observe_all latency seen (new_metrics true)))
shown latency seen k =
    or_none _ k (lines_of latency (observe_all latency seen (new_metrics true)))
      (λ h. (render-counts latency seen k h).1)

module _ {F A : Type 0} (latency : Latency F) where
  -- The coordinator's: an exception goes past the rest of the function.
  unfoldable pub dispatch :
      Asked F A → Handled A → PrometheusMetrics F → Handled (String × A) × PrometheusMetrics F
  dispatch q (returned response) m = (answer q (returned response), observe latency q.seen m)
  dispatch q raised m = (raised, m)

  -- The gateway's: the metrics are moved in `finally`.
  unfoldable pub request_context :
      Asked F A → Handled A → PrometheusMetrics F → Handled (String × A) × PrometheusMetrics F
  request_context q handled m = (answer q handled, observe latency q.seen m)

  request_context-serves :
      (qs : List (Asked F A)) (m : PrometheusMetrics F)
      → serve request_context qs m
        ≡ (map (λ q. answer q q.handled) qs, observe_all latency (map (λ q. q.seen) qs) m)
  unfolding request_context observe_all
  request_context-serves [] m = refl
  request_context-serves (q ∷ qs) m = rw (request_context-serves qs (observe latency q.seen m))

  dispatch-serves :
      (qs : List (Asked F A)) (m : PrometheusMetrics F)
      → serve dispatch qs m ≡ (
        map (λ q. answer q q.handled) qs,
        observe_all latency (map (λ q. q.seen) (filter_by (λ q. has_returned q.handled) qs)) m,
      )
  unfolding dispatch observe_all
  dispatch-serves [] m = refl
  dispatch-serves (q ∷ qs) m = from q.handled (dispatch-serves qs)
    where
      from :
          (h : Handled A)
          → ((m : PrometheusMetrics F)
              → serve dispatch qs m ≡ (
                map (λ q. answer q q.handled) qs,
                observe_all latency
                    (map (λ q. q.seen) (filter_by (λ q. has_returned q.handled) qs))
                    m,
              ))
          → serve dispatch (record q { handled = h } ∷ qs) m ≡ (
            map (λ q. answer q q.handled) (record q { handled = h } ∷ qs),
            observe_all latency
                (map
                  (λ q. q.seen)
                  (filter_by (λ q. has_returned q.handled) (record q { handled = h } ∷ qs)))
                m,
          )
      from (returned response) rest = rw (rest (observe latency q.seen m))
      from raised rest = rw (rest m)

  -- Both middlewares give the same responses with the same ids. On the gateway's page the line of a
  -- path and method has the number of its requests, if there is one; on the coordinator's it has the
  -- number of those that returned a response, if there is one: an exception is not counted.
  pub pages_count :
      (qs : List (Asked F A)) (k : Key)
      → let is_asked = λ (o : Observation F). key_eq (key_of o) k in
        let asked = count_by is_asked (map (λ q. q.seen) qs) in
        let answered =
          count_by is_asked (map (λ q. q.seen) (filter_by (λ q. has_returned q.handled) qs)) in
        let gateway = serve request_context qs (new_metrics true) in
        let coordinator = serve dispatch qs (new_metrics true) in
        (gateway.0 ≡ coordinator.0)
        × ((asked ≡ 0) ⊎ In (count_line k asked) (lines_of latency gateway.1))
        × ((answered ≡ 0) ⊎ In (count_line k answered) (lines_of latency coordinator.1))
  pages_count qs k =
      rw (request_context-serves qs (new_metrics true), dispatch-serves qs (new_metrics true))
        (refl, shown latency (map (λ q. q.seen) qs) k, shown latency _ k)
