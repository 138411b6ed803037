-- ===== src/Observability/Rendered.antt =====
-- What the page of observability.py shows: how often each path was asked for.
use open_mesh_ai.Prelude.{
  ℕ, suc, ◌+◌, ◌≡◌, ◌≢◌, refl, true, false, both_true, List, [], ◌∷◌, ◌++◌, String, str_eq_iff,
  join, count_by, In, inl, inr, ap, sym, ◌∙◌, Bool-cases, arith, if◌then◌else◌, ◌↔◌, map,
}
use open_mesh_ai.Observability.Metrics.{
  Latency, Key, key_eq, PrometheusMetrics, new_metrics, change, observe_http_request, insert_row,
  key_before, sorted_rows, count_line, lines_of, render,
}

pub record Observation (F : Type 0) : Type 0 where
  pub path : String
  pub method : String
  pub elapsed_seconds : F

abbrev pub key_of : {F : Type 0} → Observation F → Key
key_of o = (o.path, o.method)

unfoldable pub observe_all :
    {F : Type 0} → Latency F → List (Observation F) → PrometheusMetrics F → PrometheusMetrics F
observe_all latency [] m = m
observe_all latency (o ∷ rest) m =
    observe_all latency rest (observe_http_request latency o.path o.method o.elapsed_seconds m)

key_eq_iff : (k j : Key) → (key_eq k j ≡ true) ↔ (k ≡ j)
key_eq_iff (p, m) (q, n) = (
  λ h.
      let (paths, methods) = both_true _ _ h in
      rw ((str_eq_iff p q).0 paths, (str_eq_iff m n).0 methods),
  λ e.
      rw (
        (str_eq_iff p q).1 (ap (λ (k : Key). k.0) e),
        (str_eq_iff m n).1 (ap (λ (k : Key). k.1) e),
      ),
)

-- The count of a key, and 0 where there is none.
abbrev value_of : Key → List (Key × ℕ) → ℕ
value_of k [] = 0
value_of k ((j, v) ∷ rows) = if key_eq j k then v else value_of k rows

value_of-change :
    (k j : Key) (rows : List (Key × ℕ))
    → value_of k (change 0 suc j rows)
      ≡ (if key_eq j k then suc (value_of k rows) else value_of k rows)
value_of-change k j [] = refl
value_of-change k j ((i, v) ∷ rows) =
    ground (arith, key_eq_iff j k, key_eq_iff i j, key_eq_iff i k, value_of-change k j rows)

value_of-In :
    (k : Key) (c : ℕ) (rows : List (Key × ℕ)) → value_of k rows ≡ c → c ≢ 0 → In (k, c) rows
value_of-In k c [] e h = h (sym e)
value_of-In k c ((j, v) ∷ rows) e h = elim (Bool-cases (key_eq j k)) [
  | inl same ↦ inl (rw ((key_eq_iff j k).0 same, sym (rw same at e)))
  | inr other ↦ inr (value_of-In k c rows (rw other at e) h)
]

In-insert_row : (r s : Key × ℕ) (rows : List (Key × ℕ)) → In r (s ∷ rows) → In r (insert_row s rows)
In-insert_row r s [] h = h
In-insert_row r s (t ∷ rows) h = elim (Bool-cases (key_before t.0 s.0)) [
  | inl before ↦ rw before (elim h [
    | inl here ↦ inr (In-insert_row r s rows (inl here))
    | inr (inl next) ↦ inl next
    | inr (inr later) ↦ inr (In-insert_row r s rows (inr later))
  ])
  | inr after ↦ rw after h
]

In-sorted_rows : (r : Key × ℕ) (rows : List (Key × ℕ)) → In r rows → In r (sorted_rows rows)
In-sorted_rows r [] h = h
In-sorted_rows r (s ∷ rows) (inl here) = In-insert_row r s (sorted_rows rows) (inl here)
In-sorted_rows r (s ∷ rows) (inr later) =
    In-insert_row r s (sorted_rows rows) (inr (In-sorted_rows r rows later))

In-map :
    (f : Key × ℕ → String) (r : Key × ℕ) (rows : List (Key × ℕ)) → In r rows → In (f r) (map f rows)
In-map f r [] h = h
In-map f r (s ∷ rows) (inl here) = inl (ap f here)
In-map f r (s ∷ rows) (inr later) = inr (In-map f r rows later)

In-append : (x : String) (xs ys : List String) → In x xs → In x (xs ++ ys)
In-append x [] ys h = absurd h
In-append x (y ∷ xs) ys (inl here) = inl here
In-append x (y ∷ xs) ys (inr later) = inr (In-append x xs ys later)

observed :
    {F : Type 0} (latency : Latency F) (o : Observation F) (m : PrometheusMetrics F)
    → m.enabled ≡ true
    → let m' = observe_http_request latency o.path o.method o.elapsed_seconds m in
      (m'.enabled ≡ true) × (m'.request_count ≡ change 0 suc (key_of o) m.request_count)
unfolding observe_http_request
observed latency o m on = rw (on, observe_http_request) (refl, refl)

observe_all-off :
    {F : Type 0} (latency : Latency F) (seen : List (Observation F)) (m : PrometheusMetrics F)
    → m.enabled ≡ false
    → (observe_all latency seen m).enabled ≡ false
unfolding observe_all observe_http_request
observe_all-off latency [] m off = off
observe_all-off latency (o ∷ rest) m off =
    observe_all-off latency rest _ (rw (off, observe_http_request) refl)

observe_all-counts :
    {F : Type 0} (latency : Latency F) (k : Key) (seen : List (Observation F))
    (m : PrometheusMetrics F)
    → m.enabled ≡ true
    → ((observe_all latency seen m).enabled ≡ true)
      × (value_of k (observe_all latency seen m).request_count
          ≡ value_of k m.request_count + count_by (λ o. key_eq (key_of o) k) seen)
unfolding observe_all
observe_all-counts latency k [] m on = (on, omega arith)
observe_all-counts latency k (o ∷ rest) m on =
    let m' = observe_http_request latency o.path o.method o.elapsed_seconds m in
    let (on', change') = observed latency o m on in
    let (on'', counts) = observe_all-counts latency k rest m' on' in
    (
      on'',
      counts
          ∙ rw (change', value_of-change k (key_of o) m.request_count)
              (elim (Bool-cases (key_eq (key_of o) k)) [
                | inl same ↦ rw same (omega arith)
                | inr other ↦ rw other (omega arith)
              ]),
    )

-- With the metrics on, the page has for each path and method that was asked for a line with the number of
-- the requests that were observed; with the metrics off it shows none.
pub render-counts :
    {F : Type 0} (latency : Latency F) (seen : List (Observation F)) (k : Key)
    → count_by (λ o. key_eq (key_of o) k) seen ≢ 0
    → let m = observe_all latency seen (new_metrics true) in
      let off = observe_all latency seen (new_metrics false) in
      (render latency m ≡ join "\n" (lines_of latency m))
      × In (count_line k (count_by (λ o. key_eq (key_of o) k) seen)) (lines_of latency m)
      × (render latency off ≡ "# metrics disabled\n")
unfolding render
render-counts latency seen k h =
    let counts = observe_all-counts latency k seen (new_metrics true) refl in
    let rows = (observe_all latency seen (new_metrics true)).request_count in
    let row =
      value_of-In k (count_by (λ o. key_eq (key_of o) k) seen) rows (omega (arith, counts.1)) h in
    (
      rw (counts.0, render),
      inr (inr (In-append _ _ _ (In-map (λ r. count_line r.0 r.1) _ _ (In-sorted_rows _ _ row)))),
      rw (observe_all-off latency seen (new_metrics false) refl, render),
    )
