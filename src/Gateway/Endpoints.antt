-- ===== src/Gateway/Endpoints.antt =====
-- `embed` and `rank` of pool-gateway/app/main.py. The fields of a request are taken as validated.
use open_mesh_ai.Prelude.{
  ℕ, suc, Option, none, some, List, [], ◌∷◌, String, ltb, length, codes, text_of, join,
  if◌then◌else◌,
}
use open_mesh_ai.Json.{Json, str, arr, Items, nil, cons, Fields, end, field}
use open_mesh_ai.Gateway.Jobs.{
  Outcome, done, refused, raised, failed, waiting, Response, Poll, Request, created_body, run_job,
}
use open_mesh_ai.Gateway.Clients.{Sender, State, get_client_id}

pub record EmbedRequest : Type 0 where
  pub text : String

pub record RankRequest : Type 0 where
  pub query : String
  pub texts : List String

abbrev pub texts_json : List String → Items
texts_json [] = nil
texts_json (t ∷ ts) = cons (str t) (texts_json ts)

-- `payload.model_dump()`
abbrev pub embed_fields : EmbedRequest → Fields
embed_fields payload = field "text" (str payload.text) end

abbrev pub rank_fields : RankRequest → Fields
rank_fields payload =
    field "query" (str payload.query) (field "texts" (arr (texts_json payload.texts)) end)

-- The first text that is too long, by its index.
abbrev pub too_long : ℕ → List String → Option ℕ
too_long idx [] = none
too_long idx (text ∷ texts) =
    let rest = too_long (suc idx) texts in
    if ltb 10_000 (length (codes text)) then some idx else rest

-- The clocks and ids of a request, and the coordinator's answers to what is sent for it.
pub record Exchange : Type 0 where
  pub now : ℕ
  pub then_now : ℕ
  pub request_id : String
  pub created : Response
  pub timeout_at : ℕ
  pub polls : List Poll

abbrev pub ran : Exchange → String → String → Fields → Outcome (Option Json) × List Request
ran x client_id job_type payload =
    run_job (created_body client_id job_type payload x.request_id) x.created x.timeout_at x.polls

-- The handler behind its dependency `get_client_id`.
abbrev pub with_client :
    (String → Outcome (Option Json) × List Request)
    → Outcome String × State
    → (Outcome (Option Json) × List Request) × State
with_client handler (done client_id, g) = (handler client_id, g)
with_client handler (refused code detail, g) = ((refused code detail, []), g)
with_client handler (raised code, g) = ((raised code, []), g)
with_client handler (failed, g) = ((failed, []), g)
with_client handler (waiting, g) = ((waiting, []), g)

unfoldable pub embed :
    Exchange → Sender → EmbedRequest → State → (Outcome (Option Json) × List Request) × State
embed x s payload g =
    with_client (λ client_id. ran x client_id "embed" (embed_fields payload))
      (get_client_id x.now x.then_now s g)

unfoldable pub rank :
    Exchange → Sender → RankRequest → State → (Outcome (Option Json) × List Request) × State
rank x s payload g =
    with_client
      (λ client_id. elim (too_long 0 payload.texts) [
        | some idx ↦ (refused 422 (detail_of idx), [])
        | none ↦ ran x client_id "rank" (rank_fields payload)
      ])
      (get_client_id x.now x.then_now s g)
  where
    detail_of : ℕ → String
    detail_of idx = join "" ("texts[" ∷ text_of idx ∷ "] exceeds max length of 10000" ∷ [])
