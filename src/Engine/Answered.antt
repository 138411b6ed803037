-- ===== src/Engine/Answered.antt =====
-- The response of engine.py to a request that is an object.
use open_mesh_ai.Prelude.{
  ◌⊎◌, ◌∷◌, is_empty, strip, ◌≡◌, refl, true, false, Option, none, some, List, String, str_eq,
  Option-cases, inl, inr, ◌∙◌, sym,
}
use open_mesh_ai.Json.{Json, bool, str, arr, obj, Items, end, field, Fields, get, put, get-put}
use open_mesh_ai.Engine.Read.{items_of, text_of_value_cases, texts_of_value_cases, is_action_cases}
use open_mesh_ai.Engine.Requests.{
  SentenceTransformer, Loaded, loaded, build_error, success, input_of, text_of_value,
  texts_of_value, handle_embed, embed_text, rank_query, handle_rank, handled, marked, with_id,
  process_request, model_name,
}

-- The response names the model, the device, and the request's id.
abbrev pub IsMarked : SentenceTransformer → Fields → Fields → Type 0
IsMarked model req resp =
    (get "model_name" resp ≡ some (str model_name))
    × (get "device" resp ≡ some (str model.device))
    × (get "id" resp ≡ get "id" req)

-- A text that is not blank stands under the key.
abbrev pub HasText : String → Fields → String → Type 0
HasText key input text = (get key input ≡ some (str text)) × (is_empty (strip text) ≡ false)

-- The request asks for what a text is embedded to.
abbrev pub IsEmbed : Fields → Fields → String → Type 0
IsEmbed req input text = (get "action" req ≡ some (str "EMBED")) × HasText "text" input text

-- The request asks for the order of some texts, the first and the others, by their likeness to a query.
abbrev pub IsRank : Fields → Fields → String → String → List String → Type 0
IsRank req input query t ts =
    (get "action" req ≡ some (str "RANK"))
    × HasText "query" input query
    × (get "texts" input ≡ some (arr (items_of (t ∷ ts))))

abbrev pub IsResult : String → Items → Fields → Type 0
IsResult name values resp =
    (get "ok" resp ≡ some (bool true))
    × (get "result" resp ≡ some (obj (field name (arr values) end)))

abbrev pub IsError : Fields → Type 0
IsError resp =
    (get "ok" resp ≡ some (bool false)) × ((m : String) × (get "error" resp ≡ some (str m)))

-- The embedding for a good request for one, the indices for a good request for those, and an error for
-- a request that is neither.
abbrev pub IsOutcome : SentenceTransformer → Fields → Fields → Fields → Type 0
IsOutcome model req input resp =
    ((text : String) × IsEmbed req input text × IsResult "embedding" (model.embedding text) resp)
    ⊎ ((query : String) × (t : String) × (ts : List String) × IsRank req input query t ts
        × IsResult "indices" (model.ranking query (t ∷ ts)) resp)
    ⊎ (((text : String) → ¬ IsEmbed req input text)
        × ((query t : String) (ts : List String) → ¬ IsRank req input query t ts)
        × IsError resp)

-- What a handler gives: no response has an id of its own.
abbrev IsBare : SentenceTransformer → Fields → Fields → Fields → Type 0
IsBare model req input resp = IsOutcome model req input resp × (get "id" resp ≡ none)

-- The marks leave the other keys.
marked-get :
    (model : SentenceTransformer) (k : String) (req resp : Fields)
    → str_eq "device" k ≡ false
    → str_eq "model_name" k ≡ false
    → str_eq "id" k ≡ false
    → get k (marked model req resp) ≡ get k resp
marked-get model k req resp d n i = by_id (get "id" req)
  where
    unmarked :
        get k (put "device" (str model.device) (put "model_name" (str model_name) resp))
        ≡ get k resp
    unmarked = get-put "device" k _ _ ∙ rw d (get-put "model_name" k _ resp ∙ rw n refl)

    by_id :
        (id : Option Json)
        → get k
            (with_id id (put "device" (str model.device) (put "model_name" (str model_name) resp)))
          ≡ get k resp
    by_id none = unmarked
    by_id (some j) = get-put "id" k j _ ∙ rw i unmarked

marked-IsMarked :
    (model : SentenceTransformer) (req resp : Fields)
    → get "id" resp ≡ none
    → IsMarked model req (marked model req resp)
marked-IsMarked model req resp bare = elim (Option-cases (get "id" req)) [
  | inl absent ↦ rw absent (
    get-put "device" "model_name" _ _ ∙ get-put "model_name" "model_name" _ resp,
    get-put "device" "device" _ _,
    get-put "device" "id" _ _ ∙ get-put "model_name" "id" _ resp ∙ bare,
  )
  | inr (i, there) ↦ rw there (
    get-put "id" "model_name" i _
        ∙ get-put "device" "model_name" _ _
        ∙ get-put "model_name" "model_name" _ resp,
    get-put "id" "device" i _ ∙ get-put "device" "device" _ _,
    get-put "id" "id" i _,
  )
]

marked-IsOutcome :
    (model : SentenceTransformer) (req input resp : Fields)
    → IsOutcome model req input resp
    → IsOutcome model req input (marked model req resp)
marked-IsOutcome model req input resp h =
    let ok_kept = marked-get model "ok" req resp refl refl refl in
    let result_kept = marked-get model "result" req resp refl refl refl in
    let error_kept = marked-get model "error" req resp refl refl refl in
    elim h [
      | inl (text, asks, (says, holds)) ↦ inl (text, asks, (ok_kept ∙ says, result_kept ∙ holds))
      | inr (inl (query, t, ts, asks, (says, holds))) ↦
          inr (inl (query, t, ts, asks, (ok_kept ∙ says, result_kept ∙ holds)))
      | inr (inr (no_embed, no_rank, (says, (m, holds)))) ↦
          inr (inr (no_embed, no_rank, (ok_kept ∙ says, (m, error_kept ∙ holds))))
    ]

build_error-IsError : (message : String) → IsError (build_error message)
unfolding get
build_error-IsError message = (refl, (message, refl))

build_error-id : (message : String) → get "id" (build_error message) ≡ none
unfolding get
build_error-id message = refl

success-IsResult : (name : String) (values : Items) → IsResult name values (success name values)
unfolding get
success-IsResult name values = (refl, refl)

success-id : (name : String) (values : Items) → get "id" (success name values) ≡ none
unfolding get
success-id name values = refl

-- A request for an embedding.
embed_text-IsBare :
    (model : SentenceTransformer) (req input : Fields)
    → get "action" req ≡ some (str "EMBED")
    → IsBare model req input (embed_text model (text_of_value (get "text" input)))
embed_text-IsBare model req input action = elim (text_of_value_cases (get "text" input)) [
  | inl (text, reads, there, full) ↦
      rw reads (inl (text, (action, (there, full)), success-IsResult _ _), success-id _ _)
  | inr (unread, never) ↦ rw unread (
    inr (
        inr (
          λ text h. never text h.1,
          λ query t ts h. let same = sym action ∙ h.0 in cc,
          build_error-IsError _,
        )),
    build_error-id _,
  )
]

-- A request for an order.
rank_query-IsBare :
    (model : SentenceTransformer) (req input : Fields)
    → get "action" req ≡ some (str "RANK")
    → IsBare model req input
        (rank_query model (text_of_value (get "query" input)) (texts_of_value (get "texts" input)))
rank_query-IsBare model req input action = elim (text_of_value_cases (get "query" input)) [
  | inl (query, reads, there, full) ↦ elim (texts_of_value_cases (get "texts" input)) [
    | inl (t, ts, lists, listed) ↦
        rw (reads, lists)
          (
            inr (inl (query, t, ts, (action, (there, full), listed), success-IsResult _ _)),
            success-id _ _,
          )
    | inr (unlisted, never) ↦
        rw (reads, unlisted)
          (
            inr (inr (no_embed, λ q t ts h. never t ts h.2, build_error-IsError _)),
            build_error-id _,
          )
  ]
  | inr (unread, never) ↦
      rw unread
        (inr (inr (no_embed, λ q t ts h. never q h.1, build_error-IsError _)), build_error-id _)
]
  where
    no_embed : (text : String) → ¬ IsEmbed req input text
    no_embed text h = let same = sym action ∙ h.0 in cc

-- Every action gets a response once the input is there.
handled-IsBare :
    (model : SentenceTransformer) (req input : Fields)
    → input_of req ≡ some input
    → (resp : Fields) × (handled model req ≡ some resp) × IsBare model req input resp
unfolding handled handle_embed handle_rank
handled-IsBare model req input inputs = elim (is_action_cases "EMBED" (get "action" req)) [
  | inl (embeds, action) ↦ (
    embed_text model (text_of_value (get "text" input)),
    rw (embeds, inputs) refl,
    embed_text-IsBare model req input action,
  )
  | inr (other, no_embed) ↦ elim (is_action_cases "RANK" (get "action" req)) [
    | inl (ranks, action) ↦ (
      rank_query model (text_of_value (get "query" input)) (texts_of_value (get "texts" input)),
      rw (other, ranks, inputs) refl,
      rank_query-IsBare model req input action,
    )
    | inr (neither, no_rank) ↦
        let error = build_error "unsupported action, expected EMBED or RANK" in
        (
          error,
          rw (other, neither) refl,
          (
            inr (inr (λ text h. no_embed h.0, λ query t ts h. no_rank h.0, build_error-IsError _)),
            build_error-id _,
          ),
        )
  ]
]

-- A request that is an object, and whose `input` is one where it has one, gets a response. It holds the
-- embedding of the text where the action is EMBED and the input has a text that is not blank; the
-- indices of the texts by the query where the action is RANK and the input has a query that is not blank
-- and a list of texts that is not empty; and an error in every other case. It names the model and the
-- device, and has the id of the request, and no id where the request has none.
pub process_request-IsResponse :
    (model : SentenceTransformer) (loads : String → Loaded) (raw : String) (req input : Fields)
    → loads raw ≡ loaded (obj req)
    → input_of req ≡ some input
    → (resp : Fields) × (process_request model loads raw ≡ some resp)
      × IsOutcome model req input resp
      × IsMarked model req resp
unfolding process_request
process_request-IsResponse model loads raw req input read inputs =
    let (resp, answers, (outcome, bare)) = handled-IsBare model req input inputs in
    (
      marked model req resp,
      rw (read, process_request, answers) refl,
      marked-IsOutcome model req input resp outcome,
      marked-IsMarked model req resp bare,
    )
