-- ===== src/Engine/Tests.antt =====
-- The engine with a model that puts the texts in the order in which they come.
use open_mesh_ai.Prelude.{
  ◌≡◌, refl, true, some, [], ◌∷◌, String, str_eq, if◌then◌else◌, pos, lstrip, rstrip, join,
}
use open_mesh_ai.Json.{int, bool, float, str, arr, obj, nil, cons, Fields, end, field, get, put}
use open_mesh_ai.Engine.Requests.{
  SentenceTransformer, Loaded, decode_error, loaded, build_error, process_request, run_server,
  exception, handled, handle_embed, handle_rank,
}
use open_mesh_ai.Engine.Answered.{IsOutcome, IsMarked, process_request-IsResponse}

abbrev small : SentenceTransformer
small = record {
  embedding = λ s. cons (float "0.5") nil;
  ranking = λ q ts. cons (int (pos 0)) nil;
  device = "cpu";
}

abbrev ranks_input : Fields
ranks_input = field "query" (str "q") (field "texts" (arr (cons (str "a") nil)) end)

abbrev ranks : Fields
ranks = field "action" (str "RANK") (field "id" (int (pos 7)) (field "input" (obj ranks_input) end))

-- A text that stands for the request, one for a list, and texts that are no JSON.
abbrev reads : String → Loaded
reads s =
    if str_eq s "R"
    then loaded (obj ranks)
    else if str_eq s "[]"
    then loaded (arr nil)
    else decode_error "bad"

abbrev ranked : Fields
ranked = field "ok" (bool true) (
    field "result" (obj (field "indices" (arr (cons (int (pos 0)) nil)) end)) (
      field "model_name" (str "all-MiniLM-L6-v2")
        (field "device" (str "cpu") (field "id" (int (pos 7)) end))))

process_request-IsResponse_example :
    (resp : Fields) × (process_request small reads "R" ≡ some resp)
    × IsOutcome small ranks ranks_input resp
    × IsMarked small ranks resp
unfolding get
process_request-IsResponse_example =
    process_request-IsResponse small reads "R" ranks ranks_input refl refl

-- Blank lines are passed over, a text that is no JSON has its answer, and a list ends the process.
served :
    run_server small reads (" R" ∷ "" ∷ "x" ∷ "[]" ∷ "R" ∷ [])
    ≡ (ranked ∷ build_error "invalid json: bad" ∷ [], exception)
unfolding run_server process_request handled handle_embed handle_rank get put join lstrip rstrip
served = refl
