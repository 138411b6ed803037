-- ===== src/Engine/Requests.antt =====
-- `process_request` and `run_server` of engine.py. The sentence transformer, its similarities and its
-- order are a parameter, and so is what `json.loads` makes of a text. `none` is an exception that
-- nothing handles: it ends the process.
use open_mesh_ai.Prelude.{
  ℕ, Bool, true, false, Option, none, some, List, [], ◌∷◌, String, str_eq, is_empty, strip, join,
  if◌then◌else◌, ◌>>=◌,
}
use open_mesh_ai.Json.{
  Json, null, bool, int, float, str, arr, obj, Items, nil, cons, Fields, end, field, get, put,
}

-- `model.encode(text)` as a list of floats, and the places of the texts by their likeness to a query.
pub record SentenceTransformer : Type 0 where
  pub embedding : String → Items
  pub ranking : String → List String → Items
  pub device : String

-- `json.loads`: `JSONDecodeError` with its text, or a value.
pub data Loaded : Type 0 where
  decode_error : String → Loaded
  loaded : Json → Loaded

abbrev pub model_name : String
model_name = "all-MiniLM-L6-v2"

abbrev pub build_error : String → Fields
build_error message = field "ok" (bool false) (field "error" (str message) end)

abbrev pub success : String → Items → Fields
success name values =
    field "ok" (bool true) (field "result" (obj (field name (arr values) end)) end)

-- A value that must have a method `get`.
abbrev pub as_dict : Json → Option Fields
as_dict (obj d) = some d
as_dict null = none
as_dict (bool b) = none
as_dict (int z) = none
as_dict (float r) = none
as_dict (str s) = none
as_dict (arr xs) = none

-- `req.get("input", {})`
abbrev pub input_of : Fields → Option Fields
input_of req = elim (get "input" req) [ none ↦ some end | some v ↦ as_dict v ]

-- A text that is not blank.
abbrev pub text_of_value : Option Json → Option String
text_of_value (some (str s)) = if is_empty (strip s) then none else some s
text_of_value none = none
text_of_value (some null) = none
text_of_value (some (bool b)) = none
text_of_value (some (int z)) = none
text_of_value (some (float r)) = none
text_of_value (some (arr xs)) = none
text_of_value (some (obj d)) = none

-- `all(isinstance(t, str) for t in texts)`, as the list of the texts.
abbrev pub strings_of : Items → Option (List String)
strings_of nil = some []
strings_of (cons (str s) xs) = elim (strings_of xs) [ none ↦ none | some ss ↦ some (s ∷ ss) ]
strings_of (cons null xs) = none
strings_of (cons (bool b) xs) = none
strings_of (cons (int z) xs) = none
strings_of (cons (float r) xs) = none
strings_of (cons (arr ys) xs) = none
strings_of (cons (obj d) xs) = none

abbrev pub texts_of_value : Option Json → Option (List String)
texts_of_value (some (arr nil)) = none
texts_of_value (some (arr (cons x xs))) = strings_of (cons x xs)
texts_of_value none = none
texts_of_value (some null) = none
texts_of_value (some (bool b)) = none
texts_of_value (some (int z)) = none
texts_of_value (some (float r)) = none
texts_of_value (some (str s)) = none
texts_of_value (some (obj d)) = none

abbrev pub embed_text : SentenceTransformer → Option String → Fields
embed_text model none = build_error "EMBED requires input.text as non-empty string"
embed_text model (some text) = success "embedding" (model.embedding text)

unfoldable pub handle_embed : SentenceTransformer → Fields → Option Fields
handle_embed model req = do
  input_data ← input_of req
  some (embed_text model (text_of_value (get "text" input_data)))

abbrev pub rank_texts : SentenceTransformer → String → Option (List String) → Fields
rank_texts model query none = build_error "RANK requires input.texts as non-empty string[]"
rank_texts model query (some texts) = success "indices" (model.ranking query texts)

abbrev pub rank_query : SentenceTransformer → Option String → Option (List String) → Fields
rank_query model none texts = build_error "RANK requires input.query as non-empty string"
rank_query model (some query) texts = rank_texts model query texts

unfoldable pub handle_rank : SentenceTransformer → Fields → Option Fields
handle_rank model req = do
  input_data ← input_of req
  some (
      rank_query model (text_of_value (get "query" input_data))
        (texts_of_value (get "texts" input_data)))

abbrev pub is_action : String → Option Json → Bool
is_action name (some (str s)) = str_eq s name
is_action name none = false
is_action name (some null) = false
is_action name (some (bool b)) = false
is_action name (some (int z)) = false
is_action name (some (float r)) = false
is_action name (some (arr xs)) = false
is_action name (some (obj d)) = false

unfoldable pub handled : SentenceTransformer → Fields → Option Fields
handled model req =
    if is_action "EMBED" (get "action" req)
    then handle_embed model req
    else if is_action "RANK" (get "action" req)
    then handle_rank model req
    else some (build_error "unsupported action, expected EMBED or RANK")

abbrev pub with_id : Option Json → Fields → Fields
with_id none resp = resp
with_id (some i) resp = put "id" i resp

-- The response with the model, the device and the request's id.
abbrev pub marked : SentenceTransformer → Fields → Fields → Fields
marked model req resp =
    with_id (get "id" req)
      (put "device" (str model.device) (put "model_name" (str model_name) resp))

unfoldable pub process_request : SentenceTransformer → (String → Loaded) → String → Option Fields
process_request model loads raw = elim (loads raw) [
  | decode_error exc ↦ some (build_error (join "" ("invalid json: " ∷ exc ∷ [])))
  | loaded value ↦ do req ← as_dict value; resp ← handled model req; some (marked model req resp)
]

-- How the process ends: with an exit code, or with an exception.
pub data Ended : Type 0 where
  exit : ℕ → Ended
  exception : Ended

abbrev pub then_rest : Option Fields → List Fields × Ended → List Fields × Ended
then_rest none rest = ([], exception)
then_rest (some response) (responses, ended) = (response ∷ responses, ended)

-- The lines of the standard input, and the responses that were written.
unfoldable pub run_server :
    SentenceTransformer → (String → Loaded) → List String → List Fields × Ended
run_server model loads [] = ([], exit 0)
run_server model loads (line ∷ lines) =
    let rest = run_server model loads lines in
    if is_empty (strip line)
    then rest
    else then_rest (process_request model loads (strip line)) rest

-- Without `--server`: one request is the whole input.
unfoldable pub run_once : SentenceTransformer → (String → Loaded) → String → List Fields × Ended
run_once model loads input =
    if is_empty (strip input)
    then (build_error "stdin json payload is required" ∷ [], exit 1)
    else then_rest (process_request model loads (strip input)) ([], exit 0)
