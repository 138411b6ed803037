-- ===== src/Api/Validated.antt =====
-- `JobSubmitRequest.validate_submission` of schemas/jobs.py, with the lengths that its fields declare.
use open_mesh_ai.Prelude.{
  ℕ, suc, ◌≤◌, ◌≡◌, refl, Bool, true, false, ◌&&◌, both_true, Option, none, some, String, leb,
  leb→le, length, codes, ◌⊎◌, inl, some_inj, subst, inr,
}
use open_mesh_ai.Json.{obj, Fields, end, field, dumps}
use open_mesh_ai.Api.Submit.{JobSubmitRequest}

abbrev pub max_json_payload_chars : ℕ
max_json_payload_chars = 200_000

abbrev pub max_metrics_keys : ℕ
max_metrics_keys = 64

-- `len(d)`
abbrev pub key_count : Fields → ℕ
key_count end = 0
key_count (field k v d) = suc (key_count d)

-- `len(json.dumps(d, …))`
abbrev pub json_size : Fields → ℕ
json_size d = length (dumps (obj d))

abbrev pub within : ℕ → ℕ → String → Bool
within least most s = leb least (length (codes s)) && leb (length (codes s)) most

abbrev pub within_if : ℕ → Option String → Bool
within_if most none = true
within_if most (some s) = leb (length (codes s)) most

-- The constraints of `Field`.
abbrev pub has_lengths : JobSubmitRequest → Bool
has_lengths r =
    within 1 128 r.nonce
    && (within 1 512 r.signature
        && (within_if 2_000 r.error_message
            && (within_if 2_048 r.artifact_uri && within_if 128 r.output_hash)))

-- Exactly one of an output and an error.
abbrev pub has_one : Option Fields → Option String → Bool
has_one none none = false
has_one (some output) (some message) = false
has_one none (some message) = true
has_one (some output) none = true

abbrev pub has_few_keys : Option Fields → Bool
has_few_keys none = true
has_few_keys (some metrics) = leb (key_count metrics) max_metrics_keys

abbrev pub has_size : Option Fields → Bool
has_size none = true
has_size (some d) = leb (json_size d) max_json_payload_chars

-- Whether the validator, which raises `ValueError` at the first test that fails, lets the request pass.
unfoldable pub validate_submission : JobSubmitRequest → Bool
validate_submission r =
    has_one r.output r.error_message
    && (has_few_keys r.metrics_json && (has_size r.output && has_size r.metrics_json))

abbrev SizeIsBounded : Option Fields → Type 0
SizeIsBounded none = Unit
SizeIsBounded (some d) = json_size d ≤ max_json_payload_chars

abbrev pub IsOneOf : Option Fields → Option String → Type 0
IsOneOf output error_message =
    ((d : Fields) × (output ≡ some d)
      × (error_message ≡ none)
      × (json_size d ≤ max_json_payload_chars))
    ⊎ ((message : String) × (output ≡ none) × (error_message ≡ some message))

one_of :
    (output : Option Fields) (error_message : Option String)
    → has_one output error_message ≡ true
    → has_size output ≡ true
    → IsOneOf output error_message
one_of none none h k = cc
one_of (some d) (some message) h k = cc
one_of (some d) none h k = inl (d, refl, refl, leb→le _ _ k)
one_of none (some message) h k = inr (message, refl, refl)

bounded_metrics :
    (metrics_json : Option Fields)
    → has_few_keys metrics_json ≡ true
    → has_size metrics_json ≡ true
    → (metrics : Fields) → metrics_json ≡ some metrics
    → (key_count metrics ≤ max_metrics_keys) × (json_size metrics ≤ max_json_payload_chars)
bounded_metrics none h k metrics e = cc
bounded_metrics (some d) h k metrics e =
    let same = some_inj e in
    subst
      (λ (m : Fields). (key_count m ≤ max_metrics_keys) × (json_size m ≤ max_json_payload_chars))
      same (leb→le _ _ h, leb→le _ _ k)

-- A submission that the validator lets pass has an output of at most 200000 characters of JSON and no
-- error, or an error and no output; its metrics have at most 64 keys and 200000 characters.
pub validate_submission-IsOneOf :
    (r : JobSubmitRequest)
    → validate_submission r ≡ true
    → IsOneOf r.output r.error_message
      × ((metrics : Fields)
          → r.metrics_json ≡ some metrics
          → (key_count metrics ≤ max_metrics_keys) × (json_size metrics ≤ max_json_payload_chars))
unfolding validate_submission
validate_submission-IsOneOf r h =
    let (one, h1) = both_true _ _ h in
    let (few, h2) = both_true _ _ h1 in
    let (output_size, metrics_size) = both_true _ _ h2 in
    (
      one_of r.output r.error_message one output_size,
      bounded_metrics r.metrics_json few metrics_size,
    )
