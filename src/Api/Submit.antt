-- ===== src/Api/Submit.antt =====
-- `submit_job` of api/jobs.py: the checks in their order, then the writes, then the commit.
-- `now` is the request's instant and `clock` the limiter's monotonic one. `nonce` is the nonce that
-- a third assignment gets. `commits` says whether `db.commit()` succeeds or raises
-- `OperationalError`.
use open_mesh_ai.Prelude.{
  ℕ, Bool, not, ◌&&◌, Option, none, some, List, [], ◌∷◌, ◌++◌, String, pos, ◌==◌, str_eq,
  if◌then◌else◌, is_empty, is_some, text_of, find_by,
}
use open_mesh_ai.Json.{Json, null, int, str, Fields, end, field, obj}
use open_mesh_ai.Db.Enums.{AssignmentStatus, is_active, VerificationStatus, pending}
use open_mesh_ai.Db.Models.{User, Worker, Assignment, SubmissionResult}
use open_mesh_ai.Db.Session.{Db, assignment_by_id, result_of, update_assignment}
use open_mesh_ai.RateLimit.Limiter.{Limiter, allow}
use open_mesh_ai.Crypto.Canonical.{canonical_json}
use open_mesh_ai.Crypto.Signature.{
  CryptoError, public_key_encoding, public_key_length, signature_encoding, signature_length,
  Verdict, malformed, checked, verify_ed25519_signature,
}
use open_mesh_ai.Finance.Accounting.{apply_job_verification_accounting}
use open_mesh_ai.Verification.Floats.{Floats}
use open_mesh_ai.Verification.Process.{process_submission_verification, set_verdict}
use open_mesh_ai.Api.Reply.{
  Reply, ok, refused, server_error, ◌>>=◌, ◌>>◌, require_that, or_refuse, or_fail,
}
use open_mesh_ai.Api.Users.{get_owned_worker}
use open_mesh_ai.Api.Jobs.{is_given_to}

-- The process: the rows, and the limiter in `app.state`.
pub record App : Type 0 where
  pub db : Db
  pub submit_rate_limiter : Limiter

pub record JobSubmitRequest : Type 0 where
  pub worker_id : ℕ
  pub assignment_id : ℕ
  pub nonce : String
  pub signature : String
  pub output : Option Fields
  pub error_message : Option String
  pub artifact_uri : Option String
  pub output_hash : Option String
  pub metrics_json : Option Fields

pub record JobSubmitResponse : Type 0 where
  pub assignment_id : ℕ
  pub status : AssignmentStatus
  pub finished_at : ℕ

abbrev pub text_or_null : Option String → Json
text_or_null none = null
text_or_null (some s) = str s

-- What the worker signs.
unfoldable pub signed_payload_bytes : JobSubmitRequest → List ℕ
signed_payload_bytes payload = canonical_json (
    obj (
      field "assignment_id" (int (pos payload.assignment_id)) (
        field "nonce" (str payload.nonce)
          (field "output_hash" (text_or_null payload.output_hash) end))))

abbrev pub crypto_error_text : CryptoError → String
crypto_error_text public_key_encoding = "Invalid public key encoding"
crypto_error_text public_key_length = "Invalid public key length"
crypto_error_text signature_encoding = "Invalid signature encoding"
crypto_error_text signature_length = "Invalid signature length"

abbrev pub configured_key : Option String → Reply String
configured_key none = refused 400 "Worker public key is not configured"
configured_key (some key) =
    if is_empty key then refused 400 "Worker public key is not configured" else ok key

abbrev pub require_valid : Verdict → Reply (Unit {0})
require_valid (malformed e) = refused 400 (crypto_error_text e)
require_valid (checked valid) = require_that valid 400 "Signature verification failed"

-- The checks after the limiter, up to the first write.
unfoldable pub find_submittable :
    (List ℕ → List ℕ → List ℕ → Bool) → Worker → JobSubmitRequest → Db → Reply Assignment
find_submittable ed25519 w payload db = do
  key ← configured_key w.public_key
  require_valid
      (verify_ed25519_signature ed25519 key payload.signature (signed_payload_bytes payload))
  a ←
      or_refuse (find_by (λ x. x.id == payload.assignment_id && is_given_to w.id x) db.assignments)
        404 "Assignment not found"
  require_that (str_eq a.nonce payload.nonce) 400 "Invalid nonce"
  require_that (not (is_some (result_of a.id db))) 409 "Assignment already submitted"
  require_that (is_active a.status) 409 "Assignment is not in a submittable state"
  ok a

-- `COMPLETED if payload.error_message is None else FAILED`
abbrev pub status_after : Option String → AssignmentStatus
status_after none = AssignmentStatus.completed
status_after (some e) = AssignmentStatus.failed

abbrev pub finish : ℕ → JobSubmitRequest → Assignment → Assignment
finish now payload a = record a {
  status = status_after payload.error_message;
  finished_at = some now;
}

abbrev pub new_result : Assignment → JobSubmitRequest → SubmissionResult
new_result a payload = record {
  assignment_id = a.id;
  output = payload.output;
  error_message = payload.error_message;
  artifact_uri = payload.artifact_uri;
  output_hash = payload.output_hash;
  signature = some payload.signature;
  metrics_json = payload.metrics_json;
  verification_status = pending;
  verification_score = none;
}

abbrev pub add_result : ℕ → Assignment → JobSubmitRequest → Db → Db
add_result now a payload db =
    let rows = update_assignment a.id (finish now payload) db in
    record rows { results = db.results ++ new_result a payload ∷ [] }

-- The object `assignment` after the verification wrote to its row.
abbrev pub reloaded : Assignment → Db → Assignment
reloaded a db = elim (assignment_by_id a.id db) [ none ↦ a | some b ↦ b ]

module _ {F : Type 0} (fl : Floats F) where
  unfoldable pub account_for :
      ℕ → Assignment → SubmissionResult → VerificationStatus × Db → JobSubmitResponse × Db
  account_for now a result (verdict, db) =
      let b = reloaded a db in
      (
        record { assignment_id = b.id; status = b.status; finished_at = now },
        apply_job_verification_accounting now b (set_verdict verdict result) db,
      )

  unfoldable pub accept :
      ℕ → String → Assignment → JobSubmitRequest → Db → Reply (JobSubmitResponse × Db)
  accept now nonce a payload db = do
    verified ← or_fail (
        process_submission_verification fl now nonce (finish now payload a) (new_result a payload)
          (add_result now a payload db))
    ok (account_for now (finish now payload a) (new_result a payload) verified)

  -- The rows change where the commit succeeds. Elsewhere the session's rollback or close, which the
  -- model takes as given, leaves them to `answer`.
  unfoldable pub submit_checked :
      (List ℕ → List ℕ → List ℕ → Bool)
      → ℕ
      → String
      → Bool
      → Worker
      → JobSubmitRequest
      → Db
      → Reply (JobSubmitResponse × Db)
  submit_checked ed25519 now nonce commits w payload db = do
    a ← find_submittable ed25519 w payload db
    done ← accept now nonce a payload db
    require_that commits 409 "Concurrent submission conflict"
    ok done

  abbrev pub answer : Reply (JobSubmitResponse × Db) → App → Reply JobSubmitResponse × App
  answer (ok (response, db)) app = (ok response, record app { db = db })
  answer (refused status detail) app = (refused status detail, app)
  answer server_error app = (server_error, app)

  -- The limiter comes after the look-up of the worker, and keeps what it counted when a later check
  -- refuses.
  unfoldable pub submit_job :
      (List ℕ → List ℕ → List ℕ → Bool)
      → ℕ
      → ℕ
      → String
      → Bool
      → User
      → JobSubmitRequest
      → App
      → Reply JobSubmitResponse × App
  submit_job ed25519 now clock nonce commits current_user payload app =
      elim (get_owned_worker payload.worker_id current_user.id app.db) [
        | refused status detail ↦ (refused status detail, app)
        | server_error ↦ (server_error, app)
        | ok w ↦
            let (admitted, l) = allow clock (text_of w.id) app.submit_rate_limiter in
            let counted = record app { submit_rate_limiter = l } in
            if admitted
            then answer (submit_checked ed25519 now nonce commits w payload app.db) counted
            else (refused 429 "Submit rate limit exceeded", counted)
      ]
