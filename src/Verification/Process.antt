-- ===== src/Verification/Process.antt =====
-- `process_submission_verification` of verification.py and its parts. `none` is an exception: the
-- request fails, and nothing of it is committed.
use open_mesh_ai.Prelude.{
  ℕ, suc, Bool, true, false, not, ◌&&◌, Option, none, some, [], ◌∷◌, ◌++◌, String, pos, leb, ◌==◌,
  if◌then◌else◌, opt_str_eq, find_by, count_by, is_some, ◌>>=◌,
}
use open_mesh_ai.Decimal.Order.{Decimal, fin}
use open_mesh_ai.Decimal.Parse.{parse}
use open_mesh_ai.Db.Enums.{
  VerificationStatus, pending, verified, disputed, rejected, AssignmentStatus,
}
use open_mesh_ai.Db.Models.{Assignment, SubmissionResult}
use open_mesh_ai.Db.Session.{Db, job_by_id, result_of, update_assignment, update_result}
use open_mesh_ai.Finance.Accounting.{worker_of}
use open_mesh_ai.Verification.Floats.{Floats}
use open_mesh_ai.Verification.Similarity.{cosine_similarity, extract_embedding, object_of}
use open_mesh_ai.Verification.Reputation.{
  adjust_worker_reputation, verified_reputation_delta, rejected_reputation_delta,
}
use open_mesh_ai.Verification.Policy.{AuditPolicy, load_audit_policy}

abbrev pub is_of_job : ℕ → Assignment → Bool
is_of_job i a = a.job_id == i

abbrev pub set_verdict : VerificationStatus → SubmissionResult → SubmissionResult
set_verdict status r = record r { verification_status = status }

abbrev pub set_scored : VerificationStatus → Option Decimal → SubmissionResult → SubmissionResult
set_scored status score r = record r { verification_status = status; verification_score = score }

abbrev pub third_assignment : ℕ → String → Assignment → Db → Assignment
third_assignment now nonce a db = record {
  id = db.next_assignment_id;
  job_id = a.job_id;
  worker_id = none;
  status = AssignmentStatus.assigned;
  assigned_at = now;
  finished_at = none;
  nonce = nonce;
}

-- A third assignment, with no worker, unless the job has three. `nonce` is its nonce, with the
-- `uuid4`.
unfoldable pub ensure_third_assignment : ℕ → String → Assignment → Db → Db
ensure_third_assignment now nonce a db =
    if leb 3 (count_by (is_of_job a.job_id) db.assignments) then db else record db {
      assignments = db.assignments ++ third_assignment now nonce a db ∷ [];
      next_assignment_id = suc db.next_assignment_id;
    }

-- The job's expected hash decides.
unfoldable pub process_canonical_job :
    (Decimal → String)
    → AuditPolicy
    → Option String
    → Assignment
    → SubmissionResult
    → Db
    → Option (VerificationStatus × Db)
process_canonical_job float_text policy none a result db = some (pending, db)
process_canonical_job float_text policy (some expected) a result db =
    if opt_str_eq result.output_hash (some expected)
    then (do
      db' ←
          adjust_worker_reputation float_text (worker_of a db) verified_reputation_delta false
            policy.fraud_ban_threshold
            (update_result a.id (set_scored verified (some (fin (pos 10) 1))) db)
      some (verified, db'))
    else (do
      db' ←
          adjust_worker_reputation float_text (worker_of a db) rejected_reputation_delta true
            policy.fraud_ban_threshold
            (update_assignment a.id (λ x. record x { status = AssignmentStatus.failed })
              (update_result a.id (set_scored rejected (some (fin (pos 0) 1))) db))
      some (rejected, db'))

-- `assignment.job.canonical_expected_hash`
abbrev pub expected_hash : Assignment → Db → Option String
expected_hash a db = job_by_id a.job_id db >>= λ j. j.canonical_expected_hash

-- The first other assignment of the job that has a result.
abbrev pub peer_of : Assignment → Db → Option Assignment
peer_of a db =
    find_by (λ x. x.job_id == a.job_id && (not (x.id == a.id) && is_some (result_of x.id db)))
      db.assignments

module _ {F : Type 0} (fl : Floats F) where
  abbrev pub float_text : Decimal → String
  float_text d = fl.repr (fl.of_decimal d)

  -- `similarity is not None and similarity >= policy.embed_similarity_threshold`
  abbrev pub agrees : AuditPolicy → Option F → Bool
  agrees policy none = false
  agrees policy (some q) = fl.geb q (fl.of_decimal policy.embed_similarity_threshold)

  abbrev pub score_of : Option F → Option Decimal
  score_of none = none
  score_of (some q) = parse (fl.repr q)

  -- Both results are verified. The second worker is read after the first was adjusted: the two may
  -- be one row.
  unfoldable pub verify_both :
      AuditPolicy → Option Decimal → Assignment → Assignment → Db → Option (VerificationStatus × Db)
  verify_both policy score a peer db = do
    db1 ←
        adjust_worker_reputation float_text (worker_of a db) verified_reputation_delta false
          policy.fraud_ban_threshold
          (update_result peer.id (set_scored verified score)
            (update_result a.id (set_scored verified score) db))
    db2 ←
        adjust_worker_reputation float_text (worker_of peer db1) verified_reputation_delta false
          policy.fraud_ban_threshold db1
    some (verified, db2)

  unfoldable pub dispute_both : ℕ → String → Assignment → Assignment → Db → Db
  dispute_both now nonce a peer db =
      ensure_third_assignment now nonce a (
        update_result peer.id (set_verdict disputed) (update_result a.id (set_verdict disputed) db))

  unfoldable pub process_peer_job :
      ℕ
      → String
      → AuditPolicy
      → Assignment
      → SubmissionResult
      → Assignment
      → SubmissionResult
      → Db
      → Option (VerificationStatus × Db)
  process_peer_job now nonce policy a result peer peer_result db =
      cosine_similarity fl (extract_embedding (object_of peer_result.output))
        (extract_embedding (object_of result.output))
      >>= λ similarity.
          if agrees policy similarity
          then verify_both policy (score_of similarity) a peer db
          else some (disputed, dispute_both now nonce a peer db)

  unfoldable pub process_with_peer :
      ℕ
      → String
      → AuditPolicy
      → Assignment
      → SubmissionResult
      → Option Assignment
      → Db
      → Option (VerificationStatus × Db)
  process_with_peer now nonce policy a result none db = some (pending, db)
  process_with_peer now nonce policy a result (some peer) db = elim (result_of peer.id db) [
    | none ↦ some (pending, db)
    | some peer_result ↦ process_peer_job now nonce policy a result peer peer_result db
  ]

  unfoldable pub process_submission_verification :
      ℕ → String → Assignment → SubmissionResult → Db → Option (VerificationStatus × Db)
  process_submission_verification now nonce a result db =
      let policy = load_audit_policy db in
      let by_peer = process_with_peer now nonce policy a result (peer_of a db) db in
      elim (expected_hash a db) [
        | none ↦ by_peer
        | some hash ↦ process_canonical_job float_text policy (some hash) a result db
      ]
