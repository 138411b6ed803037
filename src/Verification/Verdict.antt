-- ===== src/Verification/Verdict.antt =====
-- What `process_submission_verification` of verification.py decides and records.
use open_mesh_ai.Prelude.{
  ℕ, ◌+◌, ◌≡◌, refl, Bool, not, ◌&&◌, Option, none, some, List, [], ◌∷◌, String, ℤ, leb, ◌==◌,
  if◌then◌else◌, arith, opt_str_eq, update_by, count_by, count_by-append, ◌>>=◌, >>=-eq-some,
  some_inj, sym, ◌∙◌, ap, Bool-cases, inl, inr,
}
use open_mesh_ai.Decimal.Order.{Decimal}
use open_mesh_ai.Db.Enums.{VerificationStatus, verified, disputed, rejected}
use open_mesh_ai.Db.Models.{Assignment, SubmissionResult, Worker}
use open_mesh_ai.Db.Session.{Db}
use open_mesh_ai.Verification.Floats.{Floats}
use open_mesh_ai.Verification.Reputation.{adjusted, adjust_worker_reputation}
use open_mesh_ai.Verification.Policy.{AuditPolicy}
use open_mesh_ai.Verification.Process.{
  is_of_job, ensure_third_assignment, process_canonical_job, verify_both, dispute_both,
  third_assignment,
}

-- The verdict that the row of the assignment's result holds.
abbrev pub recorded : ℕ → List SubmissionResult → Option VerificationStatus
recorded i [] = none
recorded i (r ∷ rs) = if r.assignment_id == i then some r.verification_status else recorded i rs

recorded-update_other :
    (i j : ℕ) (st : VerificationStatus) (f : SubmissionResult → SubmissionResult)
    → ((r : SubmissionResult)
        → ((f r).assignment_id ≡ r.assignment_id) × ((f r).verification_status ≡ st))
    → (rs : List SubmissionResult) → recorded i rs ≡ some st
    → recorded i (update_by (λ r. r.assignment_id == j) f rs) ≡ some st
recorded-update_other i j st f same [] h = h
recorded-update_other i j st f same (r ∷ rs) h =
    ground (arith, same r, recorded-update_other i j st f same rs)

recorded-update_self :
    (i : ℕ) (st old : VerificationStatus) (f : SubmissionResult → SubmissionResult)
    → ((r : SubmissionResult)
        → ((f r).assignment_id ≡ r.assignment_id) × ((f r).verification_status ≡ st))
    → (rs : List SubmissionResult) → recorded i rs ≡ some old
    → recorded i (update_by (λ r. r.assignment_id == i) f rs) ≡ some st
recorded-update_self i st old f same [] h = cc
recorded-update_self i st old f same (r ∷ rs) h =
    ground (arith, same r, recorded-update_self i st old f same rs)

pub adjust_worker_reputation-results :
    (float_text : Decimal → String) (w : Option Worker) (delta : Decimal) (rej : Bool)
    (threshold : ℤ) (db db' : Db)
    → adjust_worker_reputation float_text w delta rej threshold db ≡ some db'
    → db'.results ≡ db.results
unfolding adjust_worker_reputation
adjust_worker_reputation-results float_text none delta rej threshold db db' e =
    sym (ap (λ (x : Db). x.results) (some_inj e))
adjust_worker_reputation-results float_text (some w) delta rej threshold db db' e =
    let (w', a, e') = >>=-eq-some (adjusted float_text delta rej threshold w) _ e in
    sym (ap (λ (x : Db). x.results) (some_inj e'))

pub ensure_third_assignment-results :
    (now : ℕ) (nonce : String) (a : Assignment) (db : Db)
    → (ensure_third_assignment now nonce a db).results ≡ db.results
unfolding ensure_third_assignment
ensure_third_assignment-results now nonce a db = ground arith

-- A dispute gives the job a third assignment and never a fourth: a job with fewer than three gets one
-- more, one with three or more keeps what it has, and no other job gets any.
pub ensure_third_assignment-count :
    (now : ℕ) (nonce : String) (a : Assignment) (db : Db) (i : ℕ)
    → count_by (is_of_job i) (ensure_third_assignment now nonce a db).assignments ≡ (
        let n = count_by (is_of_job i) db.assignments in
        if i == a.job_id && not (leb 3 n) then n + 1 else n)
unfolding ensure_third_assignment
ensure_third_assignment-count now nonce a db i = ground (
  arith,
  count_by-append (is_of_job i) db.assignments (third_assignment now nonce a db ∷ []),
  same_count i,
)
  where
    same_count :
        (j : ℕ)
        → j ≡ a.job_id
        → count_by (is_of_job j) db.assignments ≡ count_by (is_of_job a.job_id) db.assignments
    same_count j e = ap (λ k. count_by (is_of_job k) db.assignments) e

-- A verdict that is returned after an adjustment, with the results as they were before it.
adjust_then :
    (float_text : Decimal → String) (w : Option Worker) (delta : Decimal) (rej : Bool)
    (threshold : ℤ) (db db' : Db) (v st : VerificationStatus)
    → (adjust_worker_reputation float_text w delta rej threshold db >>= λ (x : Db).
        let out : VerificationStatus × Db = (v, x) in some out)
      ≡ some (st, db')
    → (v ≡ st) × (db'.results ≡ db.results)
adjust_then float_text w delta rej threshold db db' v st e =
    let (x, adjusts, e') =
      >>=-eq-some (adjust_worker_reputation float_text w delta rej threshold db) _ e in
    let q = some_inj e' in
    (
      ap (λ (out : VerificationStatus × Db). out.0) q,
      ap (λ (out : VerificationStatus × Db). out.1.results) (sym q)
          ∙ adjust_worker_reputation-results float_text w delta rej threshold db x adjusts,
    )

-- The result's row holds the verdict that is returned.
abbrev pub Records : ℕ → Db → VerificationStatus → Type 0
Records i db st = recorded i db.results ≡ some st

pub adjust_then-Records :
    (i : ℕ) (float_text : Decimal → String) (w : Option Worker) (delta : Decimal) (rej : Bool)
    (threshold : ℤ) (db db' : Db) (v st : VerificationStatus)
    → Records i db v
    → (adjust_worker_reputation float_text w delta rej threshold db >>= λ (x : Db).
        let out : VerificationStatus × Db = (v, x) in some out)
      ≡ some (st, db')
    → (st ≡ v) × Records i db' st
adjust_then-Records i float_text w delta rej threshold db db' v st h e =
    let (same, kept) = adjust_then float_text w delta rej threshold db db' v st e in
    (sym same, ap (recorded i) kept ∙ h ∙ ap some same)

pub process_canonical_job-Records :
    (float_text : Decimal → String) (policy : AuditPolicy) (hash : String) (a : Assignment)
    (result : SubmissionResult) (old : VerificationStatus) (db db' : Db) (st : VerificationStatus)
    → Records a.id db old
    → process_canonical_job float_text policy (some hash) a result db ≡ some (st, db')
    → (st ≡ (if opt_str_eq result.output_hash (some hash) then verified else rejected))
      × Records a.id db' st
unfolding process_canonical_job
process_canonical_job-Records float_text policy hash a result old db db' st h e =
    elim (Bool-cases (opt_str_eq result.output_hash (some hash))) [
      | inl agreed ↦ rw agreed (
          adjust_then-Records a.id _ _ _ _ _ _ db' verified st
            (recorded-update_self a.id verified old _ (λ r. (refl, refl)) db.results h)
            (rw agreed at e))
      | inr differs ↦ rw differs (
          adjust_then-Records a.id _ _ _ _ _ _ db' rejected st
            (recorded-update_self a.id rejected old _ (λ r. (refl, refl)) db.results h)
            (rw differs at e))
    ]

module _ {F : Type 0} (fl : Floats F) where
  pub verify_both-Records :
      (policy : AuditPolicy) (score : Option Decimal) (a peer : Assignment)
      (old : VerificationStatus) (db db' : Db) (st : VerificationStatus)
      → Records a.id db old
      → verify_both fl policy score a peer db ≡ some (st, db')
      → (st ≡ verified) × Records a.id db' st
  unfolding verify_both
  verify_both-Records policy score a peer old db db' st h e =
      let (db1, adjusts, e') = >>=-eq-some (adjust_worker_reputation _ _ _ _ _ _) _ e in
      adjust_then-Records a.id _ _ _ _ _ db1 db' verified st
        (ap (recorded a.id) (adjust_worker_reputation-results _ _ _ _ _ _ db1 adjusts)
          ∙ recorded-update_other a.id peer.id verified _ (λ r. (refl, refl)) _
              (recorded-update_self a.id verified old _ (λ r. (refl, refl)) db.results h))
        e'

  pub dispute_both-Records :
      (now : ℕ) (nonce : String) (a peer : Assignment) (old : VerificationStatus) (db : Db)
      → Records a.id db old
      → Records a.id (dispute_both fl now nonce a peer db) disputed
  unfolding dispute_both
  dispute_both-Records now nonce a peer old db h =
      ap (recorded a.id) (ensure_third_assignment-results now nonce a _)
      ∙ recorded-update_other a.id peer.id disputed _ (λ r. (refl, refl)) _
          (recorded-update_self a.id disputed old _ (λ r. (refl, refl)) db.results h)
