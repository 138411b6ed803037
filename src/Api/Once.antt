-- ===== src/Api/Once.antt =====
-- `submit_job` of api/jobs.py: an assignment gets one result.
use open_mesh_ai.Prelude.{
  ℕ, ◌≡◌, refl, Bool, true, false, ◌&&◌, Option, none, some, List, [], ◌∷◌, ◌++◌, String, ◌==◌,
  arith, is_some, find_by, ap, sym, ◌∙◌, subst, Option-cases, inl, inr, ==_iff, ◌⊎◌,
}
use open_mesh_ai.Db.Enums.{VerificationStatus, OwnerType}
use open_mesh_ai.Db.Models.{User, Assignment, SubmissionResult}
use open_mesh_ai.Db.Session.{Db, result_of}
use open_mesh_ai.Finance.Accounts.{get_or_create_account, create_ledger_entry}
use open_mesh_ai.Finance.Accounting.{Posting, posting_of, settle, apply_job_verification_accounting}
use open_mesh_ai.Verification.Floats.{Floats}
use open_mesh_ai.Verification.Process.{process_submission_verification}
use open_mesh_ai.Verification.Verdict.{recorded}
use open_mesh_ai.Verification.Outcome.{verdict_recorded}
use open_mesh_ai.Api.Reply.{Reply, ok, refused, server_error, is_ok, or_fail, >>=-eq-ok, ok_inj}
use open_mesh_ai.Api.Submit.{
  App, JobSubmitRequest, JobSubmitResponse, new_result, finish, add_result, account_for, accept,
  submit_job,
}
use open_mesh_ai.Api.Accepted.{submit_job-Answered}

recorded-append :
    (i : ℕ) (rs : List SubmissionResult) (r : SubmissionResult)
    → is_some (find_by (λ x. x.assignment_id == i) rs) ≡ false
    → r.assignment_id ≡ i
    → recorded i (rs ++ r ∷ []) ≡ some r.verification_status
recorded-append i [] r h e = ground arith
recorded-append i (x ∷ rs) r h e = ground (arith, recorded-append i rs r)

recorded-is_some :
    (i : ℕ) (rs : List SubmissionResult) (st : VerificationStatus)
    → recorded i rs ≡ some st
    → is_some (find_by (λ x. x.assignment_id == i) rs) ≡ true
recorded-is_some i [] st h = cc
recorded-is_some i (x ∷ rs) st h = ground (arith, recorded-is_some i rs st)

get_or_create_account-results :
    (t : OwnerType) (o : ℕ) (c : String) (db : Db)
    → (get_or_create_account t o c db).1.results ≡ db.results
unfolding get_or_create_account
get_or_create_account-results t o c db = ground arith

settle-results :
    (now : ℕ) (a : Assignment) (p : Posting) (db : Db) → (settle now a p db).results ≡ db.results
unfolding settle create_ledger_entry
settle-results now a p db = simp get_or_create_account-results

accounting-results :
    (now : ℕ) (a : Assignment) (r : SubmissionResult) (db : Db)
    → (apply_job_verification_accounting now a r db).results ≡ db.results
unfolding apply_job_verification_accounting
accounting-results now a r db = elim (Option-cases (posting_of a r db)) [
  | inl returns ↦ rw (returns, apply_job_verification_accounting)
  | inr (p, posts) ↦ rw (posts, apply_job_verification_accounting) (settle-results now a p db)
]

or_fail-eq-ok : {A : Type 0} (m : Option A) {a : A} → or_fail m ≡ ok a → m ≡ some a
or_fail-eq-ok none h = cc
or_fail-eq-ok (some a) h = cc

pub accept-eq-ok :
    {F : Type 0} (fl : Floats F) (now : ℕ) (nonce : String) (a : Assignment)
    (payload : JobSubmitRequest) (db : Db) (done : JobSubmitResponse × Db)
    → accept fl now nonce a payload db ≡ ok done
    → (st : VerificationStatus) × (db' : Db) × (process_submission_verification fl now nonce
          (finish now payload a)
          (new_result a payload)
          (add_result now a payload db)
        ≡ some (st, db'))
      × (account_for fl now (finish now payload a) (new_result a payload) (st, db') ≡ done)
unfolding accept
accept-eq-ok fl now nonce a payload db done h =
    let ((st, db'), verified, h1) =
      >>=-eq-ok
        (or_fail (
          process_submission_verification fl now nonce (finish now payload a) (new_result a payload)
            (add_result now a payload db)))
        _ h in
    (st, db', or_fail-eq-ok _ verified, ok_inj h1)

accept-result :
    {F : Type 0} (fl : Floats F) (now : ℕ) (nonce : String) (a : Assignment)
    (payload : JobSubmitRequest) (db : Db) (done : JobSubmitResponse × Db)
    → is_some (result_of a.id db) ≡ false
    → accept fl now nonce a payload db ≡ ok done
    → is_some (result_of a.id done.1) ≡ true
unfolding account_for
accept-result fl now nonce a payload db done fresh h =
    let (st, db', verified, posts) = accept-eq-ok fl now nonce a payload db done h in
    let (allowed, kept) =
      verdict_recorded fl now nonce (finish now payload a) (new_result a payload) _ db' st
        (recorded-append a.id db.results (new_result a payload) fresh refl) verified in
    recorded-is_some a.id done.1.results st (
      ap (recorded a.id) (
        sym (ap (λ (out : JobSubmitResponse × Db). out.1.results) posts)
        ∙ accounting-results now _ _ db')
      ∙ kept)

find_by-id :
    (i : ℕ) (p : Assignment → Bool) (rows : List Assignment) (a : Assignment)
    → find_by (λ x. x.id == i && p x) rows ≡ some a
    → a.id ≡ i
find_by-id i p [] a h = cc
find_by-id i p (x ∷ rows) a h = ground (arith, find_by-id i p rows a, ==_iff x.id i)

-- A reply is an answer or it is not.
pub Reply-cases :
    (out : Reply JobSubmitResponse × App)
    → (is_ok out.0 ≡ false)
      ⊎ ((response : JobSubmitResponse) × (app : App) × (out ≡ (ok response, app)))
Reply-cases (ok response, app) = inr (response, app, refl)
Reply-cases (refused status detail, app) = inl refl
Reply-cases (server_error, app) = inl refl

-- Once a submission for an assignment was answered, no submission for it is answered by the state
-- that it left: whoever sends it, at whatever time, with whatever output, key or signature.
pub submit_job_once :
    {F : Type 0} (fl : Floats F) (ed25519 : List ℕ → List ℕ → List ℕ → Bool)
    (now clock later later_clock : ℕ) (nonce later_nonce : String) (commits later_commits : Bool)
    (current_user later_user : User) (payload again : JobSubmitRequest) (app app' : App)
    (response : JobSubmitResponse)
    → submit_job fl ed25519 now clock nonce commits current_user payload app ≡ (ok response, app')
    → again.assignment_id ≡ payload.assignment_id
    → is_ok
        (submit_job fl ed25519 later later_clock later_nonce later_commits later_user again app').0
      ≡ false
submit_job_once fl ed25519 now clock later later_clock nonce later_nonce commits later_commits
      current_user later_user payload again app app' response h same =
    elim (Reply-cases
      (submit_job fl ed25519 later later_clock later_nonce later_commits later_user again app')) [
        | inl no_answer ↦ no_answer
        | inr (second, app2, h2) ↦
            let first =
              submit_job-Answered fl ed25519 now clock nonce commits current_user payload app app'
                response h in
            let other =
              submit_job-Answered fl ed25519 later later_clock later_nonce later_commits later_user
                again app' app2 second h2 in
            let a = first.assignment in
            let b = other.assignment in
            let there =
              accept-result fl now nonce a payload app.db (response, app'.db)
                first.submittable.first_result first.accepted in
            let one : b.id ≡ a.id =
              find_by-id again.assignment_id _ app'.db.assignments b other.submittable.found
              ∙ same
              ∙ sym (
                  find_by-id payload.assignment_id _ app.db.assignments a
                    first.submittable.found) in
            let absent : is_some (result_of a.id app'.db) ≡ false =
              subst (λ (i : ℕ). is_some (result_of i app'.db) ≡ false) one
                other.submittable.first_result in
            cc
      ]
