-- ===== src/Api/Books.antt =====
-- `submit_job` of api/jobs.py and the books: the verification moves no tokens, and the accounting
-- keeps the balances.
use open_mesh_ai.Prelude.{
  ℕ, ◌≡◌, refl, Bool, Option, none, some, List, String, ℤ, arith, opt_str_eq, ◌>>=◌, >>=-eq-some,
  some_inj, ap, sym, ◌∙◌, subst, Bool-cases, Option-cases, inl, inr,
}
use open_mesh_ai.Decimal.Order.{Decimal}
use open_mesh_ai.Db.Enums.{VerificationStatus, verified, rejected}
use open_mesh_ai.Db.Models.{User, Worker, Account, LedgerEntry, Assignment, SubmissionResult}
use open_mesh_ai.Db.Session.{Db, result_of}
use open_mesh_ai.Finance.Accounting.{apply_job_verification_accounting}
use open_mesh_ai.Finance.Balance.{IsBalanced, balance_of, posted, accounting-IsBalanced}
use open_mesh_ai.Verification.Floats.{Floats}
use open_mesh_ai.Verification.Reputation.{adjusted, adjust_worker_reputation}
use open_mesh_ai.Verification.Similarity.{cosine_similarity, extract_embedding, object_of}
use open_mesh_ai.Verification.Policy.{AuditPolicy}
use open_mesh_ai.Verification.Process.{
  ensure_third_assignment, process_canonical_job, expected_hash, peer_of, verify_both, dispute_both,
  process_peer_job, process_with_peer, process_submission_verification, agrees, score_of,
  float_text,
}
use open_mesh_ai.Api.Reply.{Reply, ok}
use open_mesh_ai.Api.Submit.{
  App, JobSubmitRequest, JobSubmitResponse, new_result, finish, add_result, account_for, accept,
  submit_job,
}
use open_mesh_ai.Api.Accepted.{submit_job_refused, submit_job-Answered}
use open_mesh_ai.Api.Once.{accept-eq-ok, Reply-cases}

-- The accounts and the ledger.
abbrev pub books : Db → List Account × List LedgerEntry
books db = (db.accounts, db.ledger)

-- The same books are as much in order.
pub books-IsBalanced : (db db' : Db) → books db' ≡ books db → IsBalanced db → IsBalanced db'
books-IsBalanced db db' same h i =
    ap (λ (b : List Account × List LedgerEntry). balance_of i b.0) same
    ∙ h i
    ∙ ap (λ (b : List Account × List LedgerEntry). posted i b.1) (sym same)

-- What comes out of a step of the verification has the books of `db`.
abbrev KeepsBooks : Db → Option (VerificationStatus × Db) → Type 0
KeepsBooks db none = Unit {0}
KeepsBooks db (some (st, db')) = books db' ≡ books db

ensure_third_assignment-books :
    (now : ℕ) (nonce : String) (a : Assignment) (db : Db)
    → books (ensure_third_assignment now nonce a db) ≡ books db
unfolding ensure_third_assignment
ensure_third_assignment-books now nonce a db = ground arith

adjust_worker_reputation-books :
    (float_text : Decimal → String) (w : Option Worker) (delta : Decimal) (rej : Bool)
    (threshold : ℤ) (db db' : Db)
    → adjust_worker_reputation float_text w delta rej threshold db ≡ some db'
    → books db' ≡ books db
unfolding adjust_worker_reputation
adjust_worker_reputation-books float_text none delta rej threshold db db' e =
    ap books (sym (some_inj e))
adjust_worker_reputation-books float_text (some w) delta rej threshold db db' e =
    let (w', a, e') = >>=-eq-some (adjusted float_text delta rej threshold w) _ e in
    ap books (sym (some_inj e'))

KeepsBooks-bind :
    {A : Type 0} (m : Option A) (f : A → Option (VerificationStatus × Db)) (base : Db)
    → ((x : A) → m ≡ some x → KeepsBooks base (f x))
    → KeepsBooks base (m >>= f)
KeepsBooks-bind none f base h = tt
KeepsBooks-bind (some x) f base h = h x refl

adjust_then-books :
    (float_text : Decimal → String) (w : Option Worker) (delta : Decimal) (rej : Bool)
    (threshold : ℤ) (db base : Db) (v : VerificationStatus)
    → books db ≡ books base
    → KeepsBooks base (
        adjust_worker_reputation float_text w delta rej threshold db >>= λ (x : Db).
        let out : VerificationStatus × Db = (v, x) in some out)
adjust_then-books float_text w delta rej threshold db base v same =
    KeepsBooks-bind (adjust_worker_reputation float_text w delta rej threshold db) _ base
      (λ x adjusts.
        adjust_worker_reputation-books float_text w delta rej threshold db x adjusts ∙ same)

process_canonical_job-books :
    (float_text : Decimal → String) (policy : AuditPolicy) (hash : Option String) (a : Assignment)
    (result : SubmissionResult) (db : Db)
    → KeepsBooks db (process_canonical_job float_text policy hash a result db)
unfolding process_canonical_job
process_canonical_job-books float_text policy none a result db = refl
process_canonical_job-books float_text policy (some hash) a result db =
    elim (Bool-cases (opt_str_eq result.output_hash (some hash))) [
      | inl agreed ↦ rw agreed (adjust_then-books float_text _ _ _ _ _ db verified refl)
      | inr differs ↦ rw differs (adjust_then-books float_text _ _ _ _ _ db rejected refl)
    ]

module _ {F : Type 0} (fl : Floats F) where
  verify_both-books :
      (policy : AuditPolicy) (score : Option Decimal) (a peer : Assignment) (db : Db)
      → KeepsBooks db (verify_both fl policy score a peer db)
  unfolding verify_both
  verify_both-books policy score a peer db =
      KeepsBooks-bind (adjust_worker_reputation _ _ _ _ _ _) _ db (λ db1 adjusts.
        adjust_then-books _ _ _ _ _ db1 db verified
          (adjust_worker_reputation-books _ _ _ _ _ _ db1 adjusts))

  dispute_both-books :
      (now : ℕ) (nonce : String) (a peer : Assignment) (db : Db)
      → books (dispute_both fl now nonce a peer db) ≡ books db
  unfolding dispute_both
  dispute_both-books now nonce a peer db = ensure_third_assignment-books now nonce a _

  process_peer_job-books :
      (now : ℕ) (nonce : String) (policy : AuditPolicy) (a : Assignment) (result : SubmissionResult)
      (peer : Assignment) (peer_result : SubmissionResult) (db : Db)
      → KeepsBooks db (process_peer_job fl now nonce policy a result peer peer_result db)
  unfolding process_peer_job
  process_peer_job-books now nonce policy a result peer peer_result db =
      KeepsBooks-bind
        (cosine_similarity fl (extract_embedding (object_of peer_result.output))
          (extract_embedding (object_of result.output)))
        _ db
        (λ q computes. elim (Bool-cases (agrees fl policy q)) [
          | inl close ↦ rw close (verify_both-books policy (score_of fl q) a peer db)
          | inr far ↦ rw far (dispute_both-books now nonce a peer db)
        ])

  process_with_peer-books :
      (now : ℕ) (nonce : String) (policy : AuditPolicy) (a : Assignment) (result : SubmissionResult)
      (peer : Option Assignment) (db : Db)
      → KeepsBooks db (process_with_peer fl now nonce policy a result peer db)
  unfolding process_with_peer
  process_with_peer-books now nonce policy a result none db = refl
  process_with_peer-books now nonce policy a result (some peer) db =
      elim (Option-cases (result_of peer.id db)) [
        | inl absent ↦ rw (absent, process_with_peer)
        | inr (r, there) ↦
            rw (there, process_with_peer)
              (process_peer_job-books now nonce policy a result peer r db)
      ]

  process_submission_verification-books :
      (now : ℕ) (nonce : String) (a : Assignment) (result : SubmissionResult) (db : Db)
      → KeepsBooks db (process_submission_verification fl now nonce a result db)
  unfolding process_submission_verification
  process_submission_verification-books now nonce a result db =
      elim (Option-cases (expected_hash a db)) [
        | inl absent ↦
            rw (absent, process_submission_verification)
              (process_with_peer-books now nonce _ a result (peer_of a db) db)
        | inr (hash, there) ↦
            rw (there, process_submission_verification)
              (process_canonical_job-books (float_text fl) _ (some hash) a result db)
      ]

  -- What the books and the accounting keep, an accepted submission keeps.
  accept_inv :
      (P : Db → Type 0)
      → ((db db' : Db) → books db' ≡ books db → P db → P db')
      → ((now : ℕ) (a : Assignment) (r : SubmissionResult) (db : Db)
          → P db
          → P (apply_job_verification_accounting now a r db))
      → (now : ℕ) (nonce : String) (a : Assignment) (payload : JobSubmitRequest) (db : Db)
        (done : JobSubmitResponse × Db)
      → P db
      → accept fl now nonce a payload db ≡ ok done
      → P done.1
  unfolding account_for
  accept_inv P by_books by_accounting now nonce a payload db done h e =
      let (st, db', processed, posts) = accept-eq-ok fl now nonce a payload db done e in
      let kept = subst (KeepsBooks (add_result now a payload db)) processed (
        process_submission_verification-books now nonce (finish now payload a)
          (new_result a payload) (add_result now a payload db)) in
      subst (λ (out : JobSubmitResponse × Db). P out.1) posts
        (by_accounting now _ _ db' (by_books db db' kept h))

  pub submit_job_inv :
      (P : Db → Type 0)
      → ((db db' : Db) → books db' ≡ books db → P db → P db')
      → ((now : ℕ) (a : Assignment) (r : SubmissionResult) (db : Db)
          → P db
          → P (apply_job_verification_accounting now a r db))
      → (ed25519 : List ℕ → List ℕ → List ℕ → Bool) (now clock : ℕ) (nonce : String)
        (commits : Bool) (current_user : User) (payload : JobSubmitRequest) (app : App)
      → P app.db
      → P (submit_job fl ed25519 now clock nonce commits current_user payload app).1.db
  submit_job_inv P by_books by_accounting ed25519 now clock nonce commits current_user payload app
        h =
      elim (Reply-cases (submit_job fl ed25519 now clock nonce commits current_user payload app)) [
        | inl no_answer ↦
            subst P
              (sym (
                submit_job_refused fl ed25519 now clock nonce commits current_user payload app
                  no_answer))
              h
        | inr (response, app', e) ↦
            let it =
              submit_job-Answered fl ed25519 now clock nonce commits current_user payload app app'
                response e in
            subst (λ (out : Reply JobSubmitResponse × App). P out.1.db) (sym e)
              (accept_inv P by_books by_accounting now nonce it.assignment payload app.db
                (response, app'.db) h it.accepted)
      ]

  -- If every balance is the sum of the account's ledger entries before a submission, it is so after it,
  -- whatever comes of the request.
  pub submit_job-IsBalanced :
      (ed25519 : List ℕ → List ℕ → List ℕ → Bool) (now clock : ℕ) (nonce : String) (commits : Bool)
      (current_user : User) (payload : JobSubmitRequest) (app : App)
      → IsBalanced app.db
      → IsBalanced (submit_job fl ed25519 now clock nonce commits current_user payload app).1.db
  submit_job-IsBalanced = submit_job_inv IsBalanced books-IsBalanced accounting-IsBalanced
