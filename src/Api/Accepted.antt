-- ===== src/Api/Accepted.antt =====
-- `submit_job` of api/jobs.py: what a refusal leaves, and what an answer has passed.
use open_mesh_ai.Prelude.{
  ℕ, ◌≡◌, refl, Bool, true, false, not, ◌&&◌, Option, none, some, List, String, ◌==◌, str_eq, arith,
  is_some, text_of, find_by, ap, ◌∙◌, subst, Bool-cases, inl, inr, codes,
}
use open_mesh_ai.Db.Enums.{is_active}
use open_mesh_ai.Db.Models.{User, Worker, Assignment}
use open_mesh_ai.Db.Session.{Db, result_of}
use open_mesh_ai.RateLimit.Limiter.{allow}
use open_mesh_ai.Crypto.Base64.{Decoded, bytes, bad_encoding, bad_length, decode_base64url}
use open_mesh_ai.Crypto.Signature.{verify_ed25519_signature}
use open_mesh_ai.Verification.Floats.{Floats}
use open_mesh_ai.Api.Reply.{
  Reply, ok, refused, server_error, is_ok, >>=-eq-ok, ok_inj, require_that-eq-ok, or_refuse->>=,
  require_that->>,
}
use open_mesh_ai.Api.Users.{get_owned_worker}
use open_mesh_ai.Api.Jobs.{is_given_to}
use open_mesh_ai.Api.Submit.{
  App, JobSubmitRequest, JobSubmitResponse, signed_payload_bytes, configured_key, require_valid,
  find_submittable, accept, submit_checked, answer, submit_job,
}

-- The worker's key and the signature decode, and the scheme accepts them for what was signed.
abbrev pub IsSigned : (List ℕ → List ℕ → List ℕ → Bool) → Worker → JobSubmitRequest → Type 0
IsSigned ed25519 w payload =
    (text : String) × (key : List ℕ) × (signature : List ℕ) × (w.public_key ≡ some text)
    × (decode_base64url (codes text) (some 32) ≡ bytes key)
    × (decode_base64url (codes payload.signature) (some 64) ≡ bytes signature)
    × (ed25519 key signature (signed_payload_bytes payload) ≡ true)

-- The assignment is this worker's, open, without a result, and asked for with its nonce.
pub record IsSubmittable (w : Worker) (payload : JobSubmitRequest) (db : Db) (a : Assignment)
    : Type 0 where
  pub found :
      find_by (λ x. x.id == payload.assignment_id && is_given_to w.id x) db.assignments ≡ some a
  pub same_nonce : str_eq a.nonce payload.nonce ≡ true
  pub first_result : is_some (result_of a.id db) ≡ false
  pub active : is_active a.status ≡ true

configured_key-eq-ok : (k : Option String) (key : String) → configured_key k ≡ ok key → k ≡ some key
configured_key-eq-ok none key h = cc
configured_key-eq-ok (some text) key h = ground arith

IsSigned_lem :
    (ed25519 : List ℕ → List ℕ → List ℕ → Bool) (w : Worker) (payload : JobSubmitRequest)
    (text : String)
    → w.public_key ≡ some text
    → require_valid
        (verify_ed25519_signature ed25519 text payload.signature (signed_payload_bytes payload))
      ≡ ok tt
    → IsSigned ed25519 w payload
unfolding verify_ed25519_signature
IsSigned_lem ed25519 w payload text configured valid =
    at_key (decode_base64url (codes text) (some 32)) refl
  where
    at_signature :
        (key : List ℕ) (d : Decoded)
        → decode_base64url (codes text) (some 32) ≡ bytes key
        → decode_base64url (codes payload.signature) (some 64) ≡ d
        → IsSigned ed25519 w payload
    at_signature key (bytes signature) k s = (
      text,
      key,
      signature,
      configured,
      k,
      s,
      require_that-eq-ok _ 400 "Signature verification failed"
          (rw (k, s, verify_ed25519_signature) at valid),
    )
    at_signature key bad_encoding k s = let bad = rw (k, s, verify_ed25519_signature) at valid in cc
    at_signature key bad_length k s = let bad = rw (k, s, verify_ed25519_signature) at valid in cc

    at_key :
        (d : Decoded) → decode_base64url (codes text) (some 32) ≡ d → IsSigned ed25519 w payload
    at_key (bytes key) k =
        at_signature key (decode_base64url (codes payload.signature) (some 64)) k refl
    at_key bad_encoding k = let bad = rw (k, verify_ed25519_signature) at valid in cc
    at_key bad_length k = let bad = rw (k, verify_ed25519_signature) at valid in cc

find_submittable-eq-ok :
    (ed25519 : List ℕ → List ℕ → List ℕ → Bool) (w : Worker) (payload : JobSubmitRequest) (db : Db)
    (a : Assignment)
    → find_submittable ed25519 w payload db ≡ ok a
    → IsSigned ed25519 w payload × IsSubmittable w payload db a
unfolding find_submittable
find_submittable-eq-ok ed25519 w payload db a h =
    let (text, configured, h1) = >>=-eq-ok (configured_key w.public_key) _ h in
    let (u, valid, h2) =
      >>=-eq-ok
        (require_valid
          (verify_ed25519_signature ed25519 text payload.signature (signed_payload_bytes payload)))
        _ h1 in
    let (b, found, h3) =
      or_refuse->>=
        (find_by (λ x. x.id == payload.assignment_id && is_given_to w.id x) db.assignments) _ _ _
        h2 in
    let (same, h4) = require_that->> (str_eq b.nonce payload.nonce) _ _ _ h3 in
    let (fresh, h5) = require_that->> (not (is_some (result_of b.id db))) _ _ _ h4 in
    let (active, h6) = require_that->> (is_active b.status) _ _ _ h5 in
    let it = ok_inj h6 in
    (
      IsSigned_lem ed25519 w payload text (configured_key-eq-ok w.public_key text configured) valid,
      subst (IsSubmittable w payload db) it (record {
        found = found;
        same_nonce = same;
        first_result = ground arith;
        active = active;
      }),
    )

submit_checked-eq-ok :
    {F : Type 0} (fl : Floats F) (ed25519 : List ℕ → List ℕ → List ℕ → Bool) (now : ℕ)
    (nonce : String) (commits : Bool) (w : Worker) (payload : JobSubmitRequest) (db : Db)
    (done : JobSubmitResponse × Db)
    → submit_checked fl ed25519 now nonce commits w payload db ≡ ok done
    → (a : Assignment) × (find_submittable ed25519 w payload db ≡ ok a)
      × (accept fl now nonce a payload db ≡ ok done)
unfolding submit_checked
submit_checked-eq-ok fl ed25519 now nonce commits w payload db done h =
    let (a, found, h1) = >>=-eq-ok (find_submittable ed25519 w payload db) _ h in
    let (out, accepted, h2) = >>=-eq-ok (accept fl now nonce a payload db) _ h1 in
    let (committed, h3) = require_that->> commits _ _ _ h2 in (a, found, accepted ∙ h3)

module _ {F : Type 0} (fl : Floats F) (ed25519 : List ℕ → List ℕ → List ℕ → Bool) (now clock : ℕ)
    (nonce : String) (commits : Bool) (current_user : User) (payload : JobSubmitRequest) where
  -- What an answer went through.
  pub record Answered (app app' : App) (response : JobSubmitResponse) : Type 0 where
    pub worker : Worker
    pub assignment : Assignment
    pub owned : get_owned_worker payload.worker_id current_user.id app.db ≡ ok worker
    pub signed : IsSigned ed25519 worker payload
    pub submittable : IsSubmittable worker payload app.db assignment
    pub accepted : accept fl now nonce assignment payload app.db ≡ ok (response, app'.db)

  answer-db :
      (r : Reply (JobSubmitResponse × Db)) (app : App)
      → is_ok (answer fl r app).0 ≡ false
      → (answer fl r app).1.db ≡ app.db
  answer-db (ok (response, db)) app h = cc
  answer-db (refused status detail) app h = refl
  answer-db server_error app h = refl

  answer-eq-ok :
      (r : Reply (JobSubmitResponse × Db)) (app app' : App) (response : JobSubmitResponse)
      → answer fl r app ≡ (ok response, app')
      → r ≡ ok (response, app'.db)
  answer-eq-ok (ok (got, db)) app app' response h =
      let same = ok_inj (ap (λ (out : Reply JobSubmitResponse × App). out.0) h) in
      let rows : db ≡ app'.db = ap (λ (out : Reply JobSubmitResponse × App). out.1.db) h in cc
  answer-eq-ok (refused status detail) app app' response h =
      let bad = ap (λ (out : Reply JobSubmitResponse × App). out.0) h in cc
  answer-eq-ok server_error app app' response h =
      let bad = ap (λ (out : Reply JobSubmitResponse × App). out.0) h in cc

  -- A request that gets no answer changes no row: not where a check refuses it, not where the
  -- verification raises, and not where the commit fails.
  pub submit_job_refused :
      (app : App)
      → is_ok (submit_job fl ed25519 now clock nonce commits current_user payload app).0 ≡ false
      → (submit_job fl ed25519 now clock nonce commits current_user payload app).1.db ≡ app.db
  unfolding submit_job
  submit_job_refused app h =
      by_owner (get_owned_worker payload.worker_id current_user.id app.db) refl
    where
      by_owner :
          (r : Reply Worker)
          → get_owned_worker payload.worker_id current_user.id app.db ≡ r
          → (submit_job fl ed25519 now clock nonce commits current_user payload app).1.db ≡ app.db
      by_owner (refused status detail) e = rw (e, submit_job)
      by_owner server_error e = rw (e, submit_job)
      by_owner (ok w) e = elim (Bool-cases (allow clock (text_of w.id) app.submit_rate_limiter).0) [
        | inl admitted ↦
            rw (e, submit_job, admitted)
              (answer-db (submit_checked fl ed25519 now nonce commits w payload app.db) _
                (rw (e, submit_job, admitted) at h))
        | inr limited ↦ rw (e, submit_job, limited)
      ]

  -- An answer went through every check: the worker is the user's own; its key and the signature decode,
  -- and the scheme accepts them for the assignment, the nonce and the output's hash; the assignment is
  -- the worker's, is open, has that nonce and has no result.
  pub submit_job-Answered :
      (app app' : App) (response : JobSubmitResponse)
      → submit_job fl ed25519 now clock nonce commits current_user payload app ≡ (ok response, app')
      → Answered app app' response
  unfolding submit_job
  submit_job-Answered app app' response h =
      by_owner (get_owned_worker payload.worker_id current_user.id app.db) refl
    where
      no_answer :
          (status : ℕ) (detail : String) (l : App)
          → ◌≡◌ {A = Reply JobSubmitResponse × App} (refused status detail, l) (ok response, app')
          → Answered app app' response
      no_answer status detail l e =
          let bad = ap (λ (out : Reply JobSubmitResponse × App). out.0) e in cc

      by_owner :
          (r : Reply Worker)
          → get_owned_worker payload.worker_id current_user.id app.db ≡ r
          → Answered app app' response
      by_owner (refused status detail) e = no_answer status detail _ (rw (e, submit_job) at h)
      by_owner server_error e =
          let bad = ap (λ (out : Reply JobSubmitResponse × App). out.0) (rw (e, submit_job) at h) in
          cc
      by_owner (ok w) e = elim (Bool-cases (allow clock (text_of w.id) app.submit_rate_limiter).0) [
        | inl admitted ↦
            let (a, found, accepted) =
              submit_checked-eq-ok fl ed25519 now nonce commits w payload app.db _ (
                answer-eq-ok (submit_checked fl ed25519 now nonce commits w payload app.db) _ app'
                  response (rw (e, submit_job, admitted) at h)) in
            let (signed, submittable) = find_submittable-eq-ok ed25519 w payload app.db a found in
            record {
              worker = w;
              assignment = a;
              owned = e;
              signed = signed;
              submittable = submittable;
              accepted = accepted;
            }
        | inr limited ↦ no_answer _ _ _ (rw (e, submit_job, limited) at h)
      ]
