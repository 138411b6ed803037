-- ===== src/Verification/Outcome.antt =====
-- The verdict of `process_submission_verification` of verification.py, over all its branches.
use open_mesh_ai.Prelude.{
  ℕ, ◌≡◌, ◌≢◌, refl, Option, none, some, String, if◌then◌else◌, opt_str_eq, >>=-eq-some, some_inj,
  sym, ◌∙◌, ap, Bool-cases, Option-cases, inl, inr,
}
use open_mesh_ai.Db.Enums.{VerificationStatus, pending, verified, disputed, rejected}
use open_mesh_ai.Db.Models.{Assignment, SubmissionResult}
use open_mesh_ai.Db.Session.{Db, result_of}
use open_mesh_ai.Verification.Floats.{Floats}
use open_mesh_ai.Verification.Similarity.{cosine_similarity, extract_embedding, object_of}
use open_mesh_ai.Verification.Policy.{AuditPolicy, load_audit_policy}
use open_mesh_ai.Verification.Process.{
  expected_hash, peer_of, dispute_both, process_peer_job, process_with_peer,
  process_submission_verification, agrees, score_of, float_text,
}
use open_mesh_ai.Verification.Verdict.{
  recorded, Records, process_canonical_job-Records, verify_both-Records, dispute_both-Records,
}

-- With an expected hash the output's hash decides; without one nothing is rejected.
abbrev pub IsAllowed : Option String → Option String → VerificationStatus → Type 0
IsAllowed (some hash) output_hash st =
    st ≡ (if opt_str_eq output_hash (some hash) then verified else rejected)
IsAllowed none output_hash st = st ≢ rejected

module _ {F : Type 0} (fl : Floats F) where
  process_peer_job-Records :
      (now : ℕ) (nonce : String) (policy : AuditPolicy) (a : Assignment) (result : SubmissionResult)
      (peer : Assignment) (peer_result : SubmissionResult) (db db' : Db) (st : VerificationStatus)
      → Records a.id db pending
      → process_peer_job fl now nonce policy a result peer peer_result db ≡ some (st, db')
      → (st ≢ rejected) × Records a.id db' st
  unfolding process_peer_job
  process_peer_job-Records now nonce policy a result peer peer_result db db' st h e =
      let (q, computes, e') =
        >>=-eq-some
          (cosine_similarity fl (extract_embedding (object_of peer_result.output))
            (extract_embedding (object_of result.output)))
          _ e in
      elim (Bool-cases (agrees fl policy q)) [
        | inl close ↦
            let (same, kept) =
              verify_both-Records fl policy (score_of fl q) a peer pending db db' st h
                (rw close at e') in
            ((λ bad. cc), kept)
        | inr far ↦ disputes (some_inj (rw far at e'))
      ]
    where
      disputes :
          ◌≡◌ {A = VerificationStatus × Db}
            (disputed, dispute_both fl now nonce a peer db)
            (st, db')
          → (st ≢ rejected) × Records a.id db' st
      disputes q =
          let same : disputed ≡ st = ap (λ (out : VerificationStatus × Db). out.0) q in
          (
            (λ bad. cc),
            sym (ap (λ (out : VerificationStatus × Db). recorded a.id out.1.results) q)
                ∙ dispute_both-Records fl now nonce a peer pending db h
                ∙ ap some same,
          )

  stays_pending :
      (i : ℕ) (db db' : Db) (st : VerificationStatus)
      → Records i db pending
      → ◌≡◌ {A = Option (VerificationStatus × Db)} (some (pending, db)) (some (st, db'))
      → (st ≢ rejected) × Records i db' st
  stays_pending i db db' st h e =
      let q = some_inj e in
      let same : pending ≡ st = ap (λ (out : VerificationStatus × Db). out.0) q in
      (
        (λ bad. cc),
        sym (ap (λ (out : VerificationStatus × Db). recorded i out.1.results) q) ∙ h ∙ ap some same,
      )

  process_with_peer-Records :
      (now : ℕ) (nonce : String) (policy : AuditPolicy) (a : Assignment) (result : SubmissionResult)
      (peer : Option Assignment) (db db' : Db) (st : VerificationStatus)
      → Records a.id db pending
      → process_with_peer fl now nonce policy a result peer db ≡ some (st, db')
      → (st ≢ rejected) × Records a.id db' st
  unfolding process_with_peer
  process_with_peer-Records now nonce policy a result none db db' st h e =
      stays_pending a.id db db' st h e
  process_with_peer-Records now nonce policy a result (some peer) db db' st h e =
      elim (Option-cases (result_of peer.id db)) [
        | inl absent ↦ stays_pending a.id db db' st h (rw (absent, process_with_peer) at e)
        | inr (r, there) ↦
            process_peer_job-Records now nonce policy a result peer r db db' st h
              (rw (there, process_with_peer) at e)
      ]

  -- Where the call does not raise and the result was pending, the verdict that it returns is the one
  -- that the result's row holds afterwards, on every branch. With an expected hash it is `verified`
  -- exactly where the output's hash equals it, and else `rejected`; without one it is never `rejected`.
  pub verdict_recorded :
      (now : ℕ) (nonce : String) (a : Assignment) (result : SubmissionResult) (db db' : Db)
      (st : VerificationStatus)
      → recorded a.id db.results ≡ some pending
      → process_submission_verification fl now nonce a result db ≡ some (st, db')
      → IsAllowed (expected_hash a db) result.output_hash st × (recorded a.id db'.results ≡ some st)
  unfolding process_submission_verification
  verdict_recorded now nonce a result db db' st h e = by_hash (expected_hash a db) refl
    where
      policy : AuditPolicy
      policy = load_audit_policy db

      by_hash :
          (hash : Option String)
          → expected_hash a db ≡ hash
          → IsAllowed hash result.output_hash st × (recorded a.id db'.results ≡ some st)
      by_hash none at_hash =
          process_with_peer-Records now nonce policy a result (peer_of a db) db db' st h
            (rw (at_hash, process_submission_verification) at e)
      by_hash (some hash) at_hash =
          process_canonical_job-Records (float_text fl) policy hash a result pending db db' st h
            (rw (at_hash, process_submission_verification) at e)
