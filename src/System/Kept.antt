-- ===== src/System/Kept.antt =====
-- What the accounting, the emission, the fee for another pool's job, a new client's account and every
-- change of other tables keep is kept by each step of the coordinator.
use open_mesh_ai.Prelude.{
  ℕ, ◌≡◌, refl, Bool, not, Option, none, some, is_some, List, [], ◌∷◌, ◌++◌, String, subst, inl,
  inr, Bool-cases, find_by,
}
use open_mesh_ai.Decimal.Order.{Decimal}
use open_mesh_ai.Db.Models.{User, Assignment, SubmissionResult}
use open_mesh_ai.Db.Session.{Db, job_by_id}
use open_mesh_ai.Db.Enums.{worker_owner, JobStatus}
use open_mesh_ai.Verification.Floats.{Floats}
use open_mesh_ai.Verification.Process.{float_text}
use open_mesh_ai.Finance.Accounts.{record_interpool_fee_placeholder}
use open_mesh_ai.Finance.Accounting.{apply_job_verification_accounting}
use open_mesh_ai.Emission.Run.{
  DailyEmissionResult, committed, should_run_time, get_daily_emission_status, run_daily_emission,
  emission_round,
}
use open_mesh_ai.Dispatch.Queueing.{create_queued_job}
use open_mesh_ai.Dispatch.Assign.{dispatch_round}
use open_mesh_ai.Seeds.Defaults.{Argon2, seed_defaults, upsert_bootstrap_user}
use open_mesh_ai.Admin.Actions.{admin_emission_run_now}
use open_mesh_ai.Api.Reply.{
  Reply, ok, >>=-eq-ok, require_that->>, or_refuse->>=, ok_inj, or_fail-eq-ok,
}
use open_mesh_ai.Api.Auth.{RegisterRequest, has_email, open_account, new_user, register}
use open_mesh_ai.Api.Users.{require_roles}
use open_mesh_ai.Api.Jobs.{create_internal_job}
use open_mesh_ai.Api.Peers.{
  P2pJobForwardRequest, P2pResultRelayRequest, has_available_capacity, authenticate_peer,
  forward_job, relay_result,
}
use open_mesh_ai.Api.Submit.{App}
use open_mesh_ai.Api.Books.{books, submit_job_inv}
use open_mesh_ai.System.Steps.{
  after, Step, submits, creates, beats, signs_up, adds_worker, meets, forwards, relays,
  demonstrates, runs_emission, dispatches, emits, seeds, Reach, here, next,
}
use open_mesh_ai.System.Quiet.{
  after_inv, dispatch_round-books, heartbeat_worker-books, register_worker-books,
  register_peer-books, enqueue_demo_jobs-books,
}

pub record Keeps (P : Db → Type 0) : Type 0 where
  pub by_books : (db db' : Db) → books db' ≡ books db → P db → P db'
  pub by_accounting :
      (now : ℕ) (a : Assignment) (r : SubmissionResult) (db : Db)
      → P db
      → P (apply_job_verification_accounting now a r db)
  pub by_fee :
      (now : ℕ) (j : Option ℕ) (db : Db) → P db → P (record_interpool_fee_placeholder now j db)
  pub by_account : (u : User) (db : Db) → P db → P (open_account u db)
  pub by_emission :
      (cap_tokens base_tokens now : ℕ) (db : Db) (out : DailyEmissionResult × Db)
      → run_daily_emission cap_tokens base_tokens now db ≡ some out
      → P db
      → P out.1

module _ (P : Db → Type 0) (keeps : Keeps P) where
  committed_inv :
      (cap_tokens base_tokens now : ℕ) (db : Db)
      → P db
      → P (committed (run_daily_emission cap_tokens base_tokens now db) db)
  committed_inv cap_tokens base_tokens now db h =
      from (run_daily_emission cap_tokens base_tokens now db)
        (λ out e. keeps.by_emission cap_tokens base_tokens now db out e h)
    where
      from :
          (done : Option (DailyEmissionResult × Db))
          → ((out : DailyEmissionResult × Db) → done ≡ some out → P out.1)
          → P (committed done db)
      from none kept = h
      from (some (out, db')) kept = kept (out, db') refl

  emission_round_inv :
      (hour minute cap_tokens base_tokens now : ℕ) (db : Db)
      → P db
      → P (emission_round hour minute cap_tokens base_tokens now db)
  unfolding emission_round
  emission_round_inv hour minute cap_tokens base_tokens now db h =
      elim (Bool-cases (should_run_time hour minute now)) [
        | inr early ↦ rw early h
        | inl due ↦ elim (Bool-cases (get_daily_emission_status cap_tokens now db).run_completed) [
          | inl done ↦ rw (due, done) h
          | inr not_run ↦ rw (due, not_run) (committed_inv cap_tokens base_tokens now db h)
        ]
      ]

  register_inv :
      (hash_password : String → String) (next_id : ℕ) (p : RegisterRequest) (db : Db)
      (out : User × Db)
      → register hash_password next_id p db ≡ ok out
      → P db
      → P out.1
  unfolding register
  register_inv hash_password next_id p db out e h =
      let (free, e1) =
        require_that->> (not (is_some (find_by (has_email p.email) db.users))) _ _ _ e in
      let u = new_user next_id (hash_password p.password) p in
      let rows = record db { users = db.users ++ u ∷ [] } in
      subst (λ (x : User × Db). P x.1) (ok_inj e1)
        (keeps.by_account u rows (keeps.by_books db rows refl h))

  forward_job_inv :
      (float_text : Decimal → String) (now : ℕ) (p : P2pJobForwardRequest) (db : Db)
      (out : (ℕ × JobStatus) × Db)
      → forward_job float_text now p db ≡ ok out
      → P db
      → P out.1
  unfolding forward_job create_queued_job
  forward_job_inv float_text now p db out e h =
      let (peer, known, e1) = >>=-eq-ok (authenticate_peer p.auth db) _ e in
      let (room, e2) = require_that->> (has_available_capacity db) _ _ _ e1 in
      subst (λ (x : (ℕ × JobStatus) × Db). P x.1) (ok_inj e2)
        (keeps.by_fee now _ _ (keeps.by_books db _ refl h))

  relay_result_inv :
      (now : ℕ) (relayed_at : String) (p : P2pResultRelayRequest) (db : Db)
      (out : (ℕ × JobStatus) × Db)
      → relay_result now relayed_at p db ≡ ok out
      → P db
      → P out.1
  unfolding relay_result
  relay_result_inv now relayed_at p db out e h =
      let (peer, known, e1) = >>=-eq-ok (authenticate_peer p.auth db) _ e in
      let (job, there, e2) = or_refuse->>= (job_by_id p.local_job_id db) _ _ _ e1 in
      subst (λ (x : (ℕ × JobStatus) × Db). P x.1) (ok_inj e2)
        (keeps.by_fee now _ _ (keeps.by_books db _ refl h))

  run_now_inv :
      (cap_tokens base_tokens now : ℕ) (u : User) (db : Db) (out : DailyEmissionResult × Db)
      → admin_emission_run_now cap_tokens base_tokens now u db ≡ ok out
      → P db
      → P out.1
  unfolding admin_emission_run_now
  run_now_inv cap_tokens base_tokens now u db out e h =
      let (admin, _, e1) = >>=-eq-ok (require_roles (worker_owner ∷ []) u) _ e in
      keeps.by_emission cap_tokens base_tokens now db out (or_fail-eq-ok _ e1) h

  -- An endpoint that leaves the books.
  quiet_inv :
      {A : Type 0} (reply : Reply (A × Db)) (db : Db)
      → P db
      → ((out : A × Db) → reply ≡ ok out → books out.1 ≡ books db)
      → P (after reply db)
  quiet_inv reply db h same =
      after_inv P reply db h (λ out e. keeps.by_books db out.1 (same out e) h)

  module _ {F : Type 0} (fl : Floats F) (argon2 : Argon2)
      (ed25519 : List ℕ → List ℕ → List ℕ → Bool) where
    Step_inv : {s t : App} → Step fl argon2 ed25519 s t → P s.db → P t.db
    unfolding create_internal_job create_queued_job seed_defaults upsert_bootstrap_user
    Step_inv (submits s now clock nonce commits u p) h =
        submit_job_inv fl P keeps.by_books keeps.by_accounting ed25519 now clock nonce commits u p s
          h
    Step_inv (creates s p) h = keeps.by_books s.db _ refl h
    Step_inv (beats s now worker_id u) h =
        quiet_inv _ s.db h (heartbeat_worker-books now worker_id u s.db)
    Step_inv (signs_up s hash_password next_id p) h =
        after_inv P _ s.db h (λ out e. register_inv hash_password next_id p s.db out e h)
    Step_inv (adds_worker s next_id u p) h =
        quiet_inv _ s.db h (register_worker-books next_id u p s.db)
    Step_inv (meets s now auth url) h = quiet_inv _ s.db h (register_peer-books now auth url s.db)
    Step_inv (forwards s now p) h =
        after_inv P _ s.db h (λ out e. forward_job_inv (float_text fl) now p s.db out e h)
    Step_inv (relays s now relayed_at p) h =
        after_inv P _ s.db h (λ out e. relay_result_inv now relayed_at p s.db out e h)
    Step_inv (demonstrates s p u) h =
        quiet_inv _ s.db h (enqueue_demo_jobs-books (float_text fl) p u s.db)
    Step_inv (runs_emission s cap_tokens base_tokens now u) h =
        after_inv P _ s.db h (λ out e. run_now_inv cap_tokens base_tokens now u s.db out e h)
    Step_inv (dispatches s now nonce_of) h =
        keeps.by_books s.db (dispatch_round now nonce_of s.db)
          (dispatch_round-books now nonce_of s.db) h
    Step_inv (emits s hour minute cap_tokens base_tokens now) h =
        emission_round_inv hour minute cap_tokens base_tokens now s.db h
    Step_inv (seeds s settings next_user_id next_rule_id now) h = keeps.by_books s.db _ refl h

    pub Reach_inv : {s t : App} → P s.db → Reach fl argon2 ed25519 s t → P t.db
    Reach_inv h here = h
    Reach_inv h (next steps step) = Step_inv step (Reach_inv h steps)
