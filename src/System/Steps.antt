-- ===== src/System/Steps.antt =====
-- The endpoints of api/ that write, the two loops of services/scheduler.py and `seed_defaults` of
-- db/seeds.py, as the steps of one state: the tables and the limiter of the submissions. A request is
-- over, and its session committed or dropped, before the next one begins.
use open_mesh_ai.Prelude.{ℕ, Bool, List, String}
use open_mesh_ai.Db.Models.{User}
use open_mesh_ai.Db.Session.{Db}
use open_mesh_ai.Dispatch.Assign.{dispatch_round}
use open_mesh_ai.Verification.Floats.{Floats}
use open_mesh_ai.Verification.Process.{float_text}
use open_mesh_ai.Emission.Run.{emission_round}
use open_mesh_ai.Seeds.Defaults.{Argon2, Bootstrap, seed_defaults}
use open_mesh_ai.Admin.Actions.{AdminEnqueueDemoRequest, enqueue_demo_jobs, admin_emission_run_now}
use open_mesh_ai.Api.Reply.{Reply, ok, refused, server_error}
use open_mesh_ai.Api.Auth.{RegisterRequest, register}
use open_mesh_ai.Api.Workers.{WorkerRegisterRequest, register_worker}
use open_mesh_ai.Api.Jobs.{InternalJobCreateRequest, create_internal_job, heartbeat_worker}
use open_mesh_ai.Api.Peers.{
  PeerAuth, P2pJobForwardRequest, P2pResultRelayRequest, register_peer, forward_job, relay_result,
}
use open_mesh_ai.Api.Submit.{App, JobSubmitRequest, submit_job}

-- What an endpoint leaves of the tables: its changes are committed where it answers, and the session
-- is closed without a commit where it does not.
abbrev pub after : {A : Type 0} → Reply (A × Db) → Db → Db
after (ok (response, rows)) db = rows
after (refused status detail) db = db
after server_error db = db

-- The state with other tables.
abbrev pub on : Db → App → App
on db s = record s { db = db }

-- The instants, the ids that the sequences give, the nonces and the requests are whatever they may
-- be; who calls an endpoint is the user that its dependency found.
module _ {F : Type 0} (fl : Floats F) (argon2 : Argon2)
    (ed25519 : List ℕ → List ℕ → List ℕ → Bool) where
  pub data Step : App → App → Type 0 where
    submits :
        (s : App) (now clock : ℕ) (nonce : String) (commits : Bool) (u : User)
        (p : JobSubmitRequest)
        → Step s (submit_job fl ed25519 now clock nonce commits u p s).1
    creates :
        (s : App) (p : InternalJobCreateRequest)
        → Step s (on (after (create_internal_job (float_text fl) p s.db) s.db) s)
    beats :
        (s : App) (now worker_id : ℕ) (u : User)
        → Step s (on (after (heartbeat_worker now worker_id u s.db) s.db) s)
    signs_up :
        (s : App) (hash_password : String → String) (next_id : ℕ) (p : RegisterRequest)
        → Step s (on (after (register hash_password next_id p s.db) s.db) s)
    adds_worker :
        (s : App) (next_id : ℕ) (u : User) (p : WorkerRegisterRequest)
        → Step s (on (after (register_worker next_id u p s.db) s.db) s)
    meets :
        (s : App) (now : ℕ) (auth : PeerAuth) (url : String)
        → Step s (on (after (register_peer now auth url s.db) s.db) s)
    forwards :
        (s : App) (now : ℕ) (p : P2pJobForwardRequest)
        → Step s (on (after (forward_job (float_text fl) now p s.db) s.db) s)
    relays :
        (s : App) (now : ℕ) (relayed_at : String) (p : P2pResultRelayRequest)
        → Step s (on (after (relay_result now relayed_at p s.db) s.db) s)
    demonstrates :
        (s : App) (p : AdminEnqueueDemoRequest) (u : User)
        → Step s (on (after (enqueue_demo_jobs (float_text fl) p u s.db) s.db) s)
    runs_emission :
        (s : App) (cap_tokens base_tokens now : ℕ) (u : User)
        → Step s (on (after (admin_emission_run_now cap_tokens base_tokens now u s.db) s.db) s)
    dispatches :
        (s : App) (now : ℕ) (nonce_of : ℕ → String)
        → Step s (on (dispatch_round now nonce_of s.db) s)
    emits :
        (s : App) (hour minute cap_tokens base_tokens now : ℕ)
        → Step s (on (emission_round hour minute cap_tokens base_tokens now s.db) s)
    seeds :
        (s : App) (settings : Bootstrap) (next_user_id next_rule_id now : ℕ)
        → Step s (on (seed_defaults argon2 settings next_user_id next_rule_id now s.db) s)

  -- The states that some steps lead to.
  pub data Reach (s : App) : App → Type 0 where
    here : Reach s s
    next : {t u : App} → Reach s t → Step t u → Reach s u
