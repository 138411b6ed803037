-- ===== src/Api/PoolTests.antt =====
-- The theorems on polls, heartbeats, api/p2p.py, api/me.py, api/workers.py and api/auth.py at a pool with one peer.
use open_mesh_ai.Prelude.{
  ◌++◌, str_eq, str_eq_refl, ℕ, ◌*◌, ◌≤◌, ◌≡◌, refl, Bool, false, true, none, some, [], ◌∷◌, String,
  arith, All,
}
use open_mesh_ai.Decimal.Order.{Decimal}
use open_mesh_ai.Json.{str, end, field}
use open_mesh_ai.Db.Enums.{embedding, JobStatus, offline, banned, client}
use open_mesh_ai.Db.Models.{Peer, Worker, User}
use open_mesh_ai.Db.Session.{Db, empty_db, worker_by_id}
use open_mesh_ai.Finance.Balance.{IsBalanced}
use open_mesh_ai.Finance.Tests.{running_pool-IsBalanced}
use open_mesh_ai.Dispatch.Queueing.{create_queued_job}
use open_mesh_ai.Dispatch.Assign.{assign_queued_jobs}
use open_mesh_ai.Api.Reply.{Reply, ok, is_ok}
use open_mesh_ai.Api.Users.{get_owned_worker}
use open_mesh_ai.Api.Jobs.{heartbeat_worker, JobPollResponse}
use open_mesh_ai.Api.Polled.{IsSeen, heartbeat_worker-online}
use open_mesh_ai.Api.Peers.{
  PeerAuth, authenticate_peer, has_available_capacity, P2pJobForwardRequest, forward_job,
  P2pResultRelayRequest, relay_result,
}
use open_mesh_ai.Api.Federated.{IsKnown, forward_job-IsBalanced}
use open_mesh_ai.Api.Auth.{RegisterRequest, register, TokenKind, access, refresh, login}
use open_mesh_ai.Api.LoggedIn.{login-register}
use open_mesh_ai.Api.Me.{newest_first, entries_of, my_ledger}
use open_mesh_ai.Api.Pages.{shown, pages-shown}
use open_mesh_ai.Api.Workers.{WorkerRegisterRequest, register_worker}
use open_mesh_ai.Api.Registered.{HasNoSettings, registered_unassigned}
use open_mesh_ai.Samples.{running_pool, waiting_pool, gpu, owner, buyer, buyer_account, grant}

abbrev friend : Peer
friend = record {
  peer_id = "pool-b";
  url = "https://b.example.org";
  shared_secret = "a secret";
  last_seen = none;
}

abbrev federated_pool : Db
federated_pool = record running_pool { peers = friend ∷ [] }

abbrev auth : PeerAuth
auth = record { peer_id = "pool-b"; shared_secret = "a secret" }

abbrev float_text : Decimal → String
float_text d = "1.0"

abbrev forward : P2pJobForwardRequest
forward = record {
  auth = auth;
  origin_job_id = "42";
  origin_pool = "pool-b";
  job_type = embedding;
  payload = end;
  priority = 3;
}

abbrev forwarded : Reply ((ℕ × JobStatus) × Db)
forwarded = forward_job float_text 50 forward federated_pool

abbrev db_of : {A : Type 0} → Reply (A × Db) → Db
db_of (ok (a, db)) = db
db_of _ = empty_db

forward-ok : forwarded ≡ ok ((2, JobStatus.queued), db_of forwarded)
unfolding forward_job authenticate_peer has_available_capacity create_queued_job
forward-ok = refl

forward_job-IsBalanced_example :
    IsKnown auth federated_pool
    × (has_available_capacity federated_pool ≡ true)
    × (◌≡◌ {A = ℕ × JobStatus} (2, JobStatus.queued) (federated_pool.next_job_id, JobStatus.queued))
    × IsBalanced (db_of forwarded)
forward_job-IsBalanced_example =
    forward_job-IsBalanced float_text 50 forward federated_pool (db_of forwarded)
      (2, JobStatus.queued) running_pool-IsBalanced forward-ok

abbrev relay : P2pResultRelayRequest
relay = record {
  auth = auth;
  local_job_id = 1;
  output = some end;
  error_message = none;
  output_hash = none;
}

abbrev relayed : Reply ((ℕ × JobStatus) × Db)
relayed = relay_result 60 "1970-01-01T00:01:00+00:00" relay federated_pool

relay-ok : relayed ≡ ok ((1, JobStatus.completed), db_of relayed)
unfolding relay_result authenticate_peer
relay-ok = refl

-- Three entries in two pages of two.
abbrev busy_pool : Db
busy_pool = record running_pool {
  ledger = grant ∷ record grant { id = 2 } ∷ record grant { id = 3 } ∷ [];
}

few : (my_ledger 1 2 buyer busy_pool).total ≤ 2 * 2
unfolding my_ledger
few = omega arith

pages-shown_example : shown 2 2 buyer busy_pool ≡ newest_first (entries_of 1 busy_pool)
pages-shown_example = pages-shown 2 2 buyer busy_pool buyer_account refl few

abbrev registration : WorkerRegisterRequest
registration = record { name = "gpu-8"; region = none; specs_json = none; public_key = none }

-- No worker, and the job waits.
abbrev new_pool : Db
new_pool = record waiting_pool { workers = [] }

abbrev registered : Reply (Worker × Db)
registered = register_worker 8 owner registration new_pool

abbrev newcomer : Worker
newcomer = record {
  id = 8;
  name = "gpu-8";
  owner_user_id = 2;
  status = offline;
  region = none;
  specs_json = none;
  public_key = none;
  last_seen_at = none;
  settings = none;
}

registered-ok : registered ≡ ok (newcomer, db_of registered)
unfolding register_worker
registered-ok = refl

abbrev alive : Reply ((ℕ × ℕ) × Db)
alive = heartbeat_worker 70 8 owner (db_of registered)

alive-ok : alive ≡ ok ((8, 70), db_of alive)
unfolding heartbeat_worker get_owned_worker register_worker
alive-ok = refl

registered_unassigned_example :
    All HasNoSettings (db_of alive).workers
    × (assign_queued_jobs 50 80 (λ i. "n") (db_of alive) ≡ some (0, db_of alive))
registered_unassigned_example =
    registered_unassigned 50 70 80 8 (λ i. "n") owner registration newcomer 8 (8, 70) new_pool
      (db_of registered) (db_of alive) tt registered-ok alive-ok

abbrev banned_worker : Worker
banned_worker = record gpu { status = banned }

abbrev banned_pool : Db
banned_pool = record running_pool { workers = banned_worker ∷ [] }

abbrev back : Reply ((ℕ × ℕ) × Db)
back = heartbeat_worker 70 7 owner banned_pool

back-ok : back ≡ ok ((7, 70), db_of back)
unfolding heartbeat_worker get_owned_worker
back-ok = refl

heartbeat_worker-online_example :
    (w : Worker) × (w' : Worker) × (worker_by_id 7 banned_pool ≡ some w)
    × (worker_by_id 7 (db_of back) ≡ some w')
    × IsSeen 70 w w'
    × ((db_of back).heartbeats
        ≡ banned_pool.heartbeats ++ record { worker_id = 7; recorded_at = 70 } ∷ [])
    × (worker_by_id 8 (db_of back) ≡ worker_by_id 8 banned_pool)
heartbeat_worker-online_example =
    heartbeat_worker-online 70 7 8 owner banned_pool (db_of back) (7, 70) (λ e. omega (arith, e))
      back-ok

abbrev polled : JobPollResponse
polled = record {
  assignment_id = 1;
  job = field "input" (str "hello") end;
  nonce = "n1";
  cost_hint_tokens = 5;
}

abbrev plain_hash : String → String
plain_hash password = password

abbrev plain_verify : String → String → Bool
plain_verify password hash = str_eq password hash

abbrev token_text : TokenKind → User → String
token_text access u = "access"
token_text refresh u = "refresh"

abbrev newcomer_request : RegisterRequest
newcomer_request = record { email = "new@example.org"; password = "long enough"; role = "client" }

abbrev new_client : User
new_client = record {
  id = 3;
  email = "new@example.org";
  role = client;
  is_active = true;
  password_hash = some "long enough";
}

abbrev signed_up : Reply (User × Db)
signed_up = register plain_hash 3 newcomer_request running_pool

signed_up-ok : signed_up ≡ ok (new_client, db_of signed_up)
unfolding register
signed_up-ok = refl

login-register_example :
    (login plain_verify token_text
        (record { email = "new@example.org"; password = "long enough" })
        (db_of signed_up)
      ≡ ok (record { access_token = "access"; refresh_token = "refresh" }))
    × (is_ok (register plain_hash 4 newcomer_request (db_of signed_up)) ≡ false)
    × IsBalanced (db_of signed_up)
login-register_example =
    login-register plain_hash plain_verify token_text 3 4 newcomer_request newcomer_request
      new_client running_pool (db_of signed_up) (λ password. str_eq_refl password) signed_up-ok refl
      running_pool-IsBalanced
