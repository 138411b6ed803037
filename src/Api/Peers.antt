-- ===== src/Api/Peers.antt =====
-- api/p2p.py: other pools that register, forward jobs to this one, and relay results.
use open_mesh_ai.Prelude.{
  ℕ, Bool, false, ◌&&◌, ◌||◌, Option, none, some, List, [], ◌∷◌, String, pos, ltb_ℤ, str_eq,
  find_by, update_by,
}
use open_mesh_ai.Decimal.Order.{Decimal, fin}
use open_mesh_ai.Json.{Json, str, obj, Fields, end, field, put}
use open_mesh_ai.Db.Enums.{JobType, JobStatus}
use open_mesh_ai.Db.Models.{Peer, Worker, Job}
use open_mesh_ai.Db.Session.{Db, job_by_id, update_job}
use open_mesh_ai.Finance.Accounts.{record_interpool_fee_placeholder}
use open_mesh_ai.Dispatch.Queueing.{create_queued_job}
use open_mesh_ai.Dispatch.Assign.{active_counts, online_workers}
use open_mesh_ai.Verification.Similarity.{object_of}
use open_mesh_ai.Api.Reply.{Reply, ok, ◌>>=◌, ◌>>◌, require_that, or_refuse}
use open_mesh_ai.Api.Submit.{text_or_null}

pub record PeerAuth : Type 0 where
  pub peer_id : String
  pub shared_secret : String

unfoldable pub authenticate_peer : PeerAuth → Db → Reply Peer
authenticate_peer auth db = do
  peer ←
      or_refuse (find_by (λ p. str_eq p.peer_id auth.peer_id) db.peers) 403
        "Peer is not allowlisted"
  require_that (str_eq peer.shared_secret auth.shared_secret) 401 "Invalid shared secret"
  ok peer

-- A worker with settings, that takes assignments and has fewer than its limit.
abbrev pub has_capacity : ℕ → Worker → Bool
has_capacity load w = elim w.settings [
  | none ↦ false
  | some s ↦ s.accept_new_assignments && ltb_ℤ (pos load) s.max_concurrency
]

abbrev pub any_capacity : (ℕ → ℕ) → List Worker → Bool
any_capacity counts [] = false
any_capacity counts (w ∷ ws) = has_capacity (counts w.id) w || any_capacity counts ws

unfoldable pub has_available_capacity : Db → Bool
has_available_capacity db = any_capacity (active_counts db) (online_workers db)

abbrev pub update_peer : String → (Peer → Peer) → Db → Db
update_peer i f db = record db { peers = update_by (λ p. str_eq p.peer_id i) f db.peers }

abbrev pub seen : ℕ → Peer → Peer
seen now p = record p { last_seen = some now }

-- The peer's id, its address and the instant.
unfoldable pub register_peer : ℕ → PeerAuth → String → Db → Reply ((String × String × ℕ) × Db)
register_peer now auth url db = do
  peer ← authenticate_peer auth db
  ok (
    (peer.peer_id, url, now),
    update_peer peer.peer_id (λ p. record p { url = url; last_seen = some now }) db,
  )

pub record P2pJobForwardRequest : Type 0 where
  pub auth : PeerAuth
  pub origin_job_id : String
  pub origin_pool : String
  pub job_type : JobType
  pub payload : Fields
  pub priority : ℕ

abbrev pub federation_of : P2pJobForwardRequest → Json
federation_of payload = obj (
    field "origin_pool" (str payload.origin_pool) (
      field "origin_job_id" (str payload.origin_job_id)
        (field "forwarded_by" (str payload.auth.peer_id) end)))

-- The job's id and status.
unfoldable pub forward_job :
    (Decimal → String) → ℕ → P2pJobForwardRequest → Db → Reply ((ℕ × JobStatus) × Db)
forward_job float_text now payload db = do
  peer ← authenticate_peer payload.auth db
  require_that (has_available_capacity db) 503 "Local pool has no capacity"
  let created =
      create_queued_job float_text none (put "federation" (federation_of payload) payload.payload)
        payload.job_type payload.priority (fin (pos 10) 1) db
  let job = created.0.0
  ok (
    (job.id, job.status),
    record_interpool_fee_placeholder now (some job.id)
        (update_peer peer.peer_id (seen now) created.1),
  )

pub record P2pResultRelayRequest : Type 0 where
  pub auth : PeerAuth
  pub local_job_id : ℕ
  pub output : Option Fields
  pub error_message : Option String
  pub output_hash : Option String

-- `relayed_at` is the text of the instant.
abbrev pub relayed_result_of : String → P2pResultRelayRequest → Json
relayed_result_of relayed_at payload = obj (
    field "from_peer" (str payload.auth.peer_id) (
      field "output" (object_of payload.output) (
        field "error_message" (text_or_null payload.error_message) (
          field "output_hash" (text_or_null payload.output_hash)
            (field "relayed_at" (str relayed_at) end)))))

abbrev pub relayed_status : Option String → JobStatus
relayed_status none = JobStatus.completed
relayed_status (some e) = JobStatus.failed

abbrev pub relayed_job : String → P2pResultRelayRequest → Job → Job
relayed_job relayed_at payload j = record j {
  payload = put "relayed_result" (relayed_result_of relayed_at payload) j.payload;
  status = relayed_status payload.error_message;
}

unfoldable pub relay_result : ℕ → String → P2pResultRelayRequest → Db → Reply ((ℕ × JobStatus) × Db)
relay_result now relayed_at payload db = do
  peer ← authenticate_peer payload.auth db
  job ← or_refuse (job_by_id payload.local_job_id db) 404 "Local job not found"
  ok (
    (job.id, relayed_status payload.error_message),
    record_interpool_fee_placeholder now (some job.id) (
        update_peer peer.peer_id (seen now)
          (update_job job.id (relayed_job relayed_at payload) db)),
  )
