-- ===== src/Api/Federated.antt =====
-- api/p2p.py and the books: what a peer's requests need, and what they leave.
use open_mesh_ai.Prelude.{ℕ, ◌≡◌, refl, true, some, String, ap, sym, ◌∙◌, subst, str_eq, find_by}
use open_mesh_ai.Decimal.Order.{Decimal}
use open_mesh_ai.Db.Enums.{JobStatus, queued}
use open_mesh_ai.Db.Models.{Peer, Job}
use open_mesh_ai.Db.Session.{Db, job_by_id}
use open_mesh_ai.Finance.Accounts.{record_interpool_fee_placeholder}
use open_mesh_ai.Finance.Balance.{IsBalanced, balance_of, posted, interpool_fee-IsBalanced}
use open_mesh_ai.Dispatch.Queueing.{create_queued_job}
use open_mesh_ai.Api.Reply.{ok, or_refuse->>=, require_that->>, >>=-eq-ok, ok_inj}
use open_mesh_ai.Api.Peers.{
  PeerAuth, authenticate_peer, has_available_capacity, P2pJobForwardRequest, forward_job,
  P2pResultRelayRequest, relay_result,
}

-- A peer of the table has this id, and the secret is its own.
abbrev pub IsKnown : PeerAuth → Db → Type 0
IsKnown auth db =
    (peer : Peer) × (find_by (λ p. str_eq p.peer_id auth.peer_id) db.peers ≡ some peer)
    × (str_eq peer.shared_secret auth.shared_secret ≡ true)

authenticate_peer-IsKnown :
    (auth : PeerAuth) (db : Db) (peer : Peer)
    → authenticate_peer auth db ≡ ok peer
    → IsKnown auth db
unfolding authenticate_peer
authenticate_peer-IsKnown auth db peer h =
    let (p, found, h1) =
      or_refuse->>= (find_by (λ p. str_eq p.peer_id auth.peer_id) db.peers) _ _ _ h in
    let (same, h2) = require_that->> (str_eq p.shared_secret auth.shared_secret) _ _ _ h1 in
    (p, found, same)

-- The same books, and a fee entry on them.
fee-IsBalanced :
    (now : ℕ) (j : ℕ) (db rows : Db)
    → rows.accounts ≡ db.accounts
    → rows.ledger ≡ db.ledger
    → IsBalanced db
    → IsBalanced (record_interpool_fee_placeholder now (some j) rows)
fee-IsBalanced now j db rows accounts entries h =
    interpool_fee-IsBalanced now (some j) rows
      (λ i. ap (balance_of i) accounts ∙ h i ∙ ap (posted i) (sym entries))

-- A forwarded job is taken only from a peer of the table with its secret and only where a worker has
-- room; the books stay in order.
pub forward_job-IsBalanced :
    (float_text : Decimal → String) (now : ℕ) (payload : P2pJobForwardRequest) (db db' : Db)
    (out : ℕ × JobStatus)
    → IsBalanced db
    → forward_job float_text now payload db ≡ ok (out, db')
    → IsKnown payload.auth db
      × (has_available_capacity db ≡ true)
      × (out ≡ (db.next_job_id, queued))
      × IsBalanced db'
unfolding forward_job create_queued_job
forward_job-IsBalanced float_text now payload db db' out h e =
    let (peer, known, e1) = >>=-eq-ok (authenticate_peer payload.auth db) _ e in
    let (room, e2) = require_that->> (has_available_capacity db) _ _ _ e1 in
    let same = ok_inj e2 in
    (
      authenticate_peer-IsKnown payload.auth db peer known,
      room,
      sym (ap (λ (x : (ℕ × JobStatus) × Db). x.0) same),
      subst (λ (x : (ℕ × JobStatus) × Db). IsBalanced x.1) same
          (fee-IsBalanced now db.next_job_id db _ refl refl h),
    )

-- A relayed result is taken only from a peer of the table with its secret and for a job that is there;
-- the books stay in order.
pub relay_result-IsBalanced :
    (now : ℕ) (relayed_at : String) (payload : P2pResultRelayRequest) (db db' : Db)
    (out : ℕ × JobStatus)
    → IsBalanced db
    → relay_result now relayed_at payload db ≡ ok (out, db')
    → IsKnown payload.auth db
      × ((j : Job) × (job_by_id payload.local_job_id db ≡ some j))
      × IsBalanced db'
unfolding relay_result
relay_result-IsBalanced now relayed_at payload db db' out h e =
    let (peer, known, e1) = >>=-eq-ok (authenticate_peer payload.auth db) _ e in
    let (job, there, e2) = or_refuse->>= (job_by_id payload.local_job_id db) _ _ _ e1 in
    let same = ok_inj e2 in
    (
      authenticate_peer-IsKnown payload.auth db peer known,
      (job, there),
      subst (λ (x : (ℕ × JobStatus) × Db). IsBalanced x.1) same
          (fee-IsBalanced now job.id db _ refl refl h),
    )
