-- ===== src/Api/Polled.antt =====
-- `heartbeat_worker` and `poll_job` of api/jobs.py.
use open_mesh_ai.Prelude.{
  ℕ, ◌≤◌, ◌≡◌, ◌≢◌, ◌++◌, ◌∙◌, refl, Bool, false, ◌&&◌, some, List, [], ◌∷◌, ◌==◌, ==_iff, arith,
  All, In, find_by, update_by, ap, sym, subst, inl, inr, Bool-cases, some_inj,
}
use open_mesh_ai.Db.Enums.{online}
use open_mesh_ai.Db.Models.{User, Worker, Assignment}
use open_mesh_ai.Db.Session.{Db, worker_by_id}
use open_mesh_ai.Api.Reply.{ok, >>=-eq-ok, ok_inj, or_refuse-eq-ok}
use open_mesh_ai.Api.Users.{get_owned_worker}
use open_mesh_ai.Api.Jobs.{heartbeat_worker, seen_online}

found-id :
    (i : ℕ) (p : Worker → Bool) (ws : List Worker) (w : Worker)
    → find_by (λ x. x.id == i && p x) ws ≡ some w
    → w.id ≡ i
found-id i p [] w h = cc
found-id i p (x ∷ ws) w h = ground (arith, found-id i p ws w, ==_iff x.id i)

-- A row that is found under two conditions is found under the first.
find_by-id :
    (i : ℕ) (p : Worker → Bool) (ws : List Worker) (w : Worker)
    → find_by (λ x. x.id == i && p x) ws ≡ some w
    → (v : Worker) × (find_by (λ x. x.id == i) ws ≡ some v)
find_by-id i p [] w h = cc
find_by-id i p (x ∷ ws) w h = elim (Bool-cases (x.id == i)) [
  | inl hit ↦ (x, rw hit)
  | inr miss ↦ let (v, found) = find_by-id i p ws w (rw miss at h) in (v, rw miss found)
]

find_by-update_by :
    (i now : ℕ) (ws : List Worker) (v : Worker)
    → find_by (λ x. x.id == i) ws ≡ some v
    → find_by (λ x. x.id == i) (update_by (λ x. x.id == i) (seen_online now) ws)
      ≡ some (seen_online now v)
find_by-update_by i now [] v h = cc
find_by-update_by i now (x ∷ ws) v h = elim (Bool-cases (x.id == i)) [
  | inl hit ↦
      let one = some_inj (rw hit at h) in
      rw (hit, hit) (ap (λ (y : Worker). some (seen_online now y)) one)
  | inr miss ↦ rw (miss, miss) (find_by-update_by i now ws v (rw miss at h))
]

-- No other row is another one.
find_by-others :
    (i k now : ℕ) (ws : List Worker)
    → k ≢ i
    → find_by (λ x. x.id == k) (update_by (λ x. x.id == i) (seen_online now) ws)
      ≡ find_by (λ x. x.id == k) ws
find_by-others i k now [] ne = refl
find_by-others i k now (x ∷ ws) ne = elim (Bool-cases (x.id == i)) [
  | inl hit ↦
      let miss : (x.id == k) ≡ false = ground (arith, ==_iff x.id i, ==_iff x.id k) in
      rw (hit, miss)
  | inr miss ↦ elim (Bool-cases (x.id == k)) [
    | inl found ↦ rw (miss, found)
    | inr later ↦ rw (miss, later) (find_by-others i k now ws ne)
  ]
]

get_owned_worker-id :
    (i owner : ℕ) (db : Db) (w : Worker)
    → get_owned_worker i owner db ≡ ok w
    → (w.id ≡ i) × ((v : Worker) × (worker_by_id i db ≡ some v))
unfolding get_owned_worker
get_owned_worker-id i owner db w h =
    let found = or_refuse-eq-ok _ 404 "Worker not found" h in
    (
      found-id i (λ x. x.owner_user_id == owner) db.workers w found,
      find_by-id i (λ x. x.owner_user_id == owner) db.workers w found,
    )

-- The row as it was, but online and seen at an instant.
abbrev pub IsSeen : ℕ → Worker → Worker → Type 0
IsSeen now w w' =
    (w'.status ≡ online)
    × (w'.last_seen_at ≡ some now)
    × (w'.id ≡ w.id)
    × (w'.name ≡ w.name)
    × (w'.owner_user_id ≡ w.owner_user_id)
    × (w'.region ≡ w.region)
    × (w'.specs_json ≡ w.specs_json)
    × (w'.public_key ≡ w.public_key)
    × (w'.settings ≡ w.settings)

-- A heartbeat that is answered puts the worker online whatever its status was, a ban included, notes
-- the instant in its row and as one more heartbeat, and leaves the rest of the row and every other
-- worker's row.
pub heartbeat_worker-online :
    (now i k : ℕ) (u : User) (db db' : Db) (seen : ℕ × ℕ)
    → k ≢ i
    → heartbeat_worker now i u db ≡ ok (seen, db')
    → (w : Worker) × (w' : Worker) × (worker_by_id i db ≡ some w)
      × (worker_by_id i db' ≡ some w')
      × IsSeen now w w'
      × (db'.heartbeats ≡ db.heartbeats ++ record { worker_id = i; recorded_at = now } ∷ [])
      × (worker_by_id k db' ≡ worker_by_id k db)
unfolding heartbeat_worker
heartbeat_worker-online now i k u db db' seen other h =
    let (w, owned, h1) = >>=-eq-ok (get_owned_worker i u.id db) _ h in
    let (same, (v, found)) = get_owned_worker-id i u.id db w owned in
    let found' = subst (λ (n : ℕ). find_by (λ x. x.id == n) db.workers ≡ some v) (sym same) found in
    let after = find_by-update_by w.id now db.workers v found' in
    let rows = ap (λ (x : (ℕ × ℕ) × Db). x.1.workers) (ok_inj h1) in
    let beats = ap (λ (x : (ℕ × ℕ) × Db). x.1.heartbeats) (ok_inj h1) in
    (
      v,
      seen_online now v,
      found,
      subst (λ (n : ℕ). find_by (λ x. x.id == n) db'.workers ≡ some (seen_online now v)) same
          (subst (λ (ws : List Worker). find_by (λ y. y.id == w.id) ws ≡ some (seen_online now v))
            rows after),
      (refl, refl, refl, refl, refl, refl, refl, refl, refl),
      sym beats
          ∙ ap (λ (n : ℕ). db.heartbeats ++ record { worker_id = n; recorded_at = now } ∷ []) same,
      ap (find_by (λ (x : Worker). x.id == k)) (sym rows)
          ∙ find_by-others w.id k now db.workers (λ e. other (e ∙ same)),
    )

-- The first row is one of the rows, and none is before it.
abbrev IsEarliest : Assignment → List Assignment → Type 0
IsEarliest a rows = In a rows × All (λ (b : Assignment). a.assigned_at ≤ b.assigned_at) rows
