-- ===== src/Gateway/Waited.antt =====
-- `_wait_for_verification` of pool-gateway/app/main.py: it ends, it answers a verified job alone, and
-- a job that it gives up is cancelled.
use open_mesh_ai.Prelude.{
  Option, none, some, String, str_eq, str_eq_iff, ℕ, suc, ◌+◌, ◌≤◌, ◌<◌, ◌≡◌, refl, Bool, true,
  false, List, [], ◌∷◌, ltb, if◌then◌else◌, arith, length, In, inl, inr, ap, Bool-cases, ◌⊎◌, subst,
}
use open_mesh_ai.Json.{Json, null, bool, int, float, str, arr, obj, Fields, get}
use open_mesh_ai.Gateway.Jobs.{
  Response, body, http_error, broken, Outcome, done, refused, raised, failed, waiting, Poll,
  Request, post_job, get_job, cancel_job, is_verified_job, also, wait_for_verification,
}

-- The clock goes on by at least one unit from one turn to the next.
abbrev pub IsAdvancing : ℕ → List Poll → Type 0
IsAdvancing t [] = Unit
IsAdvancing t (p ∷ ps) = (t ≤ p.now) × IsAdvancing (suc p.now) ps

abbrev pub is_cancel : Request → Bool
is_cancel (post_job posted) = false
is_cancel (get_job job_id) = false
is_cancel (cancel_job job_id) = true

abbrev pub cancels : List Request → ℕ
cancels [] = 0
cancels (r ∷ rs) = (if is_cancel r then 1 else 0) + cancels rs

-- Is the outcome the time-out, and is it still open.
abbrev pub is_refused : Outcome Fields → Bool
is_refused (refused status detail) = true
is_refused _ = false

abbrev pub is_waiting : Outcome Fields → Bool
is_waiting waiting = true
is_waiting _ = false

-- One turn of the loop, before the time-out, and the rest of it.
abbrev turn : Json → Response → Outcome Fields × List Request → Outcome Fields × List Request
turn job_id response rest = also (get_job job_id) (elim response [
  | http_error status ↦ (raised status, [])
  | broken ↦ (failed, [])
  | body job ↦ if is_verified_job job then (done job, []) else rest
])

is_waiting-turn :
    (job_id : Json) (response : Response) (rest : Outcome Fields × List Request)
    → is_waiting rest.0 ≡ false
    → is_waiting (turn job_id response rest).0 ≡ false
is_waiting-turn job_id (http_error status) rest h = refl
is_waiting-turn job_id broken rest h = refl
is_waiting-turn job_id (body job) rest h = elim (Bool-cases (is_verified_job job)) [
  | inl ready ↦ rw ready
  | inr not_ready ↦ rw not_ready h
]

cancels-turn :
    (job_id : Json) (response : Response) (rest : Outcome Fields × List Request)
    → cancels rest.1 ≡ (if is_refused rest.0 then 1 else 0)
    → cancels (turn job_id response rest).1
      ≡ (if is_refused (turn job_id response rest).0 then 1 else 0)
cancels-turn job_id (http_error status) rest h = refl
cancels-turn job_id broken rest h = refl
cancels-turn job_id (body job) rest h = elim (Bool-cases (is_verified_job job)) [
  | inl ready ↦ rw ready
  | inr not_ready ↦ rw not_ready (omega (arith, h))
]

-- With a clock that goes on the wait ends: from a start before the time-out no more polls are needed
-- than there are units left, and one.
pub wait_ends :
    (job_id : Json) (timeout_at start : ℕ) (ps : List Poll)
    → IsAdvancing start ps
    → start ≤ timeout_at
    → timeout_at < start + length ps
    → is_waiting (wait_for_verification job_id timeout_at ps).0 ≡ false
unfolding wait_for_verification
wait_ends job_id timeout_at start [] h early enough = absurd (omega arith)
wait_ends job_id timeout_at start (p ∷ ps) h begun enough =
    elim (Bool-cases (ltb p.now timeout_at)) [
      | inl early ↦
          rw (early, wait_for_verification)
            (is_waiting-turn job_id p.response (wait_for_verification job_id timeout_at ps)
              (wait_ends job_id timeout_at (suc p.now) ps h.1 (ground arith) (omega (arith, h.0))))
      | inr late ↦ rw (late, wait_for_verification)
    ]

-- A job is cancelled exactly where the wait ends in the time-out, and then once.
pub wait_cancels :
    (job_id : Json) (timeout_at : ℕ) (ps : List Poll)
    → cancels (wait_for_verification job_id timeout_at ps).1
      ≡ (if is_refused (wait_for_verification job_id timeout_at ps).0 then 1 else 0)
unfolding wait_for_verification
wait_cancels job_id timeout_at [] = refl
wait_cancels job_id timeout_at (p ∷ ps) = elim (Bool-cases (ltb p.now timeout_at)) [
  | inl early ↦
      rw (early, wait_for_verification)
        (cancels-turn job_id p.response (wait_for_verification job_id timeout_at ps)
          (wait_cancels job_id timeout_at ps))
  | inr late ↦ rw (late, wait_for_verification)
]

turn_done :
    (job_id : Json) (response : Response) (rest : Outcome Fields × List Request) (job : Fields)
    → (turn job_id response rest).0 ≡ done job
    → ((response ≡ body job) × (is_verified_job job ≡ true)) ⊎ (rest.0 ≡ done job)
turn_done job_id (http_error status) rest job h = cc
turn_done job_id broken rest job h = cc
turn_done job_id (body answer) rest job h = elim (Bool-cases (is_verified_job answer)) [
  | inl ready ↦
      let same : answer ≡ job = done_inj (rw ready at h) in
      inl (ap body same, subst (λ (x : Fields). is_verified_job x ≡ true) same ready)
  | inr not_ready ↦ inr (rw not_ready at h)
]
  where
    done_inj : {x y : Fields} → ◌≡◌ {A = Outcome Fields} (done x) (done y) → x ≡ y
    done_inj e = cc

verified_status :
    (job : Fields) → is_verified_job job ≡ true → get "status" job ≡ some (str "verified")
verified_status job h = by_value (get "status" job) h
  where
    by_value :
        (v : Option Json)
        → elim v [
          | none ↦ false
          | some null ↦ false
          | some (bool b) ↦ false
          | some (int z) ↦ false
          | some (float r) ↦ false
          | some (str s) ↦ str_eq s "verified"
          | some (arr xs) ↦ false
          | some (obj d) ↦ false
        ]
          ≡ true
        → v ≡ some (str "verified")
    by_value (some (str s)) h = ap (λ (t : String). some (str t)) ((str_eq_iff s "verified").0 h)
    by_value none h = cc
    by_value (some v) h = cc

-- What the wait answers is a job with the status `verified`, with which the coordinator answered a poll
-- before the time-out.
pub wait_verified :
    (job_id : Json) (timeout_at : ℕ) (ps : List Poll) (job : Fields)
    → (wait_for_verification job_id timeout_at ps).0 ≡ done job
    → (get "status" job ≡ some (str "verified"))
      × ((p : Poll) × In p ps × (p.now < timeout_at) × (p.response ≡ body job))
unfolding wait_for_verification
wait_verified job_id timeout_at [] job h = cc
wait_verified job_id timeout_at (p ∷ ps) job h = elim (Bool-cases (ltb p.now timeout_at)) [
  | inl early ↦
      elim (turn_done job_id p.response (wait_for_verification job_id timeout_at ps) job
        (rw (early, wait_for_verification) at h)) [
          | inl (answered, ready) ↦
              (verified_status job ready, (p, inl refl, ground arith, answered))
          | inr later ↦
              let (status, (q, member, before, answered)) =
                wait_verified job_id timeout_at ps job later in
              (status, (q, inr member, before, answered))
        ]
  | inr late ↦
      let bad : ◌≡◌ {A = Outcome Fields} (refused 503 "Verification timeout") (done job) =
        rw (late, wait_for_verification) at h in
      cc
]
