-- ===== src/Dispatch/Capacity.antt =====
-- What a pass of `assign_queued_jobs` keeps: the counts that it carries are those of the table, and no
-- worker goes past its `max_concurrency`.
use open_mesh_ai.Prelude.{
  ℕ, ◌≡◌, refl, Bool, true, false, Option, none, some, List, [], ◌∷◌, String, if◌then◌else◌, All,
  In, All-In, inl, inr, Bool-cases, subst, sym, ◌⊎◌, >>=-eq-some, some_inj,
}
use open_mesh_ai.Decimal.Order.{Decimal, gt}
use open_mesh_ai.Db.Models.{Worker, Job}
use open_mesh_ai.Dispatch.Settings.{job_price_multiplier}
use open_mesh_ai.Dispatch.Candidates.{
  Candidate, has_room, price_of, candidate_of, candidates_of, select_candidate, add_candidate,
}
use open_mesh_ai.Dispatch.Best.{select_candidate-least}
use open_mesh_ai.Dispatch.Assign.{Round, assign, dispatch_job}

-- A candidate is a worker of the list, with room for one more at a price that the job pays.
abbrev pub IsEligible : Decimal → (ℕ → ℕ) → List Worker → Candidate → Type 0
IsEligible price counts ws c =
    In c.worker ws
    × (has_room (counts c.worker.id) c.worker ≡ true)
    × (gt (price_of c.worker) price ≡ some false)

IsEligible-later :
    (price : Decimal) (counts : ℕ → ℕ) (w : Worker) (ws : List Worker) (cs : List Candidate)
    → All (IsEligible price counts ws) cs
    → All (IsEligible price counts (w ∷ ws)) cs
IsEligible-later price counts w ws [] h = tt
IsEligible-later price counts w ws (c ∷ cs) (h, hs) =
    ((inr h.0, h.1, h.2), IsEligible-later price counts w ws cs hs)

-- What `add_candidate` adds, where it adds one.
add_candidate-IsEligible :
    (price : Decimal) (counts : ℕ → ℕ) (w : Worker) (ws : List Worker) (rest cs : List Candidate)
    → All (IsEligible price counts ws) rest
    → add_candidate price (counts w.id) w rest ≡ some cs
    → All (IsEligible price counts (w ∷ ws)) cs
add_candidate-IsEligible price counts w ws rest cs h e =
    elim (Bool-cases (has_room (counts w.id) w)) [
      | inr full ↦ subst (All (IsEligible price counts (w ∷ ws))) (some_inj (rw full at e)) old
      | inl room ↦
          let (dear, asks, e') = >>=-eq-some (gt (price_of w) price) _ (rw room at e) in
          by_price dear asks room (some_inj e')
    ]
  where
    old : All (IsEligible price counts (w ∷ ws)) rest
    old = IsEligible-later price counts w ws rest h

    by_price :
        (dear : Bool)
        → gt (price_of w) price ≡ some dear
        → has_room (counts w.id) w ≡ true
        → (if dear then rest else candidate_of w (counts w.id) ∷ rest) ≡ cs
        → All (IsEligible price counts (w ∷ ws)) cs
    by_price true asks room e' = subst (All (IsEligible price counts (w ∷ ws))) e' old
    by_price false asks room e' =
        subst (All (IsEligible price counts (w ∷ ws))) e' ((inl refl, room, asks), old)

pub candidates_of-IsEligible :
    (price : Decimal) (counts : ℕ → ℕ) (ws : List Worker) (cs : List Candidate)
    → candidates_of price counts ws ≡ some cs
    → All (IsEligible price counts ws) cs
unfolding candidates_of
candidates_of-IsEligible price counts [] cs e =
    subst (All (IsEligible price counts [])) (some_inj e) tt
candidates_of-IsEligible price counts (w ∷ ws) cs e =
    let (rest, found, e') = >>=-eq-some (candidates_of price counts ws) _ e in
    add_candidate-IsEligible price counts w ws rest cs
      (candidates_of-IsEligible price counts ws rest found) e'

-- One job: the round stands, or its job goes to an eligible worker whose key none comes before.
pub dispatch_job_cases :
    (now : ℕ) (nonce_of : ℕ → String) (ws : List Worker) (job : Job) (r r' : Round)
    → dispatch_job now nonce_of ws job r ≡ some r'
    → (r' ≡ r)
      ⊎ ((c : Candidate) × IsEligible (job_price_multiplier job) r.counts ws c
          × (r' ≡ assign now nonce_of job c.worker r))
unfolding dispatch_job
dispatch_job_cases now nonce_of ws job r r' e =
    let price = job_price_multiplier job in
    let (cs, found, e1) = >>=-eq-some (candidates_of price r.counts ws) _ e in
    let (selected, picks, e2) = >>=-eq-some (select_candidate cs) _ e1 in
    by_pick cs found selected picks (some_inj e2)
  where
    by_pick :
        (cs : List Candidate)
        → candidates_of (job_price_multiplier job) r.counts ws ≡ some cs
        → (selected : Option Candidate) → select_candidate cs ≡ some selected
        → (elim selected [ none ↦ r | some c ↦ assign now nonce_of job c.worker r ]) ≡ r'
        → (r' ≡ r)
          ⊎ ((c : Candidate) × IsEligible (job_price_multiplier job) r.counts ws c
              × (r' ≡ assign now nonce_of job c.worker r))
    by_pick cs found none picks e' = inl (sym e')
    by_pick cs found (some c) picks e' = inr (
      c,
      All-In (IsEligible (job_price_multiplier job) r.counts ws) cs
          (candidates_of-IsEligible (job_price_multiplier job) r.counts ws cs found)
          (select_candidate-least cs c picks).0,
      sym e',
    )
