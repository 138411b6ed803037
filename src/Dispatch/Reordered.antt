-- ===== src/Dispatch/Reordered.antt =====
-- `assign_queued_jobs` of job_dispatcher.py when two workers change places in what it reads.
use open_mesh_ai.Prelude.{
  fun_ext, subst, ℕ, ◌≡◌, ◌≢◌, refl, Bool, true, false, Option, none, some, List, [], ◌∷◌, ◌++◌,
  String, inl, inr, ◌⊎◌, ap, sym, ◌∙◌, Bool-cases, if◌then◌else◌, ◌>>=◌,
}
use open_mesh_ai.Decimal.Order.{Decimal, gt}
use open_mesh_ai.Db.Models.{Worker, Job}
use open_mesh_ai.Db.Session.{Db}
use open_mesh_ai.Dispatch.Settings.{job_price_multiplier}
use open_mesh_ai.Dispatch.Candidates.{
  Candidate, candidate_of, has_room, price_of, add_candidate, candidates_of,
}
use open_mesh_ai.Dispatch.Sorting.{select_candidate_swap}
use open_mesh_ai.Dispatch.Assign.{Round, dispatch_job, dispatch_all, start_round, dispatch_queue}

-- Two neighbours, of different ids, change places.
abbrev pub Swapped : List Worker → List Worker → Type 0
Swapped ws vs =
    (p : List Worker) × (a : Worker) × (b : Worker) × (q : List Worker) × (ws ≡ p ++ a ∷ b ∷ q)
    × (vs ≡ p ++ b ∷ a ∷ q)
    × (a.id ≢ b.id)

-- The candidates are the same, or those of the two workers have changed places.
abbrev SameBut : Worker → Worker → Option (List Candidate) → Option (List Candidate) → Type 0
SameBut a b before after =
    (before ≡ after)
    ⊎ ((p : List Candidate) × (c : Candidate) × (d : Candidate) × (q : List Candidate) × (before
          ≡ some (p ++ c ∷ d ∷ q))
        × (after ≡ some (p ++ d ∷ c ∷ q))
        × (c.worker ≡ a)
        × (d.worker ≡ b))

-- What is decided on a worker: an exception, that it is too dear or full, or that it is a candidate.
abbrev verdict : Decimal → ℕ → Worker → Option Bool
verdict price load w = if has_room load w then gt (price_of w) price else some true

abbrev added : Option Bool → Candidate → List Candidate → Option (List Candidate)
added none c rest = none
added (some true) c rest = some rest
added (some false) c rest = some (c ∷ rest)

add_candidate-added :
    (price : Decimal) (load : ℕ) (w : Worker) (rest : List Candidate)
    → add_candidate price load w rest ≡ added (verdict price load w) (candidate_of w load) rest
add_candidate-added price load w rest = elim (Bool-cases (has_room load w)) [
  | inl room ↦ rw room (by_price (gt (price_of w) price))
  | inr full ↦ rw full
]
  where
    by_price :
        (o : Option Bool)
        → (o >>= (λ dear. some (if dear then rest else candidate_of w load ∷ rest)))
          ≡ added o (candidate_of w load) rest
    by_price none = refl
    by_price (some true) = refl
    by_price (some false) = refl

added_swap :
    (v u : Option Bool) (a b : Worker) (c d : Candidate) (q : List Candidate)
    → c.worker ≡ a
    → d.worker ≡ b
    → SameBut a b (added u d q >>= added v c) (added v c q >>= added u d)
added_swap none none a b c d q x y = inl refl
added_swap none (some true) a b c d q x y = inl refl
added_swap none (some false) a b c d q x y = inl refl
added_swap (some true) none a b c d q x y = inl refl
added_swap (some false) none a b c d q x y = inl refl
added_swap (some true) (some true) a b c d q x y = inl refl
added_swap (some true) (some false) a b c d q x y = inl refl
added_swap (some false) (some true) a b c d q x y = inl refl
added_swap (some false) (some false) a b c d q x y = inr ([], c, d, q, refl, refl, x, y)

added-SameBut :
    (v : Option Bool) (a b : Worker) (e : Candidate) (before after : Option (List Candidate))
    → SameBut a b before after
    → SameBut a b (before >>= added v e) (after >>= added v e)
added-SameBut v a b e before after (inl same) = inl (ap (λ o. o >>= added v e) same)
added-SameBut v a b e before after (inr (p, c, d, q, x, y, z, w)) = rw (x, y) (by_verdict v)
  where
    by_verdict :
        (u : Option Bool) → SameBut a b (added u e (p ++ c ∷ d ∷ q)) (added u e (p ++ d ∷ c ∷ q))
    by_verdict none = inl refl
    by_verdict (some true) = inr (p, c, d, q, refl, refl, z, w)
    by_verdict (some false) = inr (e ∷ p, c, d, q, refl, refl, z, w)

then_added :
    (price : Decimal) (load : ℕ) (w : Worker) (o : Option (List Candidate))
    → (o >>= (λ rest. add_candidate price load w rest))
      ≡ (o >>= added (verdict price load w) (candidate_of w load))
then_added price load w o = ap (λ f. o >>= f) (fun_ext (add_candidate-added price load w))

-- Two neighbours in either order.
two_added :
    (price : Decimal) (counts : ℕ → ℕ) (a b : Worker) (rest : List Candidate)
    → (add_candidate price (counts b.id) b rest >>= (λ cs. add_candidate price (counts a.id) a cs))
      ≡ (added (verdict price (counts b.id) b) (candidate_of b (counts b.id)) rest
          >>= added (verdict price (counts a.id) a) (candidate_of a (counts a.id)))
two_added price counts a b rest =
    ap (λ o. o >>= (λ cs. add_candidate price (counts a.id) a cs))
      (add_candidate-added price (counts b.id) b rest)
    ∙ then_added price (counts a.id) a _

same_along :
    (a b : Worker) {x x' y y' : Option (List Candidate)}
    → x ≡ x'
    → y ≡ y'
    → SameBut a b x' y'
    → SameBut a b x y
same_along a b {x} {x'} {y} {y'} e k h =
    subst (λ o. SameBut a b o y) (sym e) (subst (λ o. SameBut a b x' o) (sym k) h)

neighbours-SameBut :
    (price : Decimal) (counts : ℕ → ℕ) (a b : Worker) (o : Option (List Candidate))
    → SameBut a b
        ((o >>= (λ rest. add_candidate price (counts b.id) b rest))
          >>= (λ rest. add_candidate price (counts a.id) a rest))
        ((o >>= (λ rest. add_candidate price (counts a.id) a rest))
          >>= (λ rest. add_candidate price (counts b.id) b rest))
neighbours-SameBut price counts a b none = inl refl
neighbours-SameBut price counts a b (some rest) =
    same_along a b (two_added price counts a b rest) (two_added price counts b a rest) (
      added_swap _ _ a b (candidate_of a (counts a.id)) (candidate_of b (counts b.id)) rest refl
        refl)

candidates_of-SameBut :
    (price : Decimal) (counts : ℕ → ℕ) (p : List Worker) (a b : Worker) (q : List Worker)
    → SameBut a b
        (candidates_of price counts (p ++ a ∷ b ∷ q))
        (candidates_of price counts (p ++ b ∷ a ∷ q))
unfolding candidates_of
candidates_of-SameBut price counts [] a b q =
    neighbours-SameBut price counts a b (candidates_of price counts q)
candidates_of-SameBut price counts (w ∷ p) a b q =
    same_along a b (then_added price (counts w.id) w _) (then_added price (counts w.id) w _) (
      added-SameBut (verdict price (counts w.id) w) a b (candidate_of w (counts w.id)) _ _
        (candidates_of-SameBut price counts p a b q))

dispatch_job_swap :
    (now : ℕ) (nonce_of : ℕ → String) (p : List Worker) (a b : Worker) (q : List Worker) (job : Job)
    (r : Round)
    → a.id ≢ b.id
    → dispatch_job now nonce_of (p ++ a ∷ b ∷ q) job r
      ≡ dispatch_job now nonce_of (p ++ b ∷ a ∷ q) job r
unfolding dispatch_job
dispatch_job_swap now nonce_of p a b q job r ne =
    elim (candidates_of-SameBut (job_price_multiplier job) r.counts p a b q) [
      | inl same ↦ rw same
      | inr (cs, c, d, ds, before, after, x, y) ↦ rw (
        before,
        after,
        select_candidate_swap cs c d ds
            (λ e. ne (sym (ap (λ (w : Worker). w.id) x) ∙ e ∙ ap (λ (w : Worker). w.id) y)),
      )
    ]

dispatch_all_swap :
    (now : ℕ) (nonce_of : ℕ → String) (p : List Worker) (a b : Worker) (q : List Worker)
    (jobs : List Job) (r : Round)
    → a.id ≢ b.id
    → dispatch_all now nonce_of (p ++ a ∷ b ∷ q) jobs r
      ≡ dispatch_all now nonce_of (p ++ b ∷ a ∷ q) jobs r
unfolding dispatch_all
dispatch_all_swap now nonce_of p a b q [] r ne = refl
dispatch_all_swap now nonce_of p a b q (job ∷ jobs) r ne =
    rw (dispatch_job_swap now nonce_of p a b q job r ne) (
      ap (λ next. dispatch_job now nonce_of (p ++ b ∷ a ∷ q) job r >>= next)
        (fun_ext (λ r'. dispatch_all_swap now nonce_of p a b q jobs r' ne)))

dispatch_queue_swap :
    (now : ℕ) (nonce_of : ℕ → String) (jobs : List Job) (p : List Worker) (a b : Worker)
    (q : List Worker) (db : Db)
    → a.id ≢ b.id
    → dispatch_queue now nonce_of jobs (p ++ a ∷ b ∷ q) db
      ≡ dispatch_queue now nonce_of jobs (p ++ b ∷ a ∷ q) db
unfolding dispatch_queue
dispatch_queue_swap now nonce_of [] p a b q db ne = refl
dispatch_queue_swap now nonce_of (job ∷ jobs) [] a b q db ne =
    ap (λ o. o >>= (λ r. some (r.assigned_count, r.db)))
      (dispatch_all_swap now nonce_of [] a b q (job ∷ jobs) (start_round db) ne)
dispatch_queue_swap now nonce_of (job ∷ jobs) (w ∷ p) a b q db ne =
    ap (λ o. o >>= (λ r. some (r.assigned_count, r.db)))
      (dispatch_all_swap now nonce_of (w ∷ p) a b q (job ∷ jobs) (start_round db) ne)

pub dispatch_queue-Swapped :
    (now : ℕ) (nonce_of : ℕ → String) (jobs : List Job) (ws vs : List Worker)
    → Swapped ws vs
    → dispatch_queue now nonce_of jobs ws ≡ dispatch_queue now nonce_of jobs vs
dispatch_queue-Swapped now nonce_of jobs ws vs (p, a, b, q, before, after, ne) = fun_ext (λ db.
    ap (λ xs. dispatch_queue now nonce_of jobs xs db) before
    ∙ dispatch_queue_swap now nonce_of jobs p a b q db ne
    ∙ ap (λ xs. dispatch_queue now nonce_of jobs xs db) (sym after))
