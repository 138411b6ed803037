-- ===== src/Dispatch/Candidates.antt =====
-- The candidates for one job and the choice among them, in `assign_queued_jobs`. `none` is an
-- `InvalidOperation` out of a comparison with a NaN, or what `-` raises.
use open_mesh_ai.Prelude.{
  ℕ, Bool, false, not, ◌&&◌, ◌||◌, Option, none, some, List, [], ◌∷◌, pos, ltb, leb, leb_ℤ, ◌==◌,
  if◌then◌else◌, length, ◌>>=◌,
}
use open_mesh_ai.Decimal.Order.{Decimal, gt, lt_num, is_nan}
use open_mesh_ai.Decimal.Minus.{minus, minus_raises}
use open_mesh_ai.Db.Models.{Worker}
use open_mesh_ai.Dispatch.Settings.{
  worker_decimal_setting, worker_latency_ms, default_price_multiplier, default_reputation,
}

pub record Candidate : Type 0 where
  pub reputation : Decimal
  pub latency_ms : ℕ
  pub load : ℕ
  pub worker : Worker

abbrev pub candidate_of : Worker → ℕ → Candidate
candidate_of w load = record {
  reputation = worker_decimal_setting w "reputation" default_reputation;
  latency_ms = worker_latency_ms w;
  load = load;
  worker = w;
}

-- A worker has settings, takes assignments, and has room for one more.
abbrev pub has_room : ℕ → Worker → Bool
has_room load w = elim w.settings [
  | none ↦ false
  | some s ↦ s.accept_new_assignments && not (leb_ℤ s.max_concurrency (pos load))
]

abbrev pub price_of : Worker → Decimal
price_of w = worker_decimal_setting w "price_multiplier" default_price_multiplier

-- A worker with room that does not ask for more than the job pays is one more candidate.
abbrev pub add_candidate : Decimal → ℕ → Worker → List Candidate → Option (List Candidate)
add_candidate price load w rest =
    if has_room load w
    then gt (price_of w) price
      >>= (λ dear. some (if dear then rest else candidate_of w load ∷ rest))
    else some rest

-- The candidates from the workers in turn.
unfoldable pub candidates_of : Decimal → (ℕ → ℕ) → List Worker → Option (List Candidate)
candidates_of price counts [] = some []
candidates_of price counts (w ∷ ws) = do
  rest ← candidates_of price counts ws
  add_candidate price (counts w.id) w rest

-- The order of the keys `(-reputation, latency, load, id)`, where `-` rounds.
unfoldable pub precedes : Candidate → Candidate → Bool
precedes c d =
    lt_num (minus c.reputation) (minus d.reputation)
    || (not (lt_num (minus d.reputation) (minus c.reputation))
        && (ltb c.latency_ms d.latency_ms
            || (c.latency_ms == d.latency_ms
                && (ltb c.load d.load || (c.load == d.load && ltb c.worker.id d.worker.id)))))

-- A stable insertion: a later candidate goes behind those that it does not precede.
unfoldable pub insert : Candidate → List Candidate → List Candidate
insert c [] = c ∷ []
insert c (d ∷ ds) = let rest = insert c ds in if precedes d c then d ∷ rest else c ∷ d ∷ ds

unfoldable pub sort : List Candidate → List Candidate
sort [] = []
sort (c ∷ cs) = insert c (sort cs)

abbrev pub any_reputation : (Decimal → Bool) → List Candidate → Bool
any_reputation p [] = false
any_reputation p (c ∷ cs) = p c.reputation || any_reputation p cs

-- Negating a reputation may raise; comparing a NaN raises, and a sort of two or more compares each.
abbrev pub is_sortable : List Candidate → Bool
is_sortable cs =
    not (any_reputation minus_raises cs) && (leb (length cs) 1 || not (any_reputation is_nan cs))

-- `candidates.sort(key=…)`, and its first; `some none` where there is none.
unfoldable pub select_candidate : List Candidate → Option (Option Candidate)
select_candidate cs =
    if is_sortable cs then (elim (sort cs) [ [] ↦ some none | c ∷ rest ↦ some (some c) ]) else none
