-- ===== src/Emission/Payouts.antt =====
-- The provisional payouts of `run_daily_emission`, and how they are scaled to what remains of the
-- day's cap. Amounts are units of 0.00000001; a product and a quotient are rounded to 28 digits first,
-- as the context does, and then to a unit. Settings below zero count as zero.
use open_mesh_ai.Prelude.{
  ℕ, zero, suc, ◌+◌, ◌*◌, ◌^◌, Option, none, some, List, [], ◌∷◌, ltb, leb, ◌==◌, if◌then◌else◌,
  ◌>>=◌,
}
use open_mesh_ai.Decimal.Rounding.{round_half_even}
use open_mesh_ai.Decimal.Context.{round_28}
use open_mesh_ai.Db.Models.{Worker}
use open_mesh_ai.Db.Session.{Db}
use open_mesh_ai.Emission.Uptime.{calculate_uptime_ratio, reputation_of, timeout_of}

pub record DailyEmissionWorkerPayout : Type 0 where
  pub worker_id : ℕ
  pub worker_owner_id : ℕ
  pub uptime_ratio : ℕ
  pub reputation : ℕ
  pub emission_tokens : ℕ

-- `(base_tokens * uptime_ratio * reputation).quantize(…)`
unfoldable pub provisional_amount : ℕ → ℕ → ℕ → ℕ
provisional_amount base_tokens uptime_ratio reputation =
    round_half_even (round_28 (round_28 (base_tokens * uptime_ratio) * reputation)) (10 ^ 16)

abbrev pub payout_of : ℕ → Worker → ℕ → ℕ → DailyEmissionWorkerPayout
payout_of base_tokens w uptime_ratio reputation = record {
  worker_id = w.id;
  worker_owner_id = w.owner_user_id;
  uptime_ratio = uptime_ratio;
  reputation = reputation;
  emission_tokens = provisional_amount base_tokens uptime_ratio reputation;
}

-- A worker without uptime, without reputation or without an amount gets nothing.
abbrev pub add_payout :
    ℕ
    → Worker
    → ℕ
    → Option ℕ
    → List DailyEmissionWorkerPayout
    → Option (List DailyEmissionWorkerPayout)
add_payout base_tokens w zero reputation rest = some rest
add_payout base_tokens w (suc u) none rest = none
add_payout base_tokens w (suc u) (some zero) rest = some rest
add_payout base_tokens w (suc u) (some (suc r)) rest =
    if provisional_amount base_tokens (suc u) (suc r) == 0
    then some rest
    else some (payout_of base_tokens w (suc u) (suc r) ∷ rest)

unfoldable pub provisional_payouts :
    ℕ → ℕ → ℕ → Db → List Worker → Option (List DailyEmissionWorkerPayout)
provisional_payouts base_tokens window_start window_end db [] = some []
provisional_payouts base_tokens window_start window_end db (w ∷ ws) = do
  rest ← provisional_payouts base_tokens window_start window_end db ws
  add_payout base_tokens w (calculate_uptime_ratio w.id (timeout_of w) window_start window_end db)
      (reputation_of w) rest

abbrev pub total_of : List DailyEmissionWorkerPayout → ℕ
total_of [] = 0
total_of (p ∷ ps) = p.emission_tokens + total_of ps

-- The least power of ten that takes `r` to `t` or above; `t` rounds are enough, since `10 ^ t` is
-- above `t`.
abbrev pub shift_of : ℕ → ℕ → ℕ → ℕ
shift_of zero r t = 0
shift_of (suc fuel) r t = let next = shift_of fuel (10 * r) t in if ltb r t then suc next else 0

-- `remaining_cap / provisional_total`, less than 1: 28 digits, and how many of its digits stand
-- behind the point.
abbrev pub quotient : ℕ → ℕ → ℕ × ℕ
quotient r t = let places = shift_of t r t + 27 in (round_half_even (r * 10 ^ places) t, places)

-- `(emission_tokens * scale_factor).quantize(…)`
unfoldable pub final_amount : ℕ → ℕ → ℕ → ℕ
final_amount remaining_cap provisional_total tokens =
    if leb provisional_total remaining_cap
    then tokens
    else (let (digits, places) = quotient remaining_cap provisional_total in
        round_half_even (round_28 (tokens * digits)) (10 ^ places))
