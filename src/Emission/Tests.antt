-- ===== src/Emission/Tests.antt =====
-- The theorems on emission.py at one worker with one heartbeat of thirty seconds, and three payouts
-- of one unit that go past a cap of two.
use open_mesh_ai.Prelude.{ℕ, ◌+◌, ◌≡◌, refl, some, [], ◌∷◌, pos, ◌+ℤ◌, ◌-ℤ◌, arith}
use open_mesh_ai.Decimal.Rounding.{round_half_even, round_signed}
use open_mesh_ai.Decimal.Parse.{parse}
use open_mesh_ai.Decimal.Context.{round_28}
use open_mesh_ai.Json.{get}
use open_mesh_ai.Db.Session.{Db}
use open_mesh_ai.Finance.Balance.{IsBalanced}
use open_mesh_ai.Finance.Tests.{running_pool-IsBalanced}
use open_mesh_ai.Emission.Uptime.{calculate_uptime_ratio, emission_reputation, quantized_ratio}
use open_mesh_ai.Emission.Payouts.{
  DailyEmissionWorkerPayout, provisional_amount, provisional_payouts, total_of, final_amount,
}
use open_mesh_ai.Emission.Run.{
  emitted_today, DailyEmissionResult, pay_worker, pay_all, pay_provisional, run_daily_emission,
  emission_round,
}
use open_mesh_ai.Emission.Paid.{run_daily_emission-IsBalanced, emission_round_once}
use open_mesh_ai.Samples.{running_pool}

abbrev now : ℕ
now = 172_900_000_000

abbrev beating_pool : Db
beating_pool = record running_pool {
  heartbeats = record { worker_id = 7; recorded_at = 172_800_000_000 } ∷ [];
}

abbrev payout : DailyEmissionWorkerPayout
payout = record {
  worker_id = 7;
  worker_owner_id = 2;
  uptime_ratio = 34_722;
  reputation = 50_000_000;
  emission_tokens = 416_664;
}

abbrev result : DailyEmissionResult
result = record { emitted_tokens = 416_664; payouts = payout ∷ [] }

abbrev paid_pool : Db
paid_pool = pay_worker now 2 416_664 beating_pool

beating_pool-paid :
    run_daily_emission 100_000_000_000 2_400_000_000 now beating_pool ≡ some (result, paid_pool)
unfolding run_daily_emission ◌-ℤ◌ ◌+ℤ◌ provisional_payouts calculate_uptime_ratio round_half_even
    emission_reputation get parse quantized_ratio round_signed provisional_amount round_28 pay_all
    final_amount
beating_pool-paid = refl

run_daily_emission-IsBalanced_example :
    IsBalanced paid_pool
    × (total_of result.payouts ≡ result.emitted_tokens)
    × (emitted_today now paid_pool ≡ emitted_today now beating_pool +ℤ pos 416_664)
run_daily_emission-IsBalanced_example =
    run_daily_emission-IsBalanced 100_000_000_000 2_400_000_000 now beating_pool paid_pool result
      running_pool-IsBalanced beating_pool-paid

no_emission : emitted_today now beating_pool ≡ pos 0
unfolding ◌+ℤ◌
no_emission = refl

emission_round_once_example :
    emission_round 0 0 100_000_000_000 2_400_000_000 (now + 60_000_000) paid_pool ≡ paid_pool
emission_round_once_example =
    emission_round_once 100_000_000_000 2_400_000_000 now (now + 60_000_000) 0 0 100_000_000_000
      2_400_000_000 beating_pool paid_pool result no_emission beating_pool-paid (omega arith) refl

abbrev one_unit : DailyEmissionWorkerPayout
one_unit = record payout { emission_tokens = 1 }

-- Two units remain; each of three payouts is scaled to two thirds of a unit and rounded up to one.
cap_exceeded :
    (pay_provisional now 2 (one_unit ∷ one_unit ∷ one_unit ∷ []) beating_pool).0.emitted_tokens ≡ 3
unfolding pay_all final_amount round_half_even round_28
cap_exceeded = refl
