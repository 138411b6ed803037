-- ===== src/Finance/Tests.antt =====
-- The theorems on finance.py at one job of three tokens with a fee of five per cent.
use open_mesh_ai.Prelude.{
  ◌+◌, ◌*◌, ◌≤◌, ◌≡◌, refl, Bool, true, false, [], ◌∷◌, pos, ◌-ℤ◌, ◌+ℤ◌, ◌*ℤ◌, ◌≤ℤ◌, if◌then◌else◌,
  ◌==◌, pos_part, arith, map,
}
use open_mesh_ai.Db.Models.{Account}
use open_mesh_ai.Db.Session.{Db}
use open_mesh_ai.Finance.Accounts.{create_ledger_entry, get_or_create_account}
use open_mesh_ai.Finance.Accounting.{apply_job_verification_accounting, posting_of, settle}
use open_mesh_ai.Finance.Pricing.{
  units_of_chars, fee_of, active_pricing_rule, newest, job_cost, estimate_payload_units,
}
use open_mesh_ai.Decimal.Rounding.{round_signed, round_ceiling, round_half_even}
use open_mesh_ai.Json.{dumps}
use open_mesh_ai.Finance.Balance.{IsBalanced, total_posted, accounting-total_posted}
use open_mesh_ai.Finance.Idempotent.{accounting_twice, IsChargedOnce}
use open_mesh_ai.Finance.Split.{fee_of_bounds}
use open_mesh_ai.Finance.Holdings.{holdings, charge_if}
use open_mesh_ai.Finance.Owners.{AreDistinctAccounts}
use open_mesh_ai.Finance.Refined.{accounting_refines_charge}
use open_mesh_ai.Samples.{running_pool, finished, good_result}

granted_or_nothing :
    (b : Bool)
    → (if b then pos 1_000_000_000 else pos 0) ≡ (if b then pos 1_000_000_000 else pos 0) +ℤ pos 0
unfolding ◌+ℤ◌
granted_or_nothing true = refl
granted_or_nothing false = refl

pub running_pool-IsBalanced : IsBalanced running_pool
running_pool-IsBalanced i = granted_or_nothing (1 == i)

running_pool-IsChargedOnce : IsChargedOnce running_pool
running_pool-IsChargedOnce i = ground arith

abbrev settled_pool : Db
settled_pool = apply_job_verification_accounting 20 finished good_result running_pool

-- The buyer pays three tokens: fifteen hundredths for the pool, the rest for the worker's owner.
settled_balances :
    map (λ (a : Account). a.balance) settled_pool.accounts
    ≡ pos 700_000_000 ∷ pos 15_000_000 ∷ pos 285_000_000 ∷ []
unfolding apply_job_verification_accounting posting_of active_pricing_rule newest settle
    create_ledger_entry get_or_create_account ◌+ℤ◌ job_cost fee_of ◌-ℤ◌ ◌*ℤ◌ round_signed
    estimate_payload_units units_of_chars round_ceiling dumps round_half_even
settled_balances = refl

accounting-total_posted_example :
    total_posted settled_pool.ledger ≡ total_posted running_pool.ledger
accounting-total_posted_example = accounting-total_posted 20 finished good_result running_pool

accounting_twice_example :
    apply_job_verification_accounting 30 finished good_result settled_pool ≡ settled_pool
accounting_twice_example = accounting_twice 20 30 finished good_result running_pool

fee_of_bounds_example :
    let fee = fee_of (pos 300_000_001) (pos 500) in
    (pos 0 ≤ℤ fee)
    × (fee ≤ℤ pos 300_000_001)
    × (pos 0 ≤ℤ pos 300_000_001 -ℤ fee)
    × (20_000 * pos_part fee ≤ 2 * (300_000_001 * 500) + 10_000)
    × (2 * (300_000_001 * 500) ≤ 20_000 * pos_part fee + 10_000)
fee_of_bounds_example = fee_of_bounds 300_000_001 500 (omega arith)

pub running_pool-AreDistinctAccounts : AreDistinctAccounts running_pool
running_pool-AreDistinctAccounts = (omega arith, tt, tt)

accounting_refines_charge_example :
    (holdings settled_pool
      ≡ charge_if (posting_of finished good_result running_pool) (holdings running_pool))
    × AreDistinctAccounts settled_pool
accounting_refines_charge_example =
    accounting_refines_charge 20 finished good_result running_pool running_pool-AreDistinctAccounts
