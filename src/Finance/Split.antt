-- ===== src/Finance/Split.antt =====
-- How a job's price is split between the pool and the worker's owner.
use open_mesh_ai.Prelude.{
  ℕ, ◌+◌, ◌*◌, ◌≤◌, ◌<◌, ◌≡◌, pos, ◌-ℤ◌, ◌*ℤ◌, ◌≤ℤ◌, pos_part, arith, int_laws,
}
use open_mesh_ai.Decimal.Rounding.{round_signed, round_half_even, round_half_even_near}
use open_mesh_ai.Finance.Pricing.{fee_of}

round_half_even-le : (n d m : ℕ) → 0 < d → n ≤ d * m → round_half_even n d ≤ m
round_half_even-le n d m h k = grind (arith, round_half_even_near n d h)

pos_*ℤ_pos : (a b : ℕ) → pos a *ℤ pos b ≡ pos (a * b)
unfolding ◌*ℤ◌
pos_*ℤ_pos a b = ground arith

-- With a rate from 0 to 10000 basis points and a price that is not negative, the pool's fee lies
-- between nothing and the price, so the worker's owner is not charged; and the fee is the exact one
-- to within half a unit of 0.00000001.
pub fee_of_bounds :
    (cost bps : ℕ)
    → bps ≤ 10_000
    → let fee = fee_of (pos cost) (pos bps) in
      (pos 0 ≤ℤ fee)
      × (fee ≤ℤ pos cost)
      × (pos 0 ≤ℤ pos cost -ℤ fee)
      × (20_000 * pos_part fee ≤ 2 * (cost * bps) + 10_000)
      × (2 * (cost * bps) ≤ 20_000 * pos_part fee + 10_000)
unfolding fee_of round_signed
fee_of_bounds cost bps h = rw pos_*ℤ_pos (
    grind (
      int_laws,
      round_half_even-le (cost * bps) 10_000 cost,
      round_half_even_near (cost * bps) 10_000,
    ))
