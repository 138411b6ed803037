-- ===== src/Decimal/Rounding.antt =====
-- Rounding. A quantity of tokens is a whole number of units of 0.00000001, the quantum of the
-- `Numeric(18, 8)` columns; `quantize` rounds half to even, on the magnitude, as the context does.
use open_mesh_ai.Prelude.{
  ℕ, suc, ◌+◌, ◌*◌, ◌/◌, ◌%◌, ◌≤◌, ◌<◌, arith, ltb, ◌==◌, if◌then◌else◌, ℤ, pos, negsuc, neg,
}

-- The whole number nearest to n / d, the even one of two.
unfoldable pub round_half_even : ℕ → ℕ → ℕ
round_half_even n d =
    if ltb (2 * (n % d)) d
    then n / d
    else if ltb d (2 * (n % d))
    then n / d + 1
    else n / d + (n / d) % 2

-- The whole number at or above n / d: `ROUND_CEILING` on a value that is not negative.
unfoldable pub round_ceiling : ℕ → ℕ → ℕ
round_ceiling n d = if n % d == 0 then n / d else n / d + 1

-- The same on a signed numerator.
unfoldable pub round_signed : ℤ → ℕ → ℤ
round_signed (pos n) d = pos (round_half_even n d)
round_signed (negsuc n) d = neg (pos (round_half_even (suc n) d))

-- The error is at most half a unit, on either side.
pub round_half_even_near :
    (n d : ℕ)
    → 0 < d
    → (2 * (d * round_half_even n d) ≤ 2 * n + d) × (2 * n ≤ 2 * (d * round_half_even n d) + d)
unfolding round_half_even
round_half_even_near n d h = grind arith
