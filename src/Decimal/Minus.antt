-- ===== src/Decimal/Minus.antt =====
-- Python's unary minus on a `Decimal`, under the default context: it rounds as every operation does,
-- and raises on a signalling NaN and on a result that is too large.
use open_mesh_ai.Prelude.{
  ℕ, zero, suc, ◌+◌, ◌-◌, ◌*◌, ◌/◌, ◌^◌, ◌≡◌, refl, Bool, true, false, not, pos, negsuc, neg, ltb,
  if◌then◌else◌, arith, neg_parts,
}
use open_mesh_ai.Decimal.Rounding.{round_half_even}
use open_mesh_ai.Decimal.Order.{Decimal, fin, infinity, nan, lt_num, is_nan}
use open_mesh_ai.Decimal.Context.{excess_digits}

-- How many digits a number has; `n` rounds are enough.
unfoldable pub digits : ℕ → ℕ → ℕ
digits zero n = 1
digits (suc f) n = elim (ltb n 10) [ true ↦ 1 | false ↦ suc (digits f (n / 10)) ]

-- The last places that do not stay, of a coefficient at a scale: those beyond 28 digits, and those
-- beyond 1000026 decimals, the context's `Etiny`.
unfoldable dropped_places : ℕ → ℕ → ℕ
unfolding excess_digits
dropped_places n s =
    let beyond = excess_digits n n in
    let tiny = s - 1_000_026 in if ltb beyond tiny then tiny else beyond

unfoldable pub round_places : ℕ → ℕ → ℕ
unfolding dropped_places
round_places n s = round_half_even n (10 ^ dropped_places n s) * 10 ^ dropped_places n s

-- A value as the context rounds it.
unfoldable pub rounded : Decimal → Decimal
unfolding round_places
rounded (fin (pos n) s) = fin (pos (round_places n s)) s
rounded (fin (negsuc n) s) = fin (neg (pos (round_places (suc n) s))) s
rounded (infinity up) = infinity up
rounded (nan q) = nan q

abbrev pub opposite : Decimal → Decimal
opposite (fin a s) = fin (neg a) s
opposite (infinity up) = infinity (not up)
opposite (nan q) = nan q

-- `-d`, where it does not raise.
abbrev pub minus : Decimal → Decimal
minus d = opposite (rounded d)

-- A magnitude of 10 ^ 1000000 or more is `Overflow`.
abbrev pub is_too_large : ℕ → ℕ → Bool
is_too_large n s = let m = round_places n s in ltb (s + 1_000_000) (digits m m)

-- `-d` raises.
unfoldable pub minus_raises : Decimal → Bool
unfolding round_places digits
minus_raises (fin (pos n) s) = is_too_large n s
minus_raises (fin (negsuc n) s) = is_too_large (suc n) s
minus_raises (infinity up) = false
minus_raises (nan q) = q

-- The order of the opposites is the other way round.
pub lt_num-opposite : (x y : Decimal) → lt_num (opposite x) (opposite y) ≡ lt_num y x
unfolding lt_num
lt_num-opposite (fin a s) (fin b t) = ground (arith, neg_parts a, neg_parts b)
lt_num-opposite (fin a s) (infinity up) = ground arith
lt_num-opposite (fin a s) (nan q) = refl
lt_num-opposite (infinity up) (fin b t) = ground arith
lt_num-opposite (infinity true) (infinity true) = refl
lt_num-opposite (infinity true) (infinity false) = refl
lt_num-opposite (infinity false) (infinity true) = refl
lt_num-opposite (infinity false) (infinity false) = refl
lt_num-opposite (infinity up) (nan q) = refl
lt_num-opposite (nan q) (fin b t) = refl
lt_num-opposite (nan q) (infinity up) = refl
lt_num-opposite (nan q) (nan r) = refl

pub is_nan-minus : (d : Decimal) → is_nan (minus d) ≡ is_nan d
unfolding rounded
is_nan-minus (fin (pos n) s) = refl
is_nan-minus (fin (negsuc n) s) = refl
is_nan-minus (infinity up) = refl
is_nan-minus (nan q) = refl
