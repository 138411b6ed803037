-- ===== src/Decimal/Order.antt =====
-- `Decimal` values and their comparison. `>` and `<` raise `InvalidOperation` on a NaN: `none`.
use open_mesh_ai.Prelude.{
  ◌+◌, ◌*◌, ◌≤◌, ◌<◌, ◌≡◌, refl, arith, ltb, pos_part, neg_part, ℕ, ◌^◌, Bool, true, false, not,
  Option, none, some, ℤ, pos,
}
use native.Mathlib.Nat.{one-le-pow, mul-le-mul_right, le_of_mul-le-mul_left}

pub data Decimal : Type 0 where
  fin : ℤ → ℕ → Decimal
  -- `true`: the positive one
  infinity : Bool → Decimal
  -- `true`: a signalling NaN
  nan : Bool → Decimal

-- A whole number, and a number of hundredths and the like.
abbrev pub whole : ℕ → Decimal
whole n = fin (pos n) 0

-- `a < b` between numbers: both sides are brought to one scale. It is false at a NaN.
unfoldable pub lt_num : Decimal → Decimal → Bool
lt_num (fin a s) (fin b t) =
    ltb (pos_part a * 10 ^ t + neg_part b * 10 ^ s) (pos_part b * 10 ^ s + neg_part a * 10 ^ t)
lt_num (fin a s) (infinity up) = up
lt_num (fin a s) (nan q) = false
lt_num (infinity up) (fin b t) = not up
lt_num (infinity true) (infinity up) = false
lt_num (infinity false) (infinity up) = up
lt_num (infinity up) (nan q) = false
lt_num (nan q) d = false

abbrev pub is_nan : Decimal → Bool
is_nan (fin a s) = false
is_nan (infinity up) = false
is_nan (nan q) = true

abbrev pub is_snan : Decimal → Bool
is_snan (fin a s) = false
is_snan (infinity up) = false
is_snan (nan q) = q

-- `a > b`
unfoldable pub gt : Decimal → Decimal → Option Bool
gt (nan q) b = none
gt (fin a s) (nan q) = none
gt (infinity up) (nan q) = none
gt (fin a s) (fin b t) = some (lt_num (fin b t) (fin a s))
gt (fin a s) (infinity up) = some (lt_num (infinity up) (fin a s))
gt (infinity up) (fin b t) = some (lt_num (fin b t) (infinity up))
gt (infinity up) (infinity dn) = some (lt_num (infinity dn) (infinity up))

pow_pos : (n : ℕ) → 0 < 10 ^ n
pow_pos n = one-le-pow n 10 (omega arith)

scaled_trans :
    (a a' b b' c c' p q r : ℕ)
    → 0 < q
    → a * q + b' * p ≤ b * p + a' * q
    → b * r + c' * q ≤ c * q + b' * r
    → a * r + c' * p ≤ c * p + a' * r
scaled_trans a a' b b' c c' p q r h k l =
    le_of_mul-le-mul_left
      (let k' = mul-le-mul_right r k in let l' = mul-le-mul_right p l in omega arith) h

-- `≤` is transitive through a number: what is not above `y`, which is not above `z`.
pub lt_num_trans :
    (x y z : Decimal)
    → is_nan y ≡ false
    → lt_num y x ≡ false
    → lt_num z y ≡ false
    → lt_num z x ≡ false
unfolding lt_num
lt_num_trans (fin a s) (fin b t) (fin c u) n h k =
    let ordered =
      scaled_trans (pos_part a) (neg_part a) (pos_part b) (neg_part b) (pos_part c) (neg_part c)
        (10 ^ s) (10 ^ t) (10 ^ u) (pow_pos t) (ground arith) (ground arith) in
    ground arith
lt_num_trans (fin a s) (fin b t) (infinity up) n h k = ground arith
lt_num_trans (fin a s) (fin b t) (nan q) n h k = refl
lt_num_trans x y z n h k = ground arith

pub lt_num_irrefl : (x : Decimal) → lt_num x x ≡ false
unfolding lt_num
lt_num_irrefl (fin a s) = ground arith
lt_num_irrefl x = ground arith

pub lt_num_asym : (x y : Decimal) → lt_num x y ≡ true → lt_num y x ≡ false
unfolding lt_num
lt_num_asym (fin a s) (fin b t) h = ground arith
lt_num_asym x y h = ground arith
