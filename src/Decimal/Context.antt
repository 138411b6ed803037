-- ===== src/Decimal/Context.antt =====
-- Arithmetic under Python's default decimal context: 28 significant digits, half to even.
use open_mesh_ai.Prelude.{
  ℕ, zero, suc, ◌+◌, ◌*◌, ◌/◌, ◌^◌, ◌≡◌, refl, Bool, true, false, Option, some, ℤ, pos, negsuc, neg,
  pos_part, neg_part, sub_ℕ, ltb, if◌then◌else◌, arith, ◌>>=◌, >>=-eq-some, some_inj, subst,
}
use open_mesh_ai.Decimal.Rounding.{round_half_even}
use open_mesh_ai.Decimal.Order.{
  Decimal, fin, infinity, nan, gt, lt_num, is_nan, whole, lt_num_irrefl, lt_num_asym,
}

-- How many digits a coefficient has beyond 28; `n` rounds are enough.
unfoldable pub excess_digits : ℕ → ℕ → ℕ
excess_digits zero n = 0
excess_digits (suc f) n = elim (ltb n (10 ^ 28)) [
  | true ↦ 0
  | false ↦ suc (excess_digits f (n / 10))
]

-- A coefficient rounded to 28 digits, at its old scale.
unfoldable pub round_28 : ℕ → ℕ
unfolding excess_digits
round_28 n = let k = excess_digits n n in round_half_even n (10 ^ k) * 10 ^ k

round_context : ℤ → ℤ
round_context (pos n) = pos (round_28 n)
round_context (negsuc n) = neg (pos (round_28 (suc n)))

-- `a + b`. Sums that raise, of two infinities or with a signalling NaN, do not occur: one side is
-- always a constant of the program.
unfoldable pub add : Decimal → Decimal → Decimal
unfolding round_context
add (fin a s) (fin b t) =
    fin
      (round_context (
        sub_ℕ (pos_part a * 10 ^ t + pos_part b * 10 ^ s)
          (neg_part a * 10 ^ t + neg_part b * 10 ^ s)))
      (s + t)
add (fin a s) d = d
add (infinity up) (nan q) = nan q
add (infinity up) d = infinity up
add (nan q) d = nan q

-- `max(a, b)` and `min(a, b)`: the first, unless the second is beyond it.
unfoldable pub max_of : Decimal → Decimal → Option Decimal
max_of a b = gt b a >>= λ above. some (if above then b else a)

unfoldable pub min_of : Decimal → Decimal → Option Decimal
min_of a b = gt a b >>= λ above. some (if above then b else a)

-- `min(Decimal("1.0"), max(Decimal("0.0"), d))`
unfoldable pub clamp_unit : Decimal → Option Decimal
unfolding max_of min_of
clamp_unit d = max_of (whole 0) d >>= min_of (whole 1)

abbrev pub IsUnit : Decimal → Type 0
IsUnit d = (lt_num d (whole 0) ≡ false) × (lt_num (whole 1) d ≡ false) × (is_nan d ≡ false)

gt-eq-some :
    (a b : Decimal) (c : Bool)
    → gt a b ≡ some c
    → (lt_num b a ≡ c) × (is_nan a ≡ false) × (is_nan b ≡ false)
unfolding gt
gt-eq-some a b c e = ground arith

max_of-zero :
    (d m : Decimal)
    → max_of (whole 0) d ≡ some m
    → (lt_num m (whole 0) ≡ false) × (is_nan m ≡ false)
unfolding max_of
max_of-zero d m e =
    let (above, compares, e') = >>=-eq-some (gt d (whole 0)) _ e in
    by_test above (gt-eq-some d (whole 0) above compares) (some_inj e')
  where
    by_test :
        (above : Bool)
        → (lt_num (whole 0) d ≡ above) × (is_nan d ≡ false) × (is_nan (whole 0) ≡ false)
        → (if above then d else whole 0) ≡ m
        → (lt_num m (whole 0) ≡ false) × (is_nan m ≡ false)
    by_test true (l, n, z) q = (
      subst (λ x. lt_num x (whole 0) ≡ false) q (lt_num_asym (whole 0) d l),
      subst (λ x. is_nan x ≡ false) q n,
    )
    by_test false (l, n, z) q = (
      subst (λ x. lt_num x (whole 0) ≡ false) q (lt_num_irrefl (whole 0)),
      subst (λ x. is_nan x ≡ false) q z,
    )

one_zero : lt_num (whole 1) (whole 0) ≡ false
unfolding lt_num
one_zero = refl

min_of-one : (m u : Decimal) → lt_num m (whole 0) ≡ false → min_of (whole 1) m ≡ some u → IsUnit u
unfolding min_of
min_of-one m u low e =
    let (above, compares, e') = >>=-eq-some (gt (whole 1) m) _ e in
    by_test above (gt-eq-some (whole 1) m above compares) (some_inj e')
  where
    by_test :
        (above : Bool)
        → (lt_num m (whole 1) ≡ above) × (is_nan (whole 1) ≡ false) × (is_nan m ≡ false)
        → (if above then m else whole 1) ≡ u
        → IsUnit u
    by_test true (l, z, n) q = subst IsUnit q (low, lt_num_asym m (whole 1) l, n)
    by_test false (l, z, n) q = subst IsUnit q (one_zero, lt_num_irrefl (whole 1), z)

-- What is clamped lies from 0 to 1, and is a number; a NaN raises.
pub clamp_unit-IsUnit : (d u : Decimal) → clamp_unit d ≡ some u → IsUnit u
unfolding clamp_unit
clamp_unit-IsUnit d u e =
    let (m, high, low) = >>=-eq-some (max_of (whole 0) d) _ e in
    min_of-one m u (max_of-zero d m high).0 low
