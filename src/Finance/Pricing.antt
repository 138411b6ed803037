-- ===== src/Finance/Pricing.antt =====
-- The price of a job: `estimate_payload_units`, `_active_pricing_rule`, and the amounts that
-- `apply_job_verification_accounting` computes from them. The context's 28 digits hold each product
-- exactly: a unit cost has at most 18, a fee rate and a count of units at most 10 together.
use open_mesh_ai.Prelude.{
  ℕ, ◌+◌, ◌*◌, ◌-◌, ◌≤◌, ◌<◌, Bool, ◌&&◌, ◌||◌, Option, none, some, List, [], ◌∷◌, ℤ, pos, ◌*ℤ◌,
  ltb, ◌==◌, if◌then◌else◌, filter_by, length, arith,
}
use open_mesh_ai.Decimal.Rounding.{round_ceiling, round_signed}
use open_mesh_ai.Json.{Fields, obj, dumps}
use open_mesh_ai.Db.Enums.{JobType, job_type_eq}
use open_mesh_ai.Db.Models.{PricingRule}

-- Thousands of characters, rounded up, and at least one.
unfoldable pub units_of_chars : ℕ → ℕ
units_of_chars chars = if ltb (round_ceiling chars 1000) 1 then 1 else round_ceiling chars 1000

unfoldable pub estimate_payload_units : Fields → ℕ
estimate_payload_units payload = units_of_chars (length (dumps (obj payload)))

-- `ORDER BY effective_from DESC, id DESC`
abbrev pub is_newer : PricingRule → PricingRule → Bool
is_newer r s =
    ltb s.effective_from r.effective_from || (s.effective_from == r.effective_from && ltb s.id r.id)

unfoldable pub newest : List PricingRule → Option PricingRule
newest [] = none
newest (r ∷ rs) = elim (newest rs) [ none ↦ some r | some s ↦ some (if is_newer s r then s else r) ]

unfoldable pub active_pricing_rule : JobType → List PricingRule → Option PricingRule
active_pricing_rule t rules =
    newest (filter_by (λ r. job_type_eq r.job_type t && r.is_active) rules)

unfoldable pub job_cost : ℕ → ℤ → ℤ
job_cost units unit_cost = pos units *ℤ unit_cost

unfoldable pub fee_of : ℤ → ℤ → ℤ
fee_of cost pool_fee_bps = round_signed (cost *ℤ pool_fee_bps) 10_000

-- A job costs at least one unit, and pays for every character: the units cover the text, and no
-- whole unit is spare.
pub units_of_chars_bounds :
    (chars : ℕ)
    → let units = units_of_chars chars in
      (1 ≤ units) × (chars ≤ 1000 * units) × (1000 * units < chars + 1000 + 1000 * (1 - chars))
unfolding units_of_chars round_ceiling
units_of_chars_bounds chars = ground arith
