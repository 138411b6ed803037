-- ===== src/Dispatch/Settings.antt =====
-- What job_dispatcher.py reads out of a worker's `specs_json` and a job's payload.
use open_mesh_ai.Prelude.{ℕ, true, false, Option, none, some, String, pos, negsuc}
use open_mesh_ai.Decimal.Order.{Decimal, fin}
use open_mesh_ai.Json.{Json, get, decimal_of, null, bool, int, float, str, arr, obj}
use open_mesh_ai.Db.Models.{Worker, Job}

abbrev pub default_price_multiplier : Decimal
default_price_multiplier = fin (pos 10) 1

abbrev pub default_reputation : Decimal
default_reputation = fin (pos 5) 1

abbrev pub default_estimated_latency_ms : ℕ
default_estimated_latency_ms = 1_000_000

-- `specs.get(key)`, where the worker has specs.
abbrev pub spec_of : Worker → String → Option Json
spec_of w key = elim w.specs_json [ none ↦ none | some specs ↦ get key specs ]

abbrev pub decimal_or : Decimal → Option Json → Decimal
decimal_or default none = default
decimal_or default (some v) = elim (decimal_of v) [ none ↦ default | some d ↦ d ]

unfoldable pub worker_decimal_setting : Worker → String → Decimal → Decimal
worker_decimal_setting w key default = decimal_or default (spec_of w key)

-- An `int` that is not negative; `True` and `False` are the ints 1 and 0.
abbrev pub latency_or : ℕ → Option Json → ℕ
latency_or default none = default
latency_or default (some (int (pos n))) = n
latency_or default (some (int (negsuc n))) = default
latency_or default (some (bool true)) = 1
latency_or default (some (bool false)) = 0
latency_or default (some null) = default
latency_or default (some (float r)) = default
latency_or default (some (str s)) = default
latency_or default (some (arr xs)) = default
latency_or default (some (obj d)) = default

unfoldable pub worker_latency_ms : Worker → ℕ
worker_latency_ms w = latency_or default_estimated_latency_ms (spec_of w "estimated_latency_ms")

unfoldable pub job_price_multiplier : Job → Decimal
job_price_multiplier j = decimal_or default_price_multiplier (get "price_multiplier" j.payload)
