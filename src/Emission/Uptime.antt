-- ===== src/Emission/Uptime.antt =====
-- `_calculate_uptime_ratio` of emission.py, and the reputation that a payout counts. A ratio is a
-- whole number of units of 0.00000001. Times are in microseconds, so seconds are exact; a quotient by
-- 86400 that is not halfway between two units stays so in 28 digits, and is rounded at once.
use open_mesh_ai.Prelude.{
  ℕ, suc, ◌+◌, ◌-◌, ◌*◌, ◌^◌, Bool, ◌&&◌, Option, none, some, List, [], ◌∷◌, ℤ, pos, negsuc,
  pos_part, neg_part, ltb, leb, leb_ℤ, ◌==◌, if◌then◌else◌, ◌>>=◌,
}
use open_mesh_ai.Decimal.Rounding.{round_half_even, round_signed}
use open_mesh_ai.Decimal.Order.{Decimal, fin, infinity, nan}
use open_mesh_ai.Decimal.Parse.{parse}
use open_mesh_ai.Json.{Json, null, bool, int, float, str, arr, obj, get}
use open_mesh_ai.Db.Models.{Worker, WorkerHeartbeat}
use open_mesh_ai.Db.Session.{Db}
use open_mesh_ai.Verification.Reputation.{specs_or_empty}

abbrev pub unit : ℕ
unit = 100_000_000

abbrev pub second : ℕ
second = 1_000_000

-- `value < 0`, `value > 1`; a NaN does not come so far.
abbrev pub clamp_ratio : ℤ → ℕ
clamp_ratio (pos n) = if ltb unit n then unit else n
clamp_ratio (negsuc n) = 0

abbrev pub later : ℕ → Option ℕ → Option ℕ
later t none = some t
later t (some s) = some (if ltb s t then t else s)

-- The last beat of the worker before the window.
abbrev pub previous_point : ℕ → ℕ → List WorkerHeartbeat → Option ℕ
previous_point i window_start [] = none
previous_point i window_start (h ∷ hs) =
    let rest = previous_point i window_start hs in
    if h.worker_id == i && ltb h.recorded_at window_start then later h.recorded_at rest else rest

-- The time from a beat to its timeout, within the window.
abbrev pub covered_by : ℕ → ℕ → ℕ → ℕ → ℕ
covered_by timeout window_start window_end t =
    let range_start = if ltb t window_start then window_start else t in
    let range_end = if ltb window_end (t + timeout) then window_end else t + timeout in
    if ltb range_start range_end then range_end - range_start else 0

abbrev pub in_window : ℕ → ℕ → ℕ → WorkerHeartbeat → Bool
in_window i window_start window_end h =
    h.worker_id == i && (leb window_start h.recorded_at && leb h.recorded_at window_end)

-- The sum over the beats of the window, which their order does not change.
abbrev pub covered : ℕ → ℕ → ℕ → ℕ → List WorkerHeartbeat → ℕ
covered i timeout window_start window_end [] = 0
covered i timeout window_start window_end (h ∷ hs) =
    let rest = covered i timeout window_start window_end hs in
    if in_window i window_start window_end h
    then covered_by timeout window_start window_end h.recorded_at + rest
    else rest

abbrev pub covered_before : ℕ → ℕ → ℕ → Option ℕ → ℕ
covered_before timeout window_start window_end none = 0
covered_before timeout window_start window_end (some t) =
    covered_by timeout window_start window_end t

abbrev pub ratio_of : ℕ → ℕ
ratio_of microseconds = clamp_ratio (pos (round_half_even microseconds 864))

unfoldable pub calculate_uptime_ratio : ℕ → ℤ → ℕ → ℕ → Db → ℕ
calculate_uptime_ratio worker_id timeout_seconds window_start window_end db =
    if leb_ℤ timeout_seconds (pos 0)
    then 0
    else if leb window_end window_start
    then 0
    else (let timeout = pos_part timeout_seconds * second in
        ratio_of (
          covered_before timeout window_start window_end
            (previous_point worker_id window_start db.heartbeats)
          + covered worker_id timeout window_start window_end db.heartbeats))

-- `_clamp_ratio(value.quantize(…))`; more than 28 digits, an infinity and a NaN raise.
unfoldable pub quantized_ratio : Decimal → Option ℕ
quantized_ratio (fin a s) =
    let units = round_signed (fin_units a) (10 ^ s) in
    if leb (10 ^ 28) (pos_part units + neg_part units) then none else some (clamp_ratio units)
  where
    fin_units : ℤ → ℤ
    fin_units (pos n) = pos (n * unit)
    fin_units (negsuc n) = negsuc (suc n * unit - 1)
quantized_ratio (infinity up) = none
quantized_ratio (nan q) = none

-- `Decimal(str(raw))` of a number or a text; a `bool` is an `int`, and its text is no number.
unfoldable pub emission_reputation : Option Json → Option ℕ
emission_reputation none = some 50_000_000
emission_reputation (some (int z)) = quantized_ratio (fin z 0)
emission_reputation (some (float r)) = parse r >>= quantized_ratio
emission_reputation (some (str s)) = parse s >>= quantized_ratio
emission_reputation (some (bool b)) = none
emission_reputation (some null) = some 0
emission_reputation (some (arr xs)) = some 0
emission_reputation (some (obj d)) = some 0

abbrev pub reputation_of : Worker → Option ℕ
reputation_of w = emission_reputation (get "reputation" (specs_or_empty w.specs_json))

abbrev pub timeout_of : Worker → ℤ
timeout_of w = elim w.settings [ none ↦ pos 30 | some s ↦ s.heartbeat_timeout_seconds ]
