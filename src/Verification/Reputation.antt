-- ===== src/Verification/Reputation.antt =====
-- `_adjust_worker_reputation` of verification.py. `none` is an exception: the request fails, and
-- nothing of it is committed.
use open_mesh_ai.Prelude.{
  Bool, true, false, Option, none, some, String, ℤ, pos, negsuc, ◌+ℤ◌, leb_ℤ, if◌then◌else◌, ◌>>=◌,
}
use open_mesh_ai.Decimal.Order.{Decimal, fin}
use open_mesh_ai.Decimal.Parse.{parse}
use open_mesh_ai.Decimal.Context.{add, clamp_unit}
use open_mesh_ai.Json.{Json, null, bool, int, float, str, arr, obj, Fields, end, get, put}
use open_mesh_ai.Db.Enums.{banned}
use open_mesh_ai.Db.Models.{Worker}
use open_mesh_ai.Db.Session.{Db, update_worker}

abbrev pub verified_reputation_delta : Decimal
verified_reputation_delta = fin (pos 1) 2

abbrev pub rejected_reputation_delta : Decimal
rejected_reputation_delta = fin (negsuc 4) 2

abbrev pub specs_or_empty : Option Fields → Fields
specs_or_empty none = end
specs_or_empty (some d) = d

-- `Decimal(str(v if isinstance(v, (int, float)) else 0.5))`, where `v` is 0.5 if it is missing. A
-- `bool` is an `int`, and its text is no number.
unfoldable pub reputation_value : Option Json → Option Decimal
reputation_value (some (int z)) = some (fin z 0)
reputation_value (some (float r)) = parse r
reputation_value (some (bool b)) = none
reputation_value (some null) = some (fin (pos 5) 1)
reputation_value (some (str s)) = some (fin (pos 5) 1)
reputation_value (some (arr xs)) = some (fin (pos 5) 1)
reputation_value (some (obj d)) = some (fin (pos 5) 1)
reputation_value none = some (fin (pos 5) 1)

-- One more than the count so far, where that is an `int`.
unfoldable pub rejected_value : Option Json → ℤ
rejected_value none = pos 1
rejected_value (some (int z)) = z +ℤ pos 1
rejected_value (some (bool true)) = pos 2
rejected_value (some (bool false)) = pos 1
rejected_value (some null) = pos 1
rejected_value (some (float r)) = pos 1
rejected_value (some (str s)) = pos 1
rejected_value (some (arr xs)) = pos 1
rejected_value (some (obj d)) = pos 1

-- The row with its new specs; a rejected submission is counted, and from the threshold on it bans.
unfoldable pub row_after : Bool → ℤ → Fields → Worker → Worker
row_after false fraud_ban_threshold specs w = record w { specs_json = some specs }
row_after true fraud_ban_threshold specs w =
    let count = rejected_value (get "rejected_submissions" specs) in
    record w {
      specs_json = some (put "rejected_submissions" (int count) specs);
      status = if leb_ℤ fraud_ban_threshold count then banned else w.status;
    }

-- The new row of the worker. `float_text d` is `repr(float(d))`.
unfoldable pub adjusted : (Decimal → String) → Decimal → Bool → ℤ → Worker → Option Worker
adjusted float_text delta rejected fraud_ban_threshold w = do
  let specs = specs_or_empty w.specs_json
  current ← reputation_value (get "reputation" specs)
  updated ← clamp_unit (add current delta)
  some (
      row_after rejected fraud_ban_threshold (put "reputation" (float (float_text updated)) specs)
        w)

unfoldable pub adjust_worker_reputation :
    (Decimal → String) → Option Worker → Decimal → Bool → ℤ → Db → Option Db
adjust_worker_reputation float_text none delta rejected threshold db = some db
adjust_worker_reputation float_text (some w) delta rejected threshold db = do
  w' ← adjusted float_text delta rejected threshold w
  some (update_worker w.id (λ _. w') db)
