-- ===== src/Verification/Ban.antt =====
-- What `_adjust_worker_reputation` of verification.py writes: a reputation from 0 to 1, a count of
-- rejected submissions, and a ban from the threshold on.
use open_mesh_ai.Prelude.{
  ℕ, ◌+◌, ◌≡◌, ◌⊎◌, inl, inr, refl, Bool, true, false, ◌&&◌, Option, none, some, List, [], ◌∷◌,
  String, ℤ, pos, ◌+ℤ◌, leb_ℤ, ltb, count_by, ap, sym, arith, ◌>>=◌, if◌then◌else◌, >>=-eq-some,
  some_inj, subst, ◌∙◌,
}
use open_mesh_ai.Decimal.Order.{Decimal}
use open_mesh_ai.Decimal.Context.{add, clamp_unit, IsUnit, clamp_unit-IsUnit}
use open_mesh_ai.Json.{Json, int, float, get, put, get-put}
use open_mesh_ai.Db.Enums.{WorkerStatus, banned}
use open_mesh_ai.Db.Models.{Worker}
use open_mesh_ai.Verification.Reputation.{
  adjusted, row_after, specs_or_empty, reputation_value, rejected_value,
}

abbrev pub spec : String → Worker → Option Json
spec key w = get key (specs_or_empty w.specs_json)

-- A worker's row after an adjustment with the new reputation `u`.
record Adjusted (float_text : Decimal → String) (rejected : Bool) (threshold : ℤ) (w w' : Worker)
    (u : Decimal) : Type 0 where
  in_unit : IsUnit u
  reputation : spec "reputation" w' ≡ some (float (float_text u))
  count : spec "rejected_submissions" w' ≡ (
      if rejected
      then some (int (rejected_value (spec "rejected_submissions" w)))
      else spec "rejected_submissions" w)
  status : w'.status ≡ (
      if rejected
      then (if leb_ℤ threshold (rejected_value (spec "rejected_submissions" w))
          then banned
          else w.status)
      else w.status)

row_after-Adjusted :
    (float_text : Decimal → String) (rejected : Bool) (threshold : ℤ) (w : Worker) (u : Decimal)
    → IsUnit u
    → Adjusted float_text rejected threshold w
        (row_after rejected threshold
          (put "reputation" (float (float_text u)) (specs_or_empty w.specs_json))
          w)
        u
unfolding row_after
row_after-Adjusted float_text false threshold w u unit = record {
  in_unit = unit;
  reputation = get-put "reputation" "reputation" _ _;
  count = get-put "reputation" "rejected_submissions" _ _;
  status = refl;
}
row_after-Adjusted float_text true threshold w u unit = record {
  in_unit = unit;
  reputation =
      get-put "rejected_submissions" "reputation" _ _ ∙ get-put "reputation" "reputation" _ _;
  count = simp get-put;
  status = simp get-put;
}

adjusted-Adjusted :
    (float_text : Decimal → String) (delta : Decimal) (rejected : Bool) (threshold : ℤ)
    (w w' : Worker)
    → adjusted float_text delta rejected threshold w ≡ some w'
    → (u : Decimal) × Adjusted float_text rejected threshold w w' u
unfolding adjusted
adjusted-Adjusted float_text delta rejected threshold w w' e =
    let (current, reads, e1) =
      >>=-eq-some (reputation_value (get "reputation" (specs_or_empty w.specs_json))) _ e in
    let (u, clamps, e2) = >>=-eq-some (clamp_unit (add current delta)) _ e1 in
    (
      u,
      subst (λ v. Adjusted float_text rejected threshold w v u) (some_inj e2)
          (row_after-Adjusted float_text rejected threshold w u (clamp_unit-IsUnit _ u clamps)),
    )

-- An adjustment that does not raise writes as the worker's reputation the `float` of a `Decimal` from
-- 0 to 1.
pub adjusted-reputation :
    (float_text : Decimal → String) (delta : Decimal) (rejected : Bool) (threshold : ℤ)
    (w w' : Worker)
    → adjusted float_text delta rejected threshold w ≡ some w'
    → (u : Decimal) × IsUnit u × (spec "reputation" w' ≡ some (float (float_text u)))
adjusted-reputation float_text delta rejected threshold w w' e =
    let (u, a) = adjusted-Adjusted float_text delta rejected threshold w w' e in
    (u, a.in_unit, a.reputation)

-- The number of rejected submissions that the specs of a worker hold: none yet is 0.
abbrev pub HasCount : ℕ → Worker → Type 0
HasCount n w =
    (spec "rejected_submissions" w ≡ some (int (pos n)))
    ⊎ ((spec "rejected_submissions" w ≡ none) × (n ≡ 0))

-- Adjustments in turn, each with its change and whether it is for a rejected submission.
unfoldable pub adjusted_all :
    (Decimal → String) → ℤ → List (Decimal × Bool) → Worker → Option Worker
adjusted_all float_text threshold [] w = some w
adjusted_all float_text threshold ((delta, rejected) ∷ rest) w = do
  w' ← adjusted float_text delta rejected threshold w
  adjusted_all float_text threshold rest w'

abbrev pub rejections : List (Decimal × Bool) → ℕ
rejections = count_by (λ (a : Decimal × Bool). a.1)

rejected_value-HasCount :
    (n : ℕ) (w : Worker)
    → HasCount n w
    → rejected_value (spec "rejected_submissions" w) ≡ pos (n + 1)
unfolding rejected_value ◌+ℤ◌
rejected_value-HasCount n w (inl counted) = rw counted (ground arith)
rejected_value-HasCount n w (inr (fresh, zero_yet)) = rw fresh (ground arith)

HasCount-kept :
    (n m : ℕ) (w w' : Worker)
    → m ≡ n
    → spec "rejected_submissions" w' ≡ spec "rejected_submissions" w
    → HasCount n w
    → HasCount m w'
HasCount-kept n m w w' e same (inl counted) =
    inl (same ∙ counted ∙ ap (λ (k : ℕ). some (int (pos k))) (sym e))
HasCount-kept n m w w' e same (inr (fresh, zero_yet)) = inr (same ∙ fresh, e ∙ zero_yet)

-- One adjustment: what it makes of the count and of the status.
adjusted-HasCount :
    (float_text : Decimal → String) (threshold : ℤ) (delta : Decimal) (rejected : Bool) (n : ℕ)
    (w w' : Worker)
    → HasCount n w
    → adjusted float_text delta rejected threshold w ≡ some w'
    → HasCount (n + (if rejected then 1 else 0)) w'
      × (w'.status ≡ (if rejected && leb_ℤ threshold (pos (n + 1)) then banned else w.status))
adjusted-HasCount float_text threshold delta false n w w' h e =
    let (u, a) = adjusted-Adjusted float_text delta false threshold w w' e in
    (HasCount-kept n (n + 0) w w' (omega arith) a.count h, a.status)
adjusted-HasCount float_text threshold delta true n w w' h e =
    let (u, a) = adjusted-Adjusted float_text delta true threshold w w' e in
    let one_more = rejected_value-HasCount n w h in
    (
      inl (a.count ∙ ap (λ (z : ℤ). some (int z)) one_more),
      a.status ∙ ap (λ (z : ℤ). if leb_ℤ threshold z then banned else w.status) one_more,
    )

-- After any adjustments that do not raise, the worker's count of rejected submissions has grown by the
-- rejections among them. If there was one and the count is now at or above the threshold, the worker is
-- banned, and else its status is what it was; an adjustment for a verified submission leaves both alone.
pub adjusted_all-ban :
    (float_text : Decimal → String) (threshold : ℤ) (history : List (Decimal × Bool)) (n : ℕ)
    (w w' : Worker)
    → HasCount n w
    → adjusted_all float_text threshold history w ≡ some w'
    → HasCount (n + rejections history) w'
      × (w'.status ≡ (
          if ltb 0 (rejections history) && leb_ℤ threshold (pos (n + rejections history))
          then banned
          else w.status))
unfolding adjusted_all
adjusted_all-ban float_text threshold [] n w w' h e =
    let same : w' ≡ w = sym (some_inj e) in
    (
      HasCount-kept n (n + 0) w w' (omega arith) (ap (spec "rejected_submissions") same) h,
      ap (λ (x : Worker). x.status) same,
    )
adjusted_all-ban float_text threshold ((delta, rejected) ∷ rest) n w w' h e =
    let (v, one, e') = >>=-eq-some (adjusted float_text delta rejected threshold w) _ e in
    let (counted, status) = adjusted-HasCount float_text threshold delta rejected n w v h one in
    let (counted', status') = adjusted_all-ban float_text threshold rest _ v w' counted e' in
    (
      HasCount-kept _ _ w' w' (omega arith) refl counted',
      by_kind rejected w.status v.status w'.status (rejections rest) status status',
    )
  where
    by_kind :
        (kind : Bool) (before between after : WorkerStatus) (r : ℕ)
        → between ≡ (if kind && leb_ℤ threshold (pos (n + 1)) then banned else before)
        → after ≡ (
            if ltb 0 r && leb_ℤ threshold (pos (n + (if kind then 1 else 0) + r))
            then banned
            else between)
        → after ≡ (
            if ltb 0 ((if kind then 1 else 0) + r)
              && leb_ℤ threshold (pos (n + ((if kind then 1 else 0) + r)))
            then banned
            else before)
    by_kind false before between after r one later = ground arith
    by_kind true before between after r one later = ground arith
