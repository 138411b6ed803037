-- ===== src/Emission/Paid.antt =====
-- `run_daily_emission` of emission.py: the books, the day's sum, and the cap.
use open_mesh_ai.Prelude.{
  ℕ, ◌+◌, ◌-◌, ◌≤◌, ◌<◌, ◌≡◌, refl, true, none, some, List, [], ◌∷◌, ℤ, pos, pos_part, ◌+ℤ◌, ◌-ℤ◌,
  leb, ltb_ℤ, ◌==◌, arith, int_laws, +ℤ_zero, Bool-cases, inl, inr, ap, sym, ◌∙◌, subst, some_inj,
  >>=-eq-some,
}
use open_mesh_ai.Db.Enums.{user}
use open_mesh_ai.Db.Session.{Db}
use open_mesh_ai.Finance.Accounts.{
  get_or_create_account, create_ledger_entry, sum_amounts, token_currency,
}
use open_mesh_ai.Finance.Balance.{
  IsBalanced, get_or_create_account-Extends, get_or_create_account-has, Extends-IsBalanced,
  create_ledger_entry-IsBalanced, sum_amounts-append, get_or_create_account-ledger,
}
use open_mesh_ai.Emission.Payouts.{
  DailyEmissionWorkerPayout, provisional_payouts, total_of, final_amount,
}
use open_mesh_ai.Emission.Run.{
  day, day_start, is_emission_since, emitted_today, get_daily_emission_status, DailyEmissionResult,
  nothing, pay_worker, pay_all, pay_provisional, run_daily_emission, should_run_time,
  emission_round,
}

pay_worker-IsBalanced :
    (now owner tokens : ℕ) (db : Db) → IsBalanced db → IsBalanced (pay_worker now owner tokens db)
unfolding pay_worker
pay_worker-IsBalanced now owner tokens db h =
    create_ledger_entry-IsBalanced now _ (pos tokens) "daily_emission" none none
      (get_or_create_account user owner token_currency db).1
      (get_or_create_account-has user owner token_currency db)
      (Extends-IsBalanced (get_or_create_account-Extends user owner token_currency db) h)

-- The day's sum grows by what is paid.
pay_worker-emitted :
    (now owner tokens start : ℕ) (db : Db)
    → start ≤ now
    → sum_amounts (is_emission_since start) (pay_worker now owner tokens db).ledger
      ≡ sum_amounts (is_emission_since start) db.ledger +ℤ pos tokens
unfolding pay_worker create_ledger_entry
pay_worker-emitted now owner tokens start db h =
    sum_amounts-append (is_emission_since start)
      (get_or_create_account user owner token_currency db).1.ledger _
    ∙ rw (get_or_create_account-ledger user owner token_currency db, since)
        (ap (λ (y : ℤ). sum_amounts (is_emission_since start) db.ledger +ℤ y)
          (+ℤ_zero (pos tokens)))
  where
    since : leb start now ≡ true
    since = ground arith

-- What holds of the payouts, made in turn.
record Paid (now : ℕ) (db : Db) (out : DailyEmissionResult × Db) : Type 0 where
  pub in_order : IsBalanced db → IsBalanced out.1
  pub summed :
      (start : ℕ)
      → start ≤ now
      → sum_amounts (is_emission_since start) out.1.ledger
        ≡ sum_amounts (is_emission_since start) db.ledger +ℤ pos out.0.emitted_tokens
  pub listed : total_of out.0.payouts ≡ out.0.emitted_tokens

Paid-nothing : (now : ℕ) (db : Db) → Paid now db (nothing, db)
Paid-nothing now db = record {
  in_order = λ h. h;
  summed = λ start h. sym (+ℤ_zero _);
  listed = refl;
}

pay_all-Paid :
    (now : ℕ) (scaled : ℕ → ℕ) (ps : List DailyEmissionWorkerPayout) (db : Db)
    → Paid now db (pay_all now scaled ps db)
unfolding pay_all
pay_all-Paid now scaled [] db = Paid-nothing now db
pay_all-Paid now scaled (p ∷ ps) db = elim (Bool-cases (scaled p.emission_tokens == 0)) [
  | inl zero_paid ↦ rw (zero_paid, pay_all) (pay_all-Paid now scaled ps db)
  | inr paid ↦
      let tokens = scaled p.emission_tokens in
      let db1 = pay_worker now p.worker_owner_id tokens db in
      let rest = pay_all-Paid now scaled ps db1 in
      rw (paid, pay_all)
        (record {
          in_order = λ h. rest.in_order (pay_worker-IsBalanced now p.worker_owner_id tokens db h);
          summed = λ start h.
              rw (rest.summed start h, pay_worker-emitted now p.worker_owner_id tokens start db h)
                (omega int_laws);
          listed = ap (λ (n : ℕ). tokens + n) rest.listed;
        })
]

pay_provisional-Paid :
    (now remaining_cap : ℕ) (ps : List DailyEmissionWorkerPayout) (db : Db)
    → Paid now db (pay_provisional now remaining_cap ps db)
pay_provisional-Paid now remaining_cap ps db = elim (Bool-cases (total_of ps == 0)) [
  | inl empty ↦ rw empty (Paid-nothing now db)
  | inr full ↦ rw full (pay_all-Paid now (final_amount remaining_cap (total_of ps)) ps db)
]

run_daily_emission-Paid :
    (cap_tokens base_tokens now : ℕ) (db : Db) (out : DailyEmissionResult × Db)
    → run_daily_emission cap_tokens base_tokens now db ≡ some out
    → Paid now db out
unfolding run_daily_emission
run_daily_emission-Paid cap_tokens base_tokens now db out e =
    let remaining_cap = pos_part (pos cap_tokens -ℤ emitted_today now db) in
    elim (Bool-cases (remaining_cap == 0)) [
      | inl used ↦
          subst (Paid now db) (some_inj (rw (used, run_daily_emission) at e)) (Paid-nothing now db)
      | inr left ↦
          let (ps, computes, e') =
            >>=-eq-some (provisional_payouts base_tokens (now - day) now db db.workers) _
              (rw (left, run_daily_emission) at e) in
          subst (Paid now db) (some_inj e') (pay_provisional-Paid now remaining_cap ps db)
    ]

-- An emission that does not raise keeps every balance equal to the sum of the account's ledger
-- entries, and reports what it emits: the sum of its payouts, by which the day's sum in the ledger
-- grows.
pub run_daily_emission-IsBalanced :
    (cap_tokens base_tokens now : ℕ) (db db' : Db) (out : DailyEmissionResult)
    → IsBalanced db
    → run_daily_emission cap_tokens base_tokens now db ≡ some (out, db')
    → IsBalanced db'
      × (total_of out.payouts ≡ out.emitted_tokens)
      × (emitted_today now db' ≡ emitted_today now db +ℤ pos out.emitted_tokens)
run_daily_emission-IsBalanced cap_tokens base_tokens now db db' out h e =
    let paid = run_daily_emission-Paid cap_tokens base_tokens now db (out, db') e in
    (paid.in_order h, paid.listed, paid.summed (day_start now) (omega arith))

-- Once a day: if the day's sum is zero and an emission gives something, a later round of the same day
-- changes nothing, whatever the settings then are.
pub emission_round_once :
    (cap_tokens base_tokens now later hour minute later_cap later_base : ℕ) (db db' : Db)
    (out : DailyEmissionResult)
    → emitted_today now db ≡ pos 0
    → run_daily_emission cap_tokens base_tokens now db ≡ some (out, db')
    → 0 < out.emitted_tokens
    → day_start later ≡ day_start now
    → emission_round hour minute later_cap later_base later db' ≡ db'
unfolding emission_round get_daily_emission_status
emission_round_once cap_tokens base_tokens now later hour minute later_cap later_base db db' out
      first e some_paid same_day =
    let paid = run_daily_emission-Paid cap_tokens base_tokens now db (out, db') e in
    let sum : emitted_today now db' ≡ pos out.emitted_tokens =
      paid.summed (day_start now) (omega arith) ∙ rw first (omega int_laws) in
    let today : emitted_today later db' ≡ pos out.emitted_tokens =
      ap (λ (t : ℕ). sum_amounts (is_emission_since t) db'.ledger) same_day ∙ sum in
    let done : ltb_ℤ (pos 0) (emitted_today later db') ≡ true = rw today (ground arith) in
    elim (Bool-cases (should_run_time hour minute later)) [
      | inl due ↦ rw (due, emission_round, done)
      | inr not_due ↦ rw (not_due, emission_round)
    ]

pay_all-whole :
    (now : ℕ) (scaled : ℕ → ℕ) (ps : List DailyEmissionWorkerPayout) (db : Db)
    → ((n : ℕ) → scaled n ≡ n)
    → (pay_all now scaled ps db).0.emitted_tokens ≡ total_of ps
unfolding pay_all
pay_all-whole now scaled [] db same = refl
pay_all-whole now scaled (p ∷ ps) db same = elim (Bool-cases (scaled p.emission_tokens == 0)) [
  | inl zero_paid ↦
      rw (zero_paid, pay_all)
        (ground (arith, pay_all-whole now scaled ps db same, same p.emission_tokens))
  | inr paid ↦
      let db1 = pay_worker now p.worker_owner_id (scaled p.emission_tokens) db in
      rw (paid, pay_all)
        (omega (arith, pay_all-whole now scaled ps db1 same, same p.emission_tokens))
]

-- Where the provisional payouts fit into what remains of the cap they are paid as they are, and what
-- is emitted stays within it.
pub pay_provisional-le :
    (now remaining_cap : ℕ) (ps : List DailyEmissionWorkerPayout) (db : Db)
    → total_of ps ≤ remaining_cap
    → ((pay_provisional now remaining_cap ps db).0.emitted_tokens ≡ total_of ps)
      × ((pay_provisional now remaining_cap ps db).0.emitted_tokens ≤ remaining_cap)
unfolding final_amount
pay_provisional-le now remaining_cap ps db h = elim (Bool-cases (total_of ps == 0)) [
  | inl empty ↦ rw empty (ground arith, omega arith)
  | inr full ↦
      let whole =
        pay_all-whole now (final_amount remaining_cap (total_of ps)) ps db (λ n. rw fits) in
      rw full (whole, omega (arith, whole))
]
  where
    fits : leb (total_of ps) remaining_cap ≡ true
    fits = ground arith
