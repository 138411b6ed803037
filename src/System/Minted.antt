-- ===== src/System/Minted.antt =====
-- What the ledger sums to without the entries of the daily emission of services/emission.py: the
-- accounting and the fee for a forwarded job leave it, and so does an emission.
use open_mesh_ai.Prelude.{
  ℕ, ◌-◌, ◌≡◌, refl, Bool, not, Option, some, [], ◌∷◌, List, String, ℤ, pos, pos_part, ◌+ℤ◌, ◌-ℤ◌,
  ◌==◌, if◌then◌else◌, str_eq, int_laws, +ℤ_zero, Bool-cases, Option-cases, inl, inr, ap, sym, ◌∙◌,
  some_inj, >>=-eq-some, neg_parts,
}
use open_mesh_ai.Db.Models.{LedgerEntry, Assignment, SubmissionResult}
use open_mesh_ai.Db.Enums.{system}
use open_mesh_ai.Db.Session.{Db}
use open_mesh_ai.Finance.Accounts.{
  get_or_create_account, create_ledger_entry, sum_amounts, record_interpool_fee_placeholder,
  pool_account_owner_id, token_currency,
}
use open_mesh_ai.Finance.Accounting.{Posting, settle, posting_of, apply_job_verification_accounting}
use open_mesh_ai.Finance.Balance.{sum_amounts-append, get_or_create_account-ledger}
use open_mesh_ai.Emission.Payouts.{
  DailyEmissionWorkerPayout, provisional_payouts, total_of, final_amount,
}
use open_mesh_ai.Emission.Run.{
  day, emitted_today, DailyEmissionResult, pay_worker, pay_all, pay_provisional, run_daily_emission,
}

abbrev pub is_other : LedgerEntry → Bool
is_other e = not (str_eq e.entry_type "daily_emission")

-- Without the emissions, the tokens that were ever posted.
abbrev pub made_elsewhere : Db → ℤ
made_elsewhere db = sum_amounts is_other db.ledger

made_elsewhere-create_ledger_entry :
    (now k : ℕ) (x : ℤ) (reason : String) (j a : Option ℕ) (db : Db)
    → made_elsewhere (create_ledger_entry now k x reason j a db)
      ≡ made_elsewhere db +ℤ (if not (str_eq reason "daily_emission") then x else pos 0)
unfolding create_ledger_entry
made_elsewhere-create_ledger_entry now k x reason j a db =
    sum_amounts-append is_other db.ledger _ ∙ ap (λ (y : ℤ). made_elsewhere db +ℤ y) (+ℤ_zero _)

settle-made_elsewhere :
    (now : ℕ) (a : Assignment) (p : Posting) (db : Db)
    → made_elsewhere (settle now a p db) ≡ made_elsewhere db
unfolding settle
settle-made_elsewhere now a p db =
    simp (made_elsewhere-create_ledger_entry, get_or_create_account-ledger)
      (omega (int_laws, neg_parts p.cost))

pub accounting-made_elsewhere :
    (now : ℕ) (a : Assignment) (r : SubmissionResult) (db : Db)
    → made_elsewhere (apply_job_verification_accounting now a r db) ≡ made_elsewhere db
unfolding apply_job_verification_accounting
accounting-made_elsewhere now a r db = elim (Option-cases (posting_of a r db)) [
  | inl returns ↦ rw (returns, apply_job_verification_accounting)
  | inr (p, posts) ↦
      rw (posts, apply_job_verification_accounting) (settle-made_elsewhere now a p db)
]

pub interpool_fee-made_elsewhere :
    (now : ℕ) (j : Option ℕ) (db : Db)
    → made_elsewhere (record_interpool_fee_placeholder now j db) ≡ made_elsewhere db
unfolding record_interpool_fee_placeholder
interpool_fee-made_elsewhere now j db =
    sum_amounts-append is_other
      (get_or_create_account system pool_account_owner_id token_currency db).1.ledger _
    ∙ ap
        (λ (y : ℤ).
          made_elsewhere (get_or_create_account system pool_account_owner_id token_currency db).1
          +ℤ y)
        (+ℤ_zero (pos 0))
    ∙ +ℤ_zero _
    ∙ ap (sum_amounts is_other)
        (get_or_create_account-ledger system pool_account_owner_id token_currency db)

pay_all-made_elsewhere :
    (now : ℕ) (scaled : ℕ → ℕ) (ps : List DailyEmissionWorkerPayout) (db : Db)
    → made_elsewhere (pay_all now scaled ps db).1 ≡ made_elsewhere db
unfolding pay_all pay_worker
pay_all-made_elsewhere now scaled [] db = refl
pay_all-made_elsewhere now scaled (p ∷ ps) db = elim (Bool-cases (scaled p.emission_tokens == 0)) [
  | inl zero_paid ↦ rw (zero_paid, pay_all) (pay_all-made_elsewhere now scaled ps db)
  | inr paid ↦
      rw (paid, pay_all)
        (pay_all-made_elsewhere now scaled ps
            (pay_worker now p.worker_owner_id (scaled p.emission_tokens) db)
          ∙ simp (made_elsewhere-create_ledger_entry, get_or_create_account-ledger, +ℤ_zero) refl)
]

pub run_daily_emission-made_elsewhere :
    (cap_tokens base_tokens now : ℕ) (db : Db) (out : DailyEmissionResult × Db)
    → run_daily_emission cap_tokens base_tokens now db ≡ some out
    → made_elsewhere out.1 ≡ made_elsewhere db
unfolding run_daily_emission
run_daily_emission-made_elsewhere cap_tokens base_tokens now db out e =
    elim (Bool-cases (pos_part (pos cap_tokens -ℤ emitted_today now db) == 0)) [
      | inl used ↦
          ap (λ (o : DailyEmissionResult × Db). made_elsewhere o.1)
            (sym (some_inj (rw (used, run_daily_emission) at e)))
      | inr left ↦
          let (ps, computes, e') =
            >>=-eq-some (provisional_payouts base_tokens (now - day) now db db.workers) _
              (rw (left, run_daily_emission) at e) in
          ap (λ (o : DailyEmissionResult × Db). made_elsewhere o.1) (sym (some_inj e')) ∙ paid ps
    ]
  where
    remaining_cap : ℕ
    remaining_cap = pos_part (pos cap_tokens -ℤ emitted_today now db)

    paid :
        (ps : List DailyEmissionWorkerPayout)
        → made_elsewhere (pay_provisional now remaining_cap ps db).1 ≡ made_elsewhere db
    paid ps = elim (Bool-cases (total_of ps == 0)) [
      | inl empty ↦ rw empty
      | inr full ↦
          rw full (pay_all-made_elsewhere now (final_amount remaining_cap (total_of ps)) ps db)
    ]
