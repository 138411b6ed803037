-- ===== src/System/Appended.antt =====
-- The ledger of services/finance.py is only added to: an accounting, the fee for a forwarded job and
-- an emission put their entries after the ones that are there.
use open_mesh_ai.Prelude.{
  ℕ, ◌≡◌, refl, Option, some, [], ◌∷◌, ◌++◌, append_assoc, List, String, ℤ, pos, pos_part, ◌-ℤ◌,
  ◌-◌, ◌==◌, Bool-cases, Option-cases, inl, inr, ap, ◌∙◌, subst, some_inj, >>=-eq-some,
}
use open_mesh_ai.Db.Models.{LedgerEntry, Assignment, SubmissionResult}
use open_mesh_ai.Db.Enums.{OwnerType, user, system}
use open_mesh_ai.Db.Session.{Db}
use open_mesh_ai.Finance.Accounts.{
  get_or_create_account, create_ledger_entry, record_interpool_fee_placeholder,
  pool_account_owner_id, token_currency,
}
use open_mesh_ai.Finance.Accounting.{Posting, settle, posting_of, apply_job_verification_accounting}
use open_mesh_ai.Finance.Balance.{get_or_create_account-ledger}
use open_mesh_ai.Emission.Payouts.{
  DailyEmissionWorkerPayout, provisional_payouts, total_of, final_amount,
}
use open_mesh_ai.Emission.Run.{
  day, emitted_today, DailyEmissionResult, pay_worker, pay_all, pay_provisional, run_daily_emission,
}

-- The entries of `first`, and others after them.
abbrev pub Appends : List LedgerEntry → Db → Type 0
Appends first db = (new : List LedgerEntry) × (db.ledger ≡ first ++ new)

module _ (first : List LedgerEntry) where
  more :
      (db db' : Db) (added : List LedgerEntry)
      → db'.ledger ≡ db.ledger ++ added
      → Appends first db
      → Appends first db'
  more db db' added e (new, h) =
      (new ++ added, e ∙ ap (λ (l : List LedgerEntry). l ++ added) h ∙ append_assoc first new added)

  account-Appends :
      (t : OwnerType) (o : ℕ) (c : String) (db : Db)
      → Appends first db
      → Appends first (get_or_create_account t o c db).1
  account-Appends t o c db (new, h) = (new, get_or_create_account-ledger t o c db ∙ h)

  entry-Appends :
      (now i : ℕ) (x : ℤ) (r : String) (j a : Option ℕ) (db : Db)
      → Appends first db
      → Appends first (create_ledger_entry now i x r j a db)
  unfolding create_ledger_entry
  entry-Appends now i x r j a db = more db (create_ledger_entry now i x r j a db) _ refl

  settle-Appends :
      (now : ℕ) (a : Assignment) (p : Posting) (db : Db)
      → Appends first db
      → Appends first (settle now a p db)
  unfolding settle
  settle-Appends now a p db h = entry-Appends _ _ _ _ _ _ _ (
      entry-Appends _ _ _ _ _ _ _ (
        entry-Appends _ _ _ _ _ _ _ (
          account-Appends user p.worker_owner_id token_currency _ (
            account-Appends system pool_account_owner_id token_currency _
              (account-Appends user p.client_id token_currency db h)))))

  pub accounting-Appends :
      (now : ℕ) (a : Assignment) (r : SubmissionResult) (db : Db)
      → Appends first db
      → Appends first (apply_job_verification_accounting now a r db)
  unfolding apply_job_verification_accounting
  accounting-Appends now a r db h = elim (Option-cases (posting_of a r db)) [
    | inl returns ↦ rw (returns, apply_job_verification_accounting) h
    | inr (p, posts) ↦ rw (posts, apply_job_verification_accounting) (settle-Appends now a p db h)
  ]

  pub interpool_fee-Appends :
      (now : ℕ) (j : Option ℕ) (db : Db)
      → Appends first db
      → Appends first (record_interpool_fee_placeholder now j db)
  unfolding record_interpool_fee_placeholder
  interpool_fee-Appends now j db h =
      more (get_or_create_account system pool_account_owner_id token_currency db).1
        (record_interpool_fee_placeholder now j db) _ refl
        (account-Appends system pool_account_owner_id token_currency db h)

  pay_all-Appends :
      (now : ℕ) (scaled : ℕ → ℕ) (ps : List DailyEmissionWorkerPayout) (db : Db)
      → Appends first db
      → Appends first (pay_all now scaled ps db).1
  unfolding pay_all pay_worker
  pay_all-Appends now scaled [] db h = h
  pay_all-Appends now scaled (p ∷ ps) db h = elim (Bool-cases (scaled p.emission_tokens == 0)) [
    | inl zero_paid ↦ rw (zero_paid, pay_all) (pay_all-Appends now scaled ps db h)
    | inr paid ↦
        rw (paid, pay_all)
          (pay_all-Appends now scaled ps
            (pay_worker now p.worker_owner_id (scaled p.emission_tokens) db)
            (entry-Appends _ _ _ _ _ _ _
              (account-Appends user p.worker_owner_id token_currency db h)))
  ]

  pub run_daily_emission-Appends :
      (cap_tokens base_tokens now : ℕ) (db : Db) (out : DailyEmissionResult × Db)
      → run_daily_emission cap_tokens base_tokens now db ≡ some out
      → Appends first db
      → Appends first out.1
  unfolding run_daily_emission
  run_daily_emission-Appends cap_tokens base_tokens now db out e h =
      elim (Bool-cases (pos_part (pos cap_tokens -ℤ emitted_today now db) == 0)) [
        | inl used ↦
            subst (λ (o : DailyEmissionResult × Db). Appends first o.1)
              (some_inj (rw (used, run_daily_emission) at e)) h
        | inr left ↦
            let (ps, computes, e') =
              >>=-eq-some (provisional_payouts base_tokens (now - day) now db db.workers) _
                (rw (left, run_daily_emission) at e) in
            subst (λ (o : DailyEmissionResult × Db). Appends first o.1) (some_inj e') (paid ps)
      ]
    where
      remaining_cap : ℕ
      remaining_cap = pos_part (pos cap_tokens -ℤ emitted_today now db)

      paid :
          (ps : List DailyEmissionWorkerPayout)
          → Appends first (pay_provisional now remaining_cap ps db).1
      paid ps = elim (Bool-cases (total_of ps == 0)) [
        | inl empty ↦ rw empty h
        | inr full ↦
            rw full (pay_all-Appends now (final_amount remaining_cap (total_of ps)) ps db h)
      ]
