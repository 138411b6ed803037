-- ===== src/Finance/Refined.antt =====
-- The accounting of finance.py against its promise in Finance/Holdings.antt: on the account table, a
-- job's accounting is a charge of its client.
use open_mesh_ai.Prelude.{
  ℕ, ◌≡◌, refl, Option, String, ℤ, neg, ◌-ℤ◌, Option-cases, inl, inr, ◌∙◌, fun_ext,
}
use open_mesh_ai.Db.Enums.{OwnerType, user, system}
use open_mesh_ai.Db.Models.{Assignment, SubmissionResult}
use open_mesh_ai.Db.Session.{Db}
use open_mesh_ai.Finance.Accounts.{
  get_or_create_account, create_ledger_entry, pool_account_owner_id, token_currency,
}
use open_mesh_ai.Finance.Accounting.{Posting, posting_of, settle, apply_job_verification_accounting}
use open_mesh_ai.Finance.Holdings.{Holdings, credit, charge, charge_if, holdings}
use open_mesh_ai.Finance.Owners.{
  AreDistinctAccounts, Owns, create_ledger_entry-holdings, get_or_create_account-holdings,
  get_or_create_account-AreDistinctAccounts, get_or_create_account-Owns, get_or_create_account-kept,
  create_ledger_entry-AreDistinctAccounts, create_ledger_entry-kept,
}

settle-AreDistinctAccounts :
    (now : ℕ) (a : Assignment) (p : Posting) (db : Db)
    → AreDistinctAccounts db
    → AreDistinctAccounts (settle now a p db)
unfolding settle
settle-AreDistinctAccounts now a p db h = create_ledger_entry-AreDistinctAccounts _ _ _ _ _ _ _ (
    create_ledger_entry-AreDistinctAccounts _ _ _ _ _ _ _ (
      create_ledger_entry-AreDistinctAccounts _ _ _ _ _ _ _ (
        get_or_create_account-AreDistinctAccounts _ _ _ _ (
          get_or_create_account-AreDistinctAccounts _ _ _ _
            (get_or_create_account-AreDistinctAccounts _ _ _ db h)))))

credit-ap :
    (t : OwnerType) (i : ℕ) (x : ℤ) (f g : Holdings) (u : OwnerType) (j : ℕ)
    → f u j ≡ g u j
    → credit t i x f u j ≡ credit t i x g u j
credit-ap t i x f g u j h = rw h

-- A posting after others: a credit of what they left.
posting-holdings :
    (now k : ℕ) (x : ℤ) (r : String) (jo ao : Option ℕ) (t u : OwnerType) (i j : ℕ) (db : Db)
    (f : Holdings)
    → AreDistinctAccounts db
    → Owns t i k db
    → holdings db u j ≡ f u j
    → holdings (create_ledger_entry now k x r jo ao db) u j ≡ credit t i x f u j
posting-holdings now k x r jo ao t u i j db f h own before =
    create_ledger_entry-holdings now k x r jo ao t u i j db h own
    ∙ credit-ap t i x (holdings db) f u j before

entries-charge :
    (now client pool owner : ℕ) (jo ao : Option ℕ) (p : Posting) (f : Holdings) (db : Db)
    (u : OwnerType) (j : ℕ)
    → AreDistinctAccounts db
    → Owns user p.client_id client db
    → Owns system pool_account_owner_id pool db
    → Owns user p.worker_owner_id owner db
    → holdings db u j ≡ f u j
    → let db4 = create_ledger_entry now client (neg p.cost) "job_charge" jo ao db in
      let db5 = create_ledger_entry now pool p.pool_fee "pool_fee" jo ao db4 in
      holdings (create_ledger_entry now owner (p.cost -ℤ p.pool_fee) "worker_reward" jo ao db5) u j
      ≡ charge p f u j
unfolding charge
entries-charge now client pool owner jo ao p f db u j h c s w before =
    let db4 = create_ledger_entry now client (neg p.cost) "job_charge" jo ao db in
    let db5 = create_ledger_entry now pool p.pool_fee "pool_fee" jo ao db4 in
    let h4 : AreDistinctAccounts db4 = create_ledger_entry-AreDistinctAccounts _ _ _ _ _ _ db h in
    let h5 : AreDistinctAccounts db5 = create_ledger_entry-AreDistinctAccounts _ _ _ _ _ _ db4 h4 in
    let s4 : Owns system pool_account_owner_id pool db4 =
      create_ledger_entry-kept _ _ _ _ _ _ _ _ _ db h s in
    let w4 : Owns user p.worker_owner_id owner db4 =
      create_ledger_entry-kept _ _ _ _ _ _ _ _ _ db h w in
    let w5 : Owns user p.worker_owner_id owner db5 =
      create_ledger_entry-kept _ _ _ _ _ _ _ _ _ db4 h4 w4 in
    let f1 = credit user p.client_id (neg p.cost) f in
    let f2 = credit system pool_account_owner_id p.pool_fee f1 in
    posting-holdings _ _ _ _ _ _ user u _ j db5 f2 h5 w5 (
      posting-holdings _ _ _ _ _ _ system u _ j db4 f1 h4 s4
        (posting-holdings _ _ _ _ _ _ user u _ j db f h c before))

settle-charge :
    (now : ℕ) (a : Assignment) (p : Posting) (db : Db) (u : OwnerType) (j : ℕ)
    → AreDistinctAccounts db
    → holdings (settle now a p db) u j ≡ charge p (holdings db) u j
unfolding settle
settle-charge now a p db u j h =
    let (client, db1) = get_or_create_account user p.client_id token_currency db in
    let (pool, db2) = get_or_create_account system pool_account_owner_id token_currency db1 in
    let h1 : AreDistinctAccounts db1 = get_or_create_account-AreDistinctAccounts _ _ _ db h in
    let h2 : AreDistinctAccounts db2 = get_or_create_account-AreDistinctAccounts _ _ _ db1 h1 in
    entries-charge _ _ _ _ _ _ p (holdings db) _ u j
      (get_or_create_account-AreDistinctAccounts _ _ _ db2 h2)
      (get_or_create_account-kept _ _ _ _ _ _ db2 (
        get_or_create_account-kept _ _ _ _ _ _ db1
          (get_or_create_account-Owns user p.client_id db)))
      (get_or_create_account-kept _ _ _ _ _ _ db2
        (get_or_create_account-Owns system pool_account_owner_id db1))
      (get_or_create_account-Owns user p.worker_owner_id db2)
      (get_or_create_account-holdings user u _ j _ db2
        ∙ get_or_create_account-holdings system u _ j _ db1
        ∙ get_or_create_account-holdings user u _ j _ db)

-- Where the accounts have their own ids, below the next one, a job's accounting does to the accounts
-- what the charge that it decides on does to the owners' holdings, and nothing where it decides on none;
-- the accounts keep their own ids.
pub accounting_refines_charge :
    (now : ℕ) (a : Assignment) (r : SubmissionResult) (db : Db)
    → AreDistinctAccounts db
    → let db' = apply_job_verification_accounting now a r db in
      (holdings db' ≡ charge_if (posting_of a r db) (holdings db)) × AreDistinctAccounts db'
unfolding apply_job_verification_accounting
accounting_refines_charge now a r db h = elim (Option-cases (posting_of a r db)) [
  | inl returns ↦ rw (returns, apply_job_verification_accounting) (refl, h)
  | inr (p, posts) ↦
      rw (posts, apply_job_verification_accounting)
        (
          fun_ext (λ u. fun_ext (λ j. settle-charge now a p db u j h)),
          settle-AreDistinctAccounts now a p db h,
        )
]
