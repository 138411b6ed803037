-- ===== src/Finance/Accounts.antt =====
-- Accounts and ledger entries: `_get_or_create_account`, `_create_ledger_entry`,
-- `record_interpool_fee_placeholder`, `get_finance_summary`.
use open_mesh_ai.Prelude.{
  ℕ, suc, Bool, not, ◌&&◌, Option, none, some, List, [], ◌∷◌, ◌++◌, String, ℤ, pos, ◌+ℤ◌, ◌==◌,
  if◌then◌else◌, str_eq, find_by, update_by, length,
}
use open_mesh_ai.Db.Enums.{OwnerType, system, owner_type_eq}
use open_mesh_ai.Db.Models.{Account, LedgerEntry}
use open_mesh_ai.Db.Session.{Db}

abbrev pub pool_account_owner_id : ℕ
pool_account_owner_id = 1

abbrev pub token_currency : String
token_currency = "TOK"

abbrev pub owned_by : OwnerType → ℕ → String → Account → Bool
owned_by t i currency a =
    owner_type_eq a.owner_type t && (a.owner_id == i && str_eq a.currency currency)

-- The account, and the session with it: an account that is not there is added and flushed, so later
-- queries see it.
unfoldable pub get_or_create_account : OwnerType → ℕ → String → Db → Account × Db
get_or_create_account t i currency db = elim (find_by (owned_by t i currency) db.accounts) [
  | some a ↦ (a, db)
  | none ↦ (
    fresh,
    record db { accounts = db.accounts ++ fresh ∷ []; next_account_id = suc db.next_account_id },
  )
]
  where
    fresh : Account
    fresh = record {
      id = db.next_account_id;
      owner_type = t;
      owner_id = i;
      currency = currency;
      balance = pos 0;
    }

abbrev pub add_balance : ℕ → ℤ → List Account → List Account
add_balance i amount = update_by (λ a. a.id == i) (λ a. record a { balance = a.balance +ℤ amount })

abbrev pub new_entry : ℕ → ℕ → Option ℕ → Option ℕ → ℤ → String → Db → LedgerEntry
new_entry now account_id job_id assignment_id amount entry_type db = record {
  id = db.next_entry_id;
  account_id = account_id;
  job_id = job_id;
  assignment_id = assignment_id;
  amount = amount;
  entry_type = entry_type;
  created_at = now;
}

abbrev pub add_entry : LedgerEntry → Db → Db
add_entry e db = record db { ledger = db.ledger ++ e ∷ []; next_entry_id = suc db.next_entry_id }

-- The balance moves on the loaded account, whose row is the one with its id.
unfoldable pub create_ledger_entry : ℕ → ℕ → ℤ → String → Option ℕ → Option ℕ → Db → Db
create_ledger_entry now account_id amount reason job_id assignment_id db =
    add_entry (new_entry now account_id job_id assignment_id amount reason db)
      (record db { accounts = add_balance account_id amount db.accounts })

unfoldable pub record_interpool_fee_placeholder : ℕ → Option ℕ → Db → Db
record_interpool_fee_placeholder now job_id db =
    let (pool_account, db') =
      get_or_create_account system pool_account_owner_id token_currency db in
    add_entry (new_entry now pool_account.id job_id none (pos 0) "interpool_fee" db') db'

pub record FinanceSummary : Type 0 where
  pub total_accounts : ℕ
  pub total_ledger_entries : ℕ
  pub total_volume_tokens : ℤ
  pub pool_balance_tokens : ℤ

-- The sum of the amounts whose entry passes the test.
abbrev pub sum_amounts : (LedgerEntry → Bool) → List LedgerEntry → ℤ
sum_amounts p [] = pos 0
sum_amounts p (e ∷ es) = (if p e then e.amount else pos 0) +ℤ sum_amounts p es

unfoldable pub get_finance_summary : Db → FinanceSummary
get_finance_summary db = record {
  total_accounts = length db.accounts;
  total_ledger_entries = length db.ledger;
  total_volume_tokens = sum_amounts (λ e. not (str_eq e.entry_type "job_charge")) db.ledger;
  pool_balance_tokens =
      elim (find_by (owned_by system pool_account_owner_id token_currency) db.accounts) [
        | some a ↦ a.balance
        | none ↦ pos 0
      ];
}
