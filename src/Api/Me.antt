-- ===== src/Api/Me.antt =====
-- api/me.py: what a user sees of its account and its ledger.
use open_mesh_ai.Prelude.{
  ℕ, ◌-◌, ◌*◌, ◌&&◌, Option, none, some, List, [], ◌∷◌, ◌++◌, String, ℤ, pos, ◌==◌, find_by,
  filter_by, length, take, drop,
}
use open_mesh_ai.Db.Enums.{Role, client, worker_owner, user, owner_type_eq}
use open_mesh_ai.Db.Models.{User, Account, LedgerEntry}
use open_mesh_ai.Db.Session.{Db}
use open_mesh_ai.Finance.Accounts.{owned_by, token_currency}

pub record MeResponse : Type 0 where
  pub user_id : ℕ
  pub role : Role
  pub client_id : Option ℕ
  pub worker_owner_id : Option ℕ
  pub account_id : Option ℕ
  pub balance : ℤ
  pub currency : String

abbrev pub account_id_of : Option Account → Option ℕ
account_id_of none = none
account_id_of (some a) = some a.id

abbrev pub balance_or_zero : Option Account → ℤ
balance_or_zero none = pos 0
balance_or_zero (some a) = a.balance

abbrev pub client_id_of : User → Option ℕ
client_id_of u = elim u.role [ client ↦ some u.id | worker_owner ↦ none ]

abbrev pub worker_owner_id_of : User → Option ℕ
worker_owner_id_of u = elim u.role [ client ↦ none | worker_owner ↦ some u.id ]

-- The account of the user in any currency.
unfoldable pub me : User → Db → MeResponse
me current_user db =
    let account =
      find_by (λ a. owner_type_eq a.owner_type user && a.owner_id == current_user.id) db.accounts in
    record {
      user_id = current_user.id;
      role = current_user.role;
      client_id = client_id_of current_user;
      worker_owner_id = worker_owner_id_of current_user;
      account_id = account_id_of account;
      balance = balance_or_zero account;
      currency = elim account [ none ↦ "USD" | some a ↦ a.currency ];
    }

pub record BalanceResponse : Type 0 where
  pub account_id : Option ℕ
  pub balance : ℤ
  pub currency : String

abbrev pub token_account : User → Db → Option Account
token_account u db = find_by (owned_by user u.id token_currency) db.accounts

unfoldable pub my_balance : User → Db → BalanceResponse
my_balance current_user db = record {
  account_id = account_id_of (token_account current_user db);
  balance = balance_or_zero (token_account current_user db);
  currency = token_currency;
}

pub record LedgerPage : Type 0 where
  pub page : ℕ
  pub page_size : ℕ
  pub total : ℕ
  pub items : List LedgerEntry

-- `ORDER BY id DESC`, of rows in the order of their ids.
abbrev pub newest_first : List LedgerEntry → List LedgerEntry
newest_first [] = []
newest_first (e ∷ es) = newest_first es ++ e ∷ []

abbrev pub entries_of : ℕ → Db → List LedgerEntry
entries_of i db = filter_by (λ e. e.account_id == i) db.ledger

-- Pages count from 1.
abbrev pub page_of : ℕ → ℕ → List LedgerEntry → List LedgerEntry
page_of page page_size es = take page_size (drop ((page - 1) * page_size) es)

unfoldable pub my_ledger : ℕ → ℕ → User → Db → LedgerPage
my_ledger page page_size current_user db = elim (token_account current_user db) [
  | none ↦ record { page = page; page_size = page_size; total = 0; items = [] }
  | some a ↦ record {
    page = page;
    page_size = page_size;
    total = length (entries_of a.id db);
    items = page_of page page_size (newest_first (entries_of a.id db));
  }
]
