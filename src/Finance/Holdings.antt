-- ===== src/Finance/Holdings.antt =====
-- What finance.py promises, without its tables: each owner holds an amount of tokens, and a charge
-- moves amounts from the client to the pool and to the worker's owner.
use open_mesh_ai.Prelude.{
  ℕ, ◌&&◌, Option, none, some, ℤ, pos, neg, ◌+ℤ◌, ◌-ℤ◌, ◌==◌, if◌then◌else◌, find_by, List,
}
use open_mesh_ai.Db.Enums.{OwnerType, user, system, owner_type_eq}
use open_mesh_ai.Db.Models.{Account}
use open_mesh_ai.Db.Session.{Db}
use open_mesh_ai.Finance.Accounts.{owned_by, pool_account_owner_id, token_currency}
use open_mesh_ai.Finance.Accounting.{Posting}

abbrev pub Holdings : Type 0
Holdings = OwnerType → ℕ → ℤ

abbrev pub credit : OwnerType → ℕ → ℤ → Holdings → Holdings
credit t i x h = λ u j. if owner_type_eq u t && j == i then h u j +ℤ x else h u j

-- One owner may stand in several of the three places.
unfoldable pub charge : Posting → Holdings → Holdings
charge p h =
    credit user p.worker_owner_id (p.cost -ℤ p.pool_fee)
      (credit system pool_account_owner_id p.pool_fee (credit user p.client_id (neg p.cost) h))

abbrev pub charge_if : Option Posting → Holdings → Holdings
charge_if none h = h
charge_if (some p) h = charge p h

abbrev pub held : Option Account → ℤ
held none = pos 0
held (some a) = a.balance

abbrev pub account_of : OwnerType → ℕ → List Account → Option Account
account_of t i = find_by (owned_by t i token_currency)

-- The abstract view of the tables: an owner without an account holds nothing.
abbrev pub holdings : Db → Holdings
holdings db = λ t i. held (account_of t i db.accounts)
