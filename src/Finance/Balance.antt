-- ===== src/Finance/Balance.antt =====
-- The books of finance.py: every balance is the sum of its ledger entries, and a charge moves tokens
-- without making or losing any.
use open_mesh_ai.Prelude.{
  ℕ, ◌≡◌, refl, Bool, true, false, Option, some, List, [], ◌∷◌, ◌++◌, String, ℤ, pos, ◌+ℤ◌, ◌==◌,
  if◌then◌else◌, arith, int_laws, neg_parts, find_by, Option-cases, inl, inr, +ℤ_zero, +ℤ_assoc,
  sym, ◌∙◌, ap,
}
use open_mesh_ai.Db.Enums.{OwnerType, user, system}
use open_mesh_ai.Db.Models.{Account, LedgerEntry, Assignment, SubmissionResult}
use open_mesh_ai.Db.Session.{Db}
use open_mesh_ai.Finance.Accounts.{
  get_or_create_account, create_ledger_entry, add_balance, new_entry, owned_by, sum_amounts,
  record_interpool_fee_placeholder, pool_account_owner_id, token_currency,
}
use open_mesh_ai.Finance.Accounting.{Posting, posting_of, settle, apply_job_verification_accounting}

-- The balance of the account with this id, and 0 where there is none.
abbrev pub balance_of : ℕ → List Account → ℤ
balance_of i [] = pos 0
balance_of i (a ∷ rows) = if a.id == i then a.balance else balance_of i rows

abbrev pub has_account : ℕ → List Account → Bool
has_account i [] = false
has_account i (a ∷ rows) = if a.id == i then true else has_account i rows

-- What the ledger says that an account holds, and all that was ever posted.
abbrev pub posted : ℕ → List LedgerEntry → ℤ
posted i = sum_amounts (λ e. e.account_id == i)

abbrev pub total_posted : List LedgerEntry → ℤ
total_posted = sum_amounts (λ _. true)

abbrev pub IsBalanced : Db → Type 0
IsBalanced db = (i : ℕ) → balance_of i db.accounts ≡ posted i db.ledger

pub sum_amounts-append :
    (p : LedgerEntry → Bool) (es fs : List LedgerEntry)
    → sum_amounts p (es ++ fs) ≡ sum_amounts p es +ℤ sum_amounts p fs
sum_amounts-append p [] fs = omega int_laws
sum_amounts-append p (e ∷ es) fs = rw (sum_amounts-append p es fs) (sym (+ℤ_assoc _ _ _))

-- A new account at the end, with nothing on it, changes no balance.
pub balance_of-append :
    (i : ℕ) (rows : List Account) (a : Account)
    → a.balance ≡ pos 0
    → balance_of i (rows ++ a ∷ []) ≡ balance_of i rows
balance_of-append i [] a h = ground arith
balance_of-append i (b ∷ rows) a h = ground (arith, balance_of-append i rows a h)

has_account-append :
    (i : ℕ) (rows : List Account) (a : Account)
    → has_account i rows ≡ true
    → has_account i (rows ++ a ∷ []) ≡ true
has_account-append i [] a h = cc
has_account-append i (b ∷ rows) a h = ground (arith, has_account-append i rows a)

has_account-last : (rows : List Account) (a : Account) → has_account a.id (rows ++ a ∷ []) ≡ true
has_account-last [] a = ground arith
has_account-last (b ∷ rows) a = ground (arith, has_account-last rows a)

has_account-find :
    (p : Account → Bool) (rows : List Account) (a : Account)
    → find_by p rows ≡ some a
    → has_account a.id rows ≡ true
has_account-find p [] a h = cc
has_account-find p (b ∷ rows) a h = ground (arith, has_account-find p rows a)

balance_of-add_balance :
    (i j : ℕ) (x : ℤ) (rows : List Account)
    → has_account j rows ≡ true
    → balance_of i (add_balance j x rows)
      ≡ (if j == i then balance_of i rows +ℤ x else balance_of i rows)
balance_of-add_balance i j x [] h = cc
balance_of-add_balance i j x (a ∷ rows) h = ground (arith, balance_of-add_balance i j x rows)

has_account-add_balance :
    (i j : ℕ) (x : ℤ) (rows : List Account)
    → has_account i (add_balance j x rows) ≡ has_account i rows
has_account-add_balance i j x [] = refl
has_account-add_balance i j x (a ∷ rows) = ground (arith, has_account-add_balance i j x rows)

-- What a call leaves of the books of `db`: the balances and the ledger stand, and the accounts that
-- were there still are.
pub record Extends (db db' : Db) : Type 0 where
  pub balances : (i : ℕ) → balance_of i db'.accounts ≡ balance_of i db.accounts
  pub entries : db'.ledger ≡ db.ledger
  pub kept : (i : ℕ) → has_account i db.accounts ≡ true → has_account i db'.accounts ≡ true

pub get_or_create_account-Extends :
    (t : OwnerType) (o : ℕ) (c : String) (db : Db) → Extends db (get_or_create_account t o c db).1
unfolding get_or_create_account
get_or_create_account-Extends t o c db =
    elim (Option-cases (find_by (owned_by t o c) db.accounts)) [
      | inl new ↦
          rw (new, get_or_create_account)
            (record {
              balances = λ i. balance_of-append i db.accounts _ refl;
              entries = refl;
              kept = λ i. has_account-append i db.accounts _;
            })
      | inr (a, old) ↦
          rw (old, get_or_create_account)
            (record { balances = λ i. refl; entries = refl; kept = λ i h. h })
    ]

pub get_or_create_account-has :
    (t : OwnerType) (o : ℕ) (c : String) (db : Db)
    → let (a, db') = get_or_create_account t o c db in has_account a.id db'.accounts ≡ true
unfolding get_or_create_account
get_or_create_account-has t o c db = elim (Option-cases (find_by (owned_by t o c) db.accounts)) [
  | inl new ↦ rw (new, get_or_create_account) (has_account-last db.accounts _)
  | inr (a, old) ↦ rw (old, get_or_create_account) (has_account-find _ db.accounts a old)
]

pub Extends-IsBalanced : {db db' : Db} → Extends db db' → IsBalanced db → IsBalanced db'
Extends-IsBalanced {db} {db'} e h i = e.balances i ∙ h i ∙ ap (posted i) (sym e.entries)

pub create_ledger_entry-IsBalanced :
    (now i : ℕ) (x : ℤ) (r : String) (j a : Option ℕ) (db : Db)
    → has_account i db.accounts ≡ true
    → IsBalanced db
    → IsBalanced (create_ledger_entry now i x r j a db)
unfolding create_ledger_entry
create_ledger_entry-IsBalanced now i x r j a db k h n =
    balance_of-add_balance n i x db.accounts k
    ∙ ground (
      arith,
      h n,
      +ℤ_zero x,
      +ℤ_zero (pos 0),
      +ℤ_zero (posted n db.ledger),
      sum_amounts-append (λ (e : LedgerEntry). e.account_id == n) db.ledger
          (new_entry now i j a x r db ∷ []),
    )

create_ledger_entry-has :
    (now i n : ℕ) (x : ℤ) (r : String) (j a : Option ℕ) (db : Db)
    → has_account n (create_ledger_entry now i x r j a db).accounts ≡ has_account n db.accounts
unfolding create_ledger_entry
create_ledger_entry-has now i n x r j a db = has_account-add_balance n i x db.accounts

total_posted-create_ledger_entry :
    (now i : ℕ) (x : ℤ) (r : String) (j a : Option ℕ) (db : Db)
    → total_posted (create_ledger_entry now i x r j a db).ledger ≡ total_posted db.ledger +ℤ x
unfolding create_ledger_entry
total_posted-create_ledger_entry now i x r j a db =
    sum_amounts-append (λ _. true) db.ledger _ ∙ ap (λ y. total_posted db.ledger +ℤ y) (+ℤ_zero x)

pub get_or_create_account-ledger :
    (t : OwnerType) (o : ℕ) (c : String) (db : Db)
    → (get_or_create_account t o c db).1.ledger ≡ db.ledger
get_or_create_account-ledger t o c db = (get_or_create_account-Extends t o c db).entries

settle-IsBalanced :
    (now : ℕ) (a : Assignment) (p : Posting) (db : Db)
    → IsBalanced db
    → IsBalanced (settle now a p db)
unfolding settle
settle-IsBalanced now a p db h =
    let (client, db1) = get_or_create_account user p.client_id token_currency db in
    let (pool, db2) = get_or_create_account system pool_account_owner_id token_currency db1 in
    let (owner, db3) = get_or_create_account user p.worker_owner_id token_currency db2 in
    let x1 = get_or_create_account-Extends user p.client_id token_currency db in
    let x2 = get_or_create_account-Extends system pool_account_owner_id token_currency db1 in
    let x3 = get_or_create_account-Extends user p.worker_owner_id token_currency db2 in
    let h3 : IsBalanced db3 =
      Extends-IsBalanced x3 (Extends-IsBalanced x2 (Extends-IsBalanced x1 h)) in
    let k1 =
      x3.kept client.id
        (x2.kept client.id (get_or_create_account-has user p.client_id token_currency db)) in
    let k2 =
      x3.kept pool.id (get_or_create_account-has system pool_account_owner_id token_currency db1) in
    let k3 = get_or_create_account-has user p.worker_owner_id token_currency db2 in
    create_ledger_entry-IsBalanced _ _ _ _ _ _ _
      (create_ledger_entry-has _ _ _ _ _ _ _ _ ∙ create_ledger_entry-has _ _ _ _ _ _ _ _ ∙ k3)
      (create_ledger_entry-IsBalanced _ _ _ _ _ _ _ (create_ledger_entry-has _ _ _ _ _ _ _ _ ∙ k2)
        (create_ledger_entry-IsBalanced _ _ _ _ _ _ _ k1 h3))

settle-total_posted :
    (now : ℕ) (a : Assignment) (p : Posting) (db : Db)
    → total_posted (settle now a p db).ledger ≡ total_posted db.ledger
unfolding settle
settle-total_posted now a p db =
    simp (total_posted-create_ledger_entry, get_or_create_account-ledger)
      (omega (int_laws, neg_parts p.cost))

-- If every balance is the sum of the account's ledger entries, it still is after a job's accounting,
-- on every path, also where payer, pool and worker's owner share accounts.
pub accounting-IsBalanced :
    (now : ℕ) (a : Assignment) (r : SubmissionResult) (db : Db)
    → IsBalanced db
    → IsBalanced (apply_job_verification_accounting now a r db)
unfolding apply_job_verification_accounting
accounting-IsBalanced now a r db h = elim (Option-cases (posting_of a r db)) [
  | inl returns ↦ rw (returns, apply_job_verification_accounting) h
  | inr (p, posts) ↦ rw (posts, apply_job_verification_accounting) (settle-IsBalanced now a p db h)
]

-- A job's accounting posts amounts that cancel: the sum over the whole ledger stays as it was.
pub accounting-total_posted :
    (now : ℕ) (a : Assignment) (r : SubmissionResult) (db : Db)
    → total_posted (apply_job_verification_accounting now a r db).ledger ≡ total_posted db.ledger
unfolding apply_job_verification_accounting
accounting-total_posted now a r db = elim (Option-cases (posting_of a r db)) [
  | inl returns ↦ rw (returns, apply_job_verification_accounting)
  | inr (p, posts) ↦ rw (posts, apply_job_verification_accounting) (settle-total_posted now a p db)
]

-- The entry for a forwarded or relayed job carries no tokens: balances and ledger still agree.
pub interpool_fee-IsBalanced :
    (now : ℕ) (j : Option ℕ) (db : Db)
    → IsBalanced db
    → IsBalanced (record_interpool_fee_placeholder now j db)
unfolding record_interpool_fee_placeholder
interpool_fee-IsBalanced now j db h i =
    let (pool, db1) = get_or_create_account system pool_account_owner_id token_currency db in
    let h1 =
      Extends-IsBalanced
        (get_or_create_account-Extends system pool_account_owner_id token_currency db) h i in
    h1
    ∙ sym (
        sum_amounts-append (λ e. e.account_id == i) db1.ledger _
        ∙ ground (arith, +ℤ_zero (pos 0), +ℤ_zero (posted i db1.ledger)))
