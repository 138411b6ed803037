-- ===== src/Finance/Idempotent.antt =====
-- A verified assignment is charged once, however often its accounting runs.
use open_mesh_ai.Prelude.{
  ℕ, ◌+◌, ◌≤◌, ◌≡◌, refl, Bool, true, false, Option, none, some, List, [], ◌∷◌, ◌==◌, if◌then◌else◌,
  arith, find_by, count_by, count_by-append, is_some, Option-cases, inl, inr, ◌∙◌, String, ℤ,
  str_eq, ◌&&◌,
}
use open_mesh_ai.Db.Models.{LedgerEntry, Assignment, SubmissionResult}
use open_mesh_ai.Db.Session.{Db}
use open_mesh_ai.Finance.Accounts.{create_ledger_entry}
use open_mesh_ai.Finance.Accounting.{
  Posting, posting_of, settle, is_charge_of, apply_job_verification_accounting,
}
use open_mesh_ai.Finance.Balance.{get_or_create_account-ledger}

is_some-find_by :
    (p : LedgerEntry → Bool) (es : List LedgerEntry)
    → 1 ≤ count_by p es
    → is_some (find_by p es) ≡ true
is_some-find_by p [] h = absurd (omega arith)
is_some-find_by p (e ∷ es) h = ground (arith, is_some-find_by p es)

count_by-absent :
    (p : LedgerEntry → Bool) (es : List LedgerEntry)
    → is_some (find_by p es) ≡ false
    → count_by p es ≡ 0
count_by-absent p [] h = refl
count_by-absent p (e ∷ es) h = ground (arith, count_by-absent p es)

count_by-create_ledger_entry :
    (i now k : ℕ) (x : ℤ) (r : String) (j : Option ℕ) (a : ℕ) (db : Db)
    → count_by (is_charge_of i) (create_ledger_entry now k x r j (some a) db).ledger
      ≡ count_by (is_charge_of i) db.ledger + (if a == i && str_eq r "job_charge" then 1 else 0)
unfolding create_ledger_entry
count_by-create_ledger_entry i now k x r j a db =
    count_by-append (is_charge_of i) db.ledger _ ∙ omega arith

-- Of the three entries one is a charge, and it is for this assignment.
settle-count :
    (i now : ℕ) (a : Assignment) (p : Posting) (db : Db)
    → count_by (is_charge_of i) (settle now a p db).ledger
      ≡ count_by (is_charge_of i) db.ledger + (if a.id == i then 1 else 0)
unfolding settle
settle-count i now a p db =
    simp (count_by-create_ledger_entry, get_or_create_account-ledger) (ground arith)

-- The charge is on the ledger after `settle`.
settle-charged :
    (now : ℕ) (a : Assignment) (p : Posting) (db : Db)
    → is_some (find_by (is_charge_of a.id) (settle now a p db).ledger) ≡ true
settle-charged now a p db =
    is_some-find_by (is_charge_of a.id) (settle now a p db).ledger
      (ground (arith, settle-count a.id now a p db))

-- Once the charge is there, the accounting returns early.
posting_of-charged :
    (a : Assignment) (r : SubmissionResult) (db : Db)
    → is_some (find_by (is_charge_of a.id) db.ledger) ≡ true
    → posting_of a r db ≡ none
unfolding posting_of
posting_of-charged a r db h = ground arith

-- What a posting finds: no charge for this assignment yet.
posting_of-uncharged :
    (a : Assignment) (r : SubmissionResult) (db : Db) (p : Posting)
    → posting_of a r db ≡ some p
    → is_some (find_by (is_charge_of a.id) db.ledger) ≡ false
unfolding posting_of
posting_of-uncharged a r db p h = ground arith

-- A second run for the same assignment, at any later time, changes nothing.
pub accounting_twice :
    (now later : ℕ) (a : Assignment) (r : SubmissionResult) (db : Db)
    → apply_job_verification_accounting later a r (apply_job_verification_accounting now a r db)
      ≡ apply_job_verification_accounting now a r db
unfolding apply_job_verification_accounting
accounting_twice now later a r db = elim (Option-cases (posting_of a r db)) [
  | inl returns ↦ simp (apply_job_verification_accounting, returns)
  | inr (p, posts) ↦ simp (
    apply_job_verification_accounting,
    posts,
    posting_of-charged a r (settle now a p db) (settle-charged now a p db),
  )
]

-- At most one charge stands for each assignment.
abbrev pub IsChargedOnce : Db → Type 0
IsChargedOnce db = (i : ℕ) → count_by (is_charge_of i) db.ledger ≤ 1

-- If no assignment is charged twice, the accounting of any result keeps it so.
pub accounting-IsChargedOnce :
    (now : ℕ) (a : Assignment) (r : SubmissionResult) (db : Db)
    → IsChargedOnce db
    → IsChargedOnce (apply_job_verification_accounting now a r db)
unfolding apply_job_verification_accounting
accounting-IsChargedOnce now a r db h i = elim (Option-cases (posting_of a r db)) [
  | inl returns ↦ rw (returns, apply_job_verification_accounting) (h i)
  | inr (p, posts) ↦
      rw (posts, apply_job_verification_accounting)
        (ground (
          arith,
          settle-count i now a p db,
          h i,
          count_by-absent (is_charge_of a.id) db.ledger (posting_of-uncharged a r db p posts),
        ))
]
