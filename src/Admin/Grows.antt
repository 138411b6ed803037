-- ===== src/Admin/Grows.antt =====
-- The leaderboard of api/admin.py after a job's accounting.
use open_mesh_ai.Prelude.{
  ℕ, ◌≡◌, ◌≢◌, refl, ◌&&◌, Option, none, some, List, [], ◌∷◌, String, ℤ, pos, ◌+ℤ◌, ◌-ℤ◌, ◌==◌,
  ==_iff, str_eq, if◌then◌else◌, int_laws, +ℤ_zero, All, All-In, In, inl, inr, ap, sym, ◌∙◌, subst,
  Bool-cases, find_by, Option-cases,
}
use open_mesh_ai.Db.Models.{Assignment, LedgerEntry, SubmissionResult}
use open_mesh_ai.Db.Session.{Db}
use open_mesh_ai.Db.Enums.{OwnerType}
use open_mesh_ai.Finance.Accounts.{
  create_ledger_entry, get_or_create_account, owned_by, sum_amounts,
}
use open_mesh_ai.Finance.Accounting.{Posting, posting_of, settle, apply_job_verification_accounting}
use open_mesh_ai.Finance.Balance.{sum_amounts-append, get_or_create_account-ledger}
use open_mesh_ai.Api.Jobs.{is_given_to}
use open_mesh_ai.Admin.Leaderboard.{is_reward_of, earned}

abbrev pub reward_of : Option Posting → ℤ
reward_of none = pos 0
reward_of (some p) = p.cost -ℤ p.pool_fee

abbrev pub AreDistinct : List Assignment → Type 0
AreDistinct [] = Unit
AreDistinct (a ∷ rows) = All (λ (b : Assignment). b.id ≢ a.id) rows × AreDistinct rows

rewards-create_ledger_entry :
    (i now k : ℕ) (x : ℤ) (reason : String) (j : Option ℕ) (a : ℕ) (db : Db)
    → sum_amounts (is_reward_of i) (create_ledger_entry now k x reason j (some a) db).ledger
      ≡ sum_amounts (is_reward_of i) db.ledger
        +ℤ (if a == i && str_eq reason "worker_reward" then x else pos 0)
unfolding create_ledger_entry
rewards-create_ledger_entry i now k x reason j a db =
    sum_amounts-append (is_reward_of i) db.ledger _
    ∙ ap (λ y. sum_amounts (is_reward_of i) db.ledger +ℤ y) (+ℤ_zero _)

rewards-settle :
    (i now : ℕ) (a : Assignment) (p : Posting) (db : Db)
    → sum_amounts (is_reward_of i) (settle now a p db).ledger
      ≡ sum_amounts (is_reward_of i) db.ledger
        +ℤ (if a.id == i then p.cost -ℤ p.pool_fee else pos 0)
unfolding settle
rewards-settle i now a p db =
    simp (rewards-create_ledger_entry, get_or_create_account-ledger)
      (elim (Bool-cases (a.id == i)) [
        | inl same ↦ rw same (omega int_laws)
        | inr other ↦ rw other (omega int_laws)
      ])

get_or_create_account-assignments :
    (t : OwnerType) (o : ℕ) (c : String) (db : Db)
    → (get_or_create_account t o c db).1.assignments ≡ db.assignments
unfolding get_or_create_account
get_or_create_account-assignments t o c db =
    elim (Option-cases (find_by (owned_by t o c) db.accounts)) [
      | inl new ↦ rw (new, get_or_create_account)
      | inr (a, old) ↦ rw (old, get_or_create_account)
    ]

settle-assignments :
    (now : ℕ) (a : Assignment) (p : Posting) (db : Db)
    → (settle now a p db).assignments ≡ db.assignments
unfolding settle create_ledger_entry
settle-assignments now a p db = simp get_or_create_account-assignments refl

-- The sums of rewards of two ledgers differ by a reward for one assignment.
abbrev Adds : ℕ → ℤ → List LedgerEntry → List LedgerEntry → Type 0
Adds k x before after =
    (i : ℕ)
    → sum_amounts (is_reward_of i) after
      ≡ sum_amounts (is_reward_of i) before +ℤ (if k == i then x else pos 0)

unmoved :
    (k i : ℕ) (x : ℤ) (before after : List LedgerEntry)
    → Adds k x before after
    → i ≢ k
    → sum_amounts (is_reward_of i) after ≡ sum_amounts (is_reward_of i) before
unmoved k i x before after adds ne = elim (Bool-cases (k == i)) [
  | inl same ↦ absurd (ne (sym ((==_iff k i).0 same)))
  | inr other ↦ (rw other at (adds i)) ∙ +ℤ_zero _
]

earned_other :
    (i k : ℕ) (x : ℤ) (before after : List LedgerEntry) (rows : List Assignment)
    → Adds k x before after
    → All (λ (b : Assignment). b.id ≢ k) rows
    → earned i after rows ≡ earned i before rows
earned_other i k x before after [] adds others = refl
earned_other i k x before after (b ∷ rows) adds others = rw (
  unmoved k b.id x before after adds others.0,
  earned_other i k x before after rows adds others.1,
)

earned_grown :
    (i : ℕ) (a : Assignment) (x : ℤ) (before after : List LedgerEntry) (rows : List Assignment)
    → Adds a.id x before after
    → AreDistinct rows
    → In a rows
    → earned i after rows ≡ earned i before rows +ℤ (if is_given_to i a then x else pos 0)
earned_grown i a x before after [] adds distinct member = absurd member
earned_grown i a x before after (b ∷ rows) adds distinct (inl here) =
    let grows = rw ((==_iff a.id a.id).1 refl) at (adds a.id) in
    let others =
      subst (λ (c : Assignment). All (λ (d : Assignment). d.id ≢ c.id) rows) (sym here)
        distinct.0 in
    subst
      (λ (c : Assignment).
        (if is_given_to i c then sum_amounts (is_reward_of c.id) after else pos 0)
          +ℤ earned i after rows
        ≡ (if is_given_to i c then sum_amounts (is_reward_of c.id) before else pos 0)
          +ℤ earned i before rows
          +ℤ (if is_given_to i a then x else pos 0))
      here
      (rw (earned_other i a.id x before after rows adds others) (
        rw grows (elim (Bool-cases (is_given_to i a)) [
          | inl given ↦ rw given (omega int_laws)
          | inr other ↦ rw other (omega int_laws)
        ])))
earned_grown i a x before after (b ∷ rows) adds distinct (inr later) =
    let others = All-In (λ (c : Assignment). c.id ≢ b.id) rows distinct.0 later in
    rw
      (
        unmoved a.id b.id x before after adds (λ e. others (sym e)),
        earned_grown i a x before after rows adds distinct.1 later,
      )
      (omega int_laws)

-- Where assignments have their own ids and the assignment is in the table, a job's accounting that charges
-- adds the worker's reward, the price less the pool's fee, to what the leaderboard shows for the worker of
-- the assignment, and changes what it shows for nobody else; one that does not charge changes nothing.
pub accounting-earned :
    (i now : ℕ) (a : Assignment) (r : SubmissionResult) (db : Db)
    → AreDistinct db.assignments
    → In a db.assignments
    → let db' = apply_job_verification_accounting now a r db in
      earned i db'.ledger db'.assignments
      ≡ earned i db.ledger db.assignments
        +ℤ (if is_given_to i a then reward_of (posting_of a r db) else pos 0)
unfolding apply_job_verification_accounting
accounting-earned i now a r db distinct member = elim (Option-cases (posting_of a r db)) [
  | inl returns ↦
      rw (returns, apply_job_verification_accounting)
        (elim (Bool-cases (is_given_to i a)) [
          | inl given ↦ rw given (sym (+ℤ_zero _))
          | inr other ↦ rw other (sym (+ℤ_zero _))
        ])
  | inr (p, posts) ↦
      rw (posts, apply_job_verification_accounting)
        (rw (settle-assignments now a p db) (
          earned_grown i a (p.cost -ℤ p.pool_fee) db.ledger (settle now a p db).ledger
            db.assignments (λ j. rewards-settle j now a p db) distinct member))
]
