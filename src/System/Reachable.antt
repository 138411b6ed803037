-- ===== src/System/Reachable.antt =====
-- The books in every state that the coordinator reaches.
use open_mesh_ai.Prelude.{
  append-nil, [], ◌++◌, pos, ◌+ℤ◌, ◌-ℤ◌, int_laws, sym, ℕ, ◌≡◌, refl, Bool, List, ℤ, ap, ◌∙◌,
}
use open_mesh_ai.Db.Enums.{Role, client, worker_owner}
use open_mesh_ai.Db.Models.{User, Account, LedgerEntry}
use open_mesh_ai.Db.Session.{Db}
use open_mesh_ai.Verification.Floats.{Floats}
use open_mesh_ai.Finance.Accounts.{sum_amounts}
use open_mesh_ai.Finance.Balance.{
  IsBalanced, sum_amounts-append, accounting-IsBalanced, interpool_fee-IsBalanced,
}
use open_mesh_ai.Emission.Paid.{run_daily_emission-IsBalanced}
use open_mesh_ai.Seeds.Defaults.{Argon2}
use open_mesh_ai.Api.Auth.{open_account}
use open_mesh_ai.Api.LoggedIn.{open_account-IsBalanced}
use open_mesh_ai.Api.Submit.{App}
use open_mesh_ai.Api.Books.{books-IsBalanced}
use open_mesh_ai.System.Steps.{Reach}
use open_mesh_ai.System.Minted.{
  is_other, made_elsewhere, accounting-made_elsewhere, interpool_fee-made_elsewhere,
  run_daily_emission-made_elsewhere,
}
use open_mesh_ai.System.Appended.{
  Appends, accounting-Appends, interpool_fee-Appends, run_daily_emission-Appends,
}
use open_mesh_ai.System.Kept.{Keeps, Reach_inv}

IsBalanced-Keeps : Keeps IsBalanced
IsBalanced-Keeps = record {
  by_books = books-IsBalanced;
  by_accounting = accounting-IsBalanced;
  by_fee = interpool_fee-IsBalanced;
  by_account = open_account-IsBalanced;
  by_emission = λ cap_tokens base_tokens now db out e h.
      (run_daily_emission-IsBalanced cap_tokens base_tokens now db out.1 out.0 h e).0;
}

open_account-made_elsewhere :
    (u : User) (db : Db) → made_elsewhere (open_account u db) ≡ made_elsewhere db
open_account-made_elsewhere u db = by_role u.role
  where
    by_role :
        (r : Role) → made_elsewhere (open_account (record u { role = r }) db) ≡ made_elsewhere db
    by_role client = refl
    by_role worker_owner = refl

-- The sum is still what it was at first.
made_elsewhere-Keeps : (first : ℤ) → Keeps (λ db. made_elsewhere db ≡ first)
made_elsewhere-Keeps first = record {
  by_books = λ db db' same h.
      ap (λ (b : List Account × List LedgerEntry). sum_amounts is_other b.1) same ∙ h;
  by_accounting = λ now a r db h. accounting-made_elsewhere now a r db ∙ h;
  by_fee = λ now j db h. interpool_fee-made_elsewhere now j db ∙ h;
  by_account = λ u db h. open_account-made_elsewhere u db ∙ h;
  by_emission = λ cap_tokens base_tokens now db out e h.
      run_daily_emission-made_elsewhere cap_tokens base_tokens now db out e ∙ h;
}

open_account-Appends :
    (first : List LedgerEntry) (u : User) (db : Db)
    → Appends first db
    → Appends first (open_account u db)
open_account-Appends first u db h = by_role u.role
  where
    by_role : (r : Role) → Appends first (open_account (record u { role = r }) db)
    by_role client = h
    by_role worker_owner = h

-- The entries that were there at first still come first.
Appends-Keeps : (first : List LedgerEntry) → Keeps (Appends first)
Appends-Keeps first = record {
  by_books = λ db db' same h. (h.0, ap (λ (b : List Account × List LedgerEntry). b.1) same ∙ h.1);
  by_accounting = accounting-Appends first;
  by_fee = interpool_fee-Appends first;
  by_account = open_account-Appends first;
  by_emission = run_daily_emission-Appends first;
}

nothing_more : (a b : ℤ) → a +ℤ b ≡ a → b ≡ pos 0
nothing_more a b h =
    let there : b ≡ (a +ℤ b) -ℤ a = omega int_laws in
    let zero_left : a -ℤ a ≡ pos 0 = omega int_laws in there ∙ ap (λ (x : ℤ). x -ℤ a) h ∙ zero_left

module _ {F : Type 0} (fl : Floats F) (argon2 : Argon2)
    (ed25519 : List ℕ → List ℕ → List ℕ → Bool) where
  -- In every state that requests and loops lead to, in whatever order they come, whoever makes them
  -- and whatever comes of each, every balance is the sum of the account's ledger entries, if it was
  -- so at first.
  pub Reach-IsBalanced :
      {s t : App} → IsBalanced s.db → Reach fl argon2 ed25519 s t → IsBalanced t.db
  Reach-IsBalanced = Reach_inv IsBalanced IsBalanced-Keeps fl argon2 ed25519

  -- The ledger is only added to, and only the daily emission makes tokens: whatever requests and loops
  -- do, in whatever order, the ledger's entries stay as they were, and those that come after them,
  -- without the entries of emissions, add up to zero.
  pub Reach-ledger :
      {s t : App}
      → Reach fl argon2 ed25519 s t
      → (new : List LedgerEntry) × (t.db.ledger ≡ s.db.ledger ++ new)
        × (sum_amounts is_other new ≡ pos 0)
  Reach-ledger {s} {t} steps =
      let (new, appended) =
        Reach_inv (Appends s.db.ledger) (Appends-Keeps s.db.ledger) fl argon2 ed25519
          ([], sym (append-nil s.db.ledger)) steps in
      let same =
        Reach_inv (λ db. made_elsewhere db ≡ made_elsewhere s.db)
          (made_elsewhere-Keeps (made_elsewhere s.db)) fl argon2 ed25519 refl steps in
      let sums : made_elsewhere s.db +ℤ sum_amounts is_other new ≡ made_elsewhere s.db =
        sym (sum_amounts-append is_other s.db.ledger new)
        ∙ sym (ap (sum_amounts is_other) appended)
        ∙ same in
      (new, appended, nothing_more (made_elsewhere s.db) _ sums)
