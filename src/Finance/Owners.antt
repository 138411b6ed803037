-- ===== src/Finance/Owners.antt =====
-- What asking for an account and posting on it do to the owners' holdings.
use open_mesh_ai.Prelude.{
  found_passes, ℕ, ◌≡◌, refl, Bool, true, ◌&&◌, both_true, Option, none, some, List, [], ◌∷◌, ◌++◌,
  String, ℤ, pos, ◌+ℤ◌, ◌==◌, if◌then◌else◌, find_by, Bool-cases, Option-cases, inl, inr, ap, sym,
  ◌∙◌, subst, ==_iff, ◌↔◌,
}
use open_mesh_ai.Db.Enums.{OwnerType, user, worker, system, owner_type_eq}
use open_mesh_ai.Db.Models.{Account}
use open_mesh_ai.Db.Session.{Db}
use open_mesh_ai.Finance.Accounts.{
  get_or_create_account, create_ledger_entry, owned_by, token_currency,
}
use open_mesh_ai.Finance.Holdings.{credit, held, account_of, holdings}
use open_mesh_ai.Finance.Keys.{
  HasIds, moved, moved_if, moved_foreign, found_same, account_of-add_balance, HasIds-add_balance,
  HasIds-append,
}

abbrev pub AreDistinctAccounts : Db → Type 0
AreDistinctAccounts db = HasIds db.next_account_id db.accounts

-- The owner's account is the one with this id.
abbrev pub Owns : OwnerType → ℕ → ℕ → Db → Type 0
Owns t i k db = (a : Account) × (account_of t i db.accounts ≡ some a) × (a.id ≡ k)

owner_type_eq_sound : (t u : OwnerType) → owner_type_eq t u ≡ true → t ≡ u
owner_type_eq_sound user user h = refl
owner_type_eq_sound worker worker h = refl
owner_type_eq_sound system system h = refl
owner_type_eq_sound user worker h = cc
owner_type_eq_sound user system h = cc
owner_type_eq_sound worker user h = cc
owner_type_eq_sound worker system h = cc
owner_type_eq_sound system user h = cc
owner_type_eq_sound system worker h = cc

owner_type_eq_refl : (t : OwnerType) → owner_type_eq t t ≡ true
owner_type_eq_refl user = refl
owner_type_eq_refl worker = refl
owner_type_eq_refl system = refl

abbrev is_key : OwnerType → ℕ → OwnerType → ℕ → Bool
is_key t i u j = owner_type_eq u t && j == i

is_key_iff : (t u : OwnerType) (i j : ℕ) → (is_key t i u j ≡ true) ↔ ((u ≡ t) × (j ≡ i))
is_key_iff t u i j = (
  λ h. let (types, ids) = both_true _ _ h in (owner_type_eq_sound u t types, (==_iff j i).0 ids),
  λ h. rw (h.0, h.1, owner_type_eq_refl t) ((==_iff i i).1 refl),
)

owned_by-key :
    (t : OwnerType) (i : ℕ) (c : String) (a : Account)
    → owned_by t i c a ≡ true
    → (a.owner_type ≡ t) × (a.owner_id ≡ i)
owned_by-key t i c a h =
    let (types, rest) = both_true _ _ h in
    let (ids, currencies) = both_true _ _ rest in
    (owner_type_eq_sound a.owner_type t types, (==_iff a.owner_id i).0 ids)

-- Two owners of one account are the same.
owned_by-is_key :
    (t u : OwnerType) (i j : ℕ) (c : String) (a : Account)
    → owned_by t i c a ≡ true
    → owned_by u j c a ≡ true
    → is_key t i u j ≡ true
owned_by-is_key t u i j c a h k =
    let one = owned_by-key t i c a h in
    let two = owned_by-key u j c a k in
    (is_key_iff t u i j).1 (sym two.0 ∙ one.0, sym two.1 ∙ one.1)

account_of-is_key :
    (t u : OwnerType) (i j : ℕ) (rows : List Account)
    → is_key t i u j ≡ true
    → account_of u j rows ≡ account_of t i rows
account_of-is_key t u i j rows h = let same = (is_key_iff t u i j).0 h in rw (same.0, same.1)

-- What an owner holds when the account `k` of one of them moves.
held-moved_if :
    (n k : ℕ) (x : ℤ) (t u : OwnerType) (i j : ℕ) (rows : List Account) (a : Account)
    → HasIds n rows
    → account_of t i rows ≡ some a
    → a.id ≡ k
    → held (moved_if k x (account_of u j rows))
      ≡ (if is_key t i u j then held (account_of u j rows) +ℤ x else held (account_of u j rows))
held-moved_if n k x t u i j rows a h own own_id = elim (Bool-cases (is_key t i u j)) [
  | inl same ↦
      rw same (rw (account_of-is_key t u i j rows same, own) (rw ((==_iff a.id k).1 own_id) refl))
  | inr other ↦ rw other (elim (Option-cases (account_of u j rows)) [
    | inl absent ↦ rw absent
    | inr (b, present) ↦ rw present (
        ap (λ (y : Account). y.balance)
          (moved_foreign k x b (λ e.
            let one_row = found_same n _ _ rows b a h present own (e ∙ sym own_id) in
            let passes =
              subst (λ (y : Account). owned_by u j token_currency y ≡ true) one_row
                (found_passes _ rows b present) in
            let same =
              owned_by-is_key t u i j token_currency a (found_passes _ rows a own) passes in
            cc)))
  ])
]

-- A posting on an owner's account is a credit of what the owner holds.
pub create_ledger_entry-holdings :
    (now k : ℕ) (x : ℤ) (r : String) (jo ao : Option ℕ) (t u : OwnerType) (i j : ℕ) (db : Db)
    → AreDistinctAccounts db
    → Owns t i k db
    → holdings (create_ledger_entry now k x r jo ao db) u j ≡ credit t i x (holdings db) u j
unfolding create_ledger_entry
create_ledger_entry-holdings now k x r jo ao t u i j db h (a, own, own_id) =
    ap held (account_of-add_balance _ k x u j db.accounts h)
    ∙ held-moved_if _ k x t u i j db.accounts a h own own_id

find_by-append :
    (p : Account → Bool) (rows : List Account) (a : Account)
    → find_by p (rows ++ a ∷ [])
      ≡ elim (find_by p rows) [ some b ↦ some b | none ↦ if p a then some a else none ]
find_by-append p [] a = refl
find_by-append p (b ∷ rows) a = elim (Bool-cases (p b)) [
  | inl hit ↦ rw hit
  | inr miss ↦ rw (miss, find_by-append p rows a)
]

find_by-last :
    (p : Account → Bool) (rows : List Account) (a : Account)
    → find_by p rows ≡ none
    → p a ≡ true
    → find_by p (rows ++ a ∷ []) ≡ some a
find_by-last p rows a absent hit = rw (find_by-append p rows a, absent, hit)

held-append :
    (p : Account → Bool) (rows : List Account) (a : Account)
    → a.balance ≡ pos 0
    → held (find_by p (rows ++ a ∷ [])) ≡ held (find_by p rows)
held-append p rows a empty = elim (Option-cases (find_by p rows)) [
  | inl absent ↦ elim (Bool-cases (p a)) [
    | inl hit ↦ rw (find_by-append p rows a, absent, hit) empty
    | inr miss ↦ rw (find_by-append p rows a, absent, miss)
  ]
  | inr (b, present) ↦ rw (find_by-append p rows a, present)
]

-- Asking for an account gives nobody a token.
pub get_or_create_account-holdings :
    (t u : OwnerType) (i j : ℕ) (c : String) (db : Db)
    → holdings (get_or_create_account t i c db).1 u j ≡ holdings db u j
unfolding get_or_create_account
get_or_create_account-holdings t u i j c db =
    elim (Option-cases (find_by (owned_by t i c) db.accounts)) [
      | inl new ↦ rw (new, get_or_create_account) (held-append _ db.accounts _ refl)
      | inr (a, old) ↦ rw (old, get_or_create_account)
    ]

pub get_or_create_account-AreDistinctAccounts :
    (t : OwnerType) (i : ℕ) (c : String) (db : Db)
    → AreDistinctAccounts db
    → AreDistinctAccounts (get_or_create_account t i c db).1
unfolding get_or_create_account
get_or_create_account-AreDistinctAccounts t i c db h =
    elim (Option-cases (find_by (owned_by t i c) db.accounts)) [
      | inl new ↦ rw (new, get_or_create_account) (HasIds-append _ db.accounts _ h refl)
      | inr (a, old) ↦ rw (old, get_or_create_account) h
    ]

pub get_or_create_account-Owns :
    (t : OwnerType) (i : ℕ) (db : Db)
    → let (a, db') = get_or_create_account t i token_currency db in Owns t i a.id db'
unfolding get_or_create_account
get_or_create_account-Owns t i db = elim (Option-cases (account_of t i db.accounts)) [
  | inl new ↦
      rw (new, get_or_create_account)
        (
          _,
          find_by-last _ db.accounts _ new (rw (owner_type_eq_refl t, (==_iff i i).1 refl) refl),
          refl,
        )
  | inr (a, old) ↦ rw (old, get_or_create_account) (a, old, refl)
]

pub get_or_create_account-kept :
    (t u : OwnerType) (i j k : ℕ) (c : String) (db : Db)
    → Owns u j k db
    → Owns u j k (get_or_create_account t i c db).1
unfolding get_or_create_account
get_or_create_account-kept t u i j k c db (a, own, own_id) =
    elim (Option-cases (find_by (owned_by t i c) db.accounts)) [
      | inl new ↦
          rw (new, get_or_create_account) (a, find_by-append _ db.accounts _ ∙ rw own refl, own_id)
      | inr (b, old) ↦ rw (old, get_or_create_account) (a, own, own_id)
    ]

pub create_ledger_entry-AreDistinctAccounts :
    (now k : ℕ) (x : ℤ) (r : String) (jo ao : Option ℕ) (db : Db)
    → AreDistinctAccounts db
    → AreDistinctAccounts (create_ledger_entry now k x r jo ao db)
unfolding create_ledger_entry
create_ledger_entry-AreDistinctAccounts now k x r jo ao db h =
    HasIds-add_balance _ k x db.accounts h

moved-id : (j : ℕ) (x : ℤ) (a : Account) → (moved j x a).id ≡ a.id
moved-id j x a = elim (Bool-cases (a.id == j)) [ inl hit ↦ rw hit | inr miss ↦ rw miss ]

pub create_ledger_entry-kept :
    (now k : ℕ) (x : ℤ) (r : String) (jo ao : Option ℕ) (u : OwnerType) (j m : ℕ) (db : Db)
    → AreDistinctAccounts db
    → Owns u j m db
    → Owns u j m (create_ledger_entry now k x r jo ao db)
unfolding create_ledger_entry
create_ledger_entry-kept now k x r jo ao u j m db h (a, own, own_id) = (
  moved k x a,
  account_of-add_balance _ k x u j db.accounts h ∙ rw own refl,
  moved-id k x a ∙ own_id,
)
