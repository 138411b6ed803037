-- ===== src/Finance/Keys.antt =====
-- The account rows have their own ids, below the next one of the sequence. What a posting does to the
-- account that a query finds.
use open_mesh_ai.Prelude.{
  found-All, ℕ, suc, ◌<◌, ◌≡◌, ◌≢◌, refl, Bool, Option, none, some, List, [], ◌∷◌, ◌++◌, ℤ, ◌+ℤ◌,
  ◌==◌, if◌then◌else◌, arith, find_by, All, Bool-cases, inl, inr, ap, sym, ◌∙◌, subst, some_inj,
  ==_iff,
}
use open_mesh_ai.Db.Enums.{OwnerType}
use open_mesh_ai.Db.Models.{Account}
use open_mesh_ai.Finance.Accounts.{owned_by, add_balance, token_currency}
use open_mesh_ai.Finance.Holdings.{account_of}

abbrev pub HasIds : ℕ → List Account → Type 0
HasIds n [] = Unit
HasIds n (a ∷ rows) = (a.id < n) × All (λ (b : Account). b.id ≢ a.id) rows × HasIds n rows

-- The row as `add_balance j x` leaves it.
abbrev pub moved : ℕ → ℤ → Account → Account
moved j x a = if a.id == j then record a { balance = a.balance +ℤ x } else a

abbrev pub moved_if : ℕ → ℤ → Option Account → Option Account
moved_if j x none = none
moved_if j x (some a) = some (moved j x a)

-- Two rows that are found and share an id are one.
pub found_same :
    (n : ℕ) (p q : Account → Bool) (rows : List Account) (a b : Account)
    → HasIds n rows
    → find_by p rows ≡ some a
    → find_by q rows ≡ some b
    → a.id ≡ b.id
    → a ≡ b
found_same n p q [] a b h e k same = cc
found_same n p q (c ∷ rows) a b h e k same = elim (Bool-cases (p c)) [
  | inl hit ↦ elim (Bool-cases (q c)) [
    | inl hit' ↦ sym (some_inj (rw hit at e)) ∙ some_inj (rw hit' at k)
    | inr miss' ↦
        let one = some_inj (rw hit at e) in
        let other = found-All (λ (x : Account). x.id ≢ c.id) q rows b h.1 (rw miss' at k) in
        absurd (other (sym same ∙ sym (ap (λ (x : Account). x.id) one)))
  ]
  | inr miss ↦ elim (Bool-cases (q c)) [
    | inl hit' ↦
        let one = some_inj (rw hit' at k) in
        let other = found-All (λ (x : Account). x.id ≢ c.id) p rows a h.1 (rw miss at e) in
        absurd (other (same ∙ sym (ap (λ (x : Account). x.id) one)))
    | inr miss' ↦ found_same n p q rows a b h.2 (rw miss at e) (rw miss' at k) same
  ]
]

pub moved_foreign : (j : ℕ) (x : ℤ) (a : Account) → a.id ≢ j → moved j x a ≡ a
moved_foreign j x a h = ground (arith, ==_iff a.id j)

moved_other :
    (j : ℕ) (x : ℤ) (p : Account → Bool) (rows : List Account)
    → All (λ (b : Account). b.id ≢ j) rows
    → moved_if j x (find_by p rows) ≡ find_by p rows
moved_other j x p [] h = refl
moved_other j x p (b ∷ rows) h = elim (Bool-cases (p b)) [
  | inl hit ↦ rw hit (ap some (moved_foreign j x b h.0))
  | inr miss ↦ rw miss (moved_other j x p rows h.1)
]

-- The account of an owner after a posting: its balance moves where its id is the posting's.
pub account_of-add_balance :
    (n j : ℕ) (x : ℤ) (t : OwnerType) (i : ℕ) (rows : List Account)
    → HasIds n rows
    → account_of t i (add_balance j x rows) ≡ moved_if j x (account_of t i rows)
account_of-add_balance n j x t i [] h = refl
account_of-add_balance n j x t i (a ∷ rows) h = elim (Bool-cases (a.id == j)) [
  | inl hit ↦ elim (Bool-cases (owned_by t i token_currency a)) [
    | inl own ↦ rw (hit, own, hit)
    | inr foreign ↦
        rw (hit, foreign)
          (sym (
            moved_other j x _ rows
              (subst (λ k. All (λ (b : Account). b.id ≢ k) rows) ((==_iff a.id j).0 hit) h.1)))
  ]
  | inr miss ↦ elim (Bool-cases (owned_by t i token_currency a)) [
    | inl own ↦ rw (miss, own, miss)
    | inr foreign ↦ rw (miss, foreign) (account_of-add_balance n j x t i rows h.2)
  ]
]

other_rows-add_balance :
    (k j : ℕ) (x : ℤ) (rows : List Account)
    → All (λ (b : Account). b.id ≢ k) rows
    → All (λ (b : Account). b.id ≢ k) (add_balance j x rows)
other_rows-add_balance k j x [] h = tt
other_rows-add_balance k j x (a ∷ rows) h = elim (Bool-cases (a.id == j)) [
  | inl hit ↦ rw hit h
  | inr miss ↦ rw miss (h.0, other_rows-add_balance k j x rows h.1)
]

pub HasIds-add_balance :
    (n j : ℕ) (x : ℤ) (rows : List Account) → HasIds n rows → HasIds n (add_balance j x rows)
HasIds-add_balance n j x [] h = tt
HasIds-add_balance n j x (a ∷ rows) h = elim (Bool-cases (a.id == j)) [
  | inl hit ↦ rw hit h
  | inr miss ↦
      rw miss (h.0, other_rows-add_balance a.id j x rows h.1, HasIds-add_balance n j x rows h.2)
]

other_rows-append :
    (k : ℕ) (rows : List Account) (a : Account)
    → All (λ (b : Account). b.id ≢ k) rows
    → a.id ≢ k
    → All (λ (b : Account). b.id ≢ k) (rows ++ a ∷ [])
other_rows-append k [] a h new = (new, tt)
other_rows-append k (b ∷ rows) a h new = (h.0, other_rows-append k rows a h.1 new)

pub HasIds-append :
    (n : ℕ) (rows : List Account) (a : Account)
    → HasIds n rows
    → a.id ≡ n
    → HasIds (suc n) (rows ++ a ∷ [])
HasIds-append n [] a h new = (omega arith, tt, tt)
HasIds-append n (b ∷ rows) a h new = (
  omega arith,
  other_rows-append b.id rows a h.1 (λ e. let lt = h.0 in omega arith),
  HasIds-append n rows a h.2 new,
)
