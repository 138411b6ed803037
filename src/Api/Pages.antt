-- ===== src/Api/Pages.antt =====
-- `my_ledger` of api/me.py: the pages, one after the other, are the ledger of the account.
use open_mesh_ai.Prelude.{
  ℕ, zero, suc, ◌+◌, ◌-◌, ◌*◌, ◌≤◌, ◌≡◌, refl, some, List, [], ◌∷◌, ◌++◌, length, take, drop, arith,
  ap, sym, ◌∙◌,
}
use open_mesh_ai.Db.Models.{User, Account, LedgerEntry}
use open_mesh_ai.Db.Session.{Db}
use open_mesh_ai.Api.Me.{token_account, newest_first, entries_of, page_of, my_ledger}

take_at : (es : List LedgerEntry) {m n : ℕ} → m ≡ n → take m es ≡ take n es
take_at es e = ap (λ (k : ℕ). take k es) e

take-nil : (n : ℕ) → ◌≡◌ {A = List LedgerEntry} (take n []) []
take-nil zero = refl
take-nil (suc n) = refl

take-drop : (m n : ℕ) (es : List LedgerEntry) → take m es ++ take n (drop m es) ≡ take (m + n) es
take-drop zero n es = take_at es {m = n} {n = 0 + n} (omega arith)
take-drop (suc m) n [] = take-nil n ∙ sym (take-nil (suc m + n))
take-drop (suc m) n (e ∷ es) =
    ap (λ (xs : List LedgerEntry). e ∷ xs) (take-drop m n es)
    ∙ take_at (e ∷ es) {m = suc (m + n)} {n = suc m + n} (omega arith)

take-length : (n : ℕ) (es : List LedgerEntry) → length es ≤ n → take n es ≡ es
take-length zero [] h = refl
take-length zero (e ∷ es) h = absurd (omega arith)
take-length (suc n) [] h = refl
take-length (suc n) (e ∷ es) h =
    ap (λ (xs : List LedgerEntry). e ∷ xs) (take-length n es (omega arith))

length-append : (es fs : List LedgerEntry) → length (es ++ fs) ≡ length es + length fs
length-append [] fs = omega arith
length-append (e ∷ es) fs = omega (arith, length-append es fs)

length-newest_first : (es : List LedgerEntry) → length (newest_first es) ≡ length es
length-newest_first [] = refl
length-newest_first (e ∷ es) =
    length-append (newest_first es) (e ∷ []) ∙ omega (arith, length-newest_first es)

-- The items of the first `n` pages.
unfoldable pub shown : ℕ → ℕ → User → Db → List LedgerEntry
shown zero page_size u db = []
shown (suc n) page_size u db = shown n page_size u db ++ (my_ledger (suc n) page_size u db).items

shown-take :
    (n page_size : ℕ) (u : User) (db : Db) (a : Account)
    → token_account u db ≡ some a
    → shown n page_size u db ≡ take (n * page_size) (newest_first (entries_of a.id db))
unfolding shown my_ledger
shown-take zero page_size u db a h =
    take_at (newest_first (entries_of a.id db)) {m = 0} (omega arith)
shown-take (suc n) page_size u db a h =
    let es = newest_first (entries_of a.id db) in
    let items : (my_ledger (suc n) page_size u db).items ≡ page_of (suc n) page_size es =
      rw (h, my_ledger) in
    let at : (suc n - 1) * page_size ≡ n * page_size =
      ap (λ (k : ℕ). k * page_size) (omega arith) in
    rw (shown-take n page_size u db a h, items, at)
      (take-drop (n * page_size) page_size es ∙ take_at es (omega arith))

-- Once the pages hold as many items as the total says, they are the account's entries, the newest
-- first: none is left out, and none is shown twice.
pub pages-shown :
    (n page_size : ℕ) (u : User) (db : Db) (a : Account)
    → token_account u db ≡ some a
    → (my_ledger 1 page_size u db).total ≤ n * page_size
    → shown n page_size u db ≡ newest_first (entries_of a.id db)
unfolding my_ledger
pages-shown n page_size u db a h enough =
    let total : length (entries_of a.id db) ≤ n * page_size = rw (h, my_ledger) at enough in
    shown-take n page_size u db a h
    ∙ take-length (n * page_size) (newest_first (entries_of a.id db))
        (omega (arith, length-newest_first (entries_of a.id db)))
