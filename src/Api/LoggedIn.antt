-- ===== src/Api/LoggedIn.antt =====
-- `register` and `login` of api/auth.py: who registers can log in, and keeps the address.
use open_mesh_ai.Prelude.{
  ℕ, ◌≡◌, refl, Bool, true, false, not, some, List, [], ◌∷◌, ◌++◌, String, str_eq_refl, find_by,
  is_some, arith, Bool-cases, inl, inr, ap, sym, ◌∙◌, subst,
}
use open_mesh_ai.Db.Enums.{Role, client, worker_owner}
use open_mesh_ai.Db.Models.{User}
use open_mesh_ai.Db.Session.{Db}
use open_mesh_ai.Finance.Balance.{IsBalanced, balance_of-append}
use open_mesh_ai.Api.Reply.{ok, is_ok, ok_inj, require_that->>}
use open_mesh_ai.Api.Auth.{
  RegisterRequest, has_email, new_user, open_account, usd_account, register, TokenKind, access,
  refresh, login,
}

find_by-append :
    (p : User → Bool) (us : List User) (u : User)
    → is_some (find_by p us) ≡ false
    → p u ≡ true
    → find_by p (us ++ u ∷ []) ≡ some u
find_by-append p [] u h k = rw k
find_by-append p (v ∷ us) u h k = elim (Bool-cases (p v)) [
  | inl hit ↦ let bad : true ≡ false = rw hit at h in cc
  | inr miss ↦ rw miss (find_by-append p us u (rw miss at h) k)
]

open_account-users : (u : User) (db : Db) → (open_account u db).users ≡ db.users
open_account-users u db = by_role u.role
  where
    by_role : (r : Role) → (open_account (record u { role = r }) db).users ≡ db.users
    by_role client = refl
    by_role worker_owner = refl

pub open_account-IsBalanced : (u : User) (db : Db) → IsBalanced db → IsBalanced (open_account u db)
open_account-IsBalanced u db h = by_role u.role
  where
    by_role : (r : Role) → IsBalanced (open_account (record u { role = r }) db)
    by_role client i =
        balance_of-append i db.accounts (usd_account db.next_account_id u.id) refl ∙ h i
    by_role worker_owner i = h i

-- The new user is found by its address, has the hash of its password, and the books are in order.
abbrev IsRegistered : String → RegisterRequest → User × Db → Type 0
IsRegistered hash payload (u, db) =
    (find_by (has_email payload.email) db.users ≡ some u)
    × (u.password_hash ≡ some hash)
    × IsBalanced db

pub register-IsRegistered :
    (hash_password : String → String) (next_id : ℕ) (payload : RegisterRequest) (db : Db)
    (out : User × Db)
    → IsBalanced db
    → register hash_password next_id payload db ≡ ok out
    → IsRegistered (hash_password payload.password) payload out
unfolding register
register-IsRegistered hash_password next_id payload db out h e =
    let (free, e1) =
      require_that->> (not (is_some (find_by (has_email payload.email) db.users))) _ _ _ e in
    let absent : is_some (find_by (has_email payload.email) db.users) ≡ false = ground arith in
    let v = new_user next_id (hash_password payload.password) payload in
    let rows = record db { users = db.users ++ v ∷ [] } in
    let found : find_by (has_email payload.email) (open_account v rows).users ≡ some v =
      ap (λ (us : List User). find_by (has_email payload.email) us) (open_account-users v rows)
      ∙ find_by-append (has_email payload.email) db.users v absent (str_eq_refl payload.email) in
    subst (IsRegistered (hash_password payload.password) payload) (ok_inj e1)
      (found, refl, open_account-IsBalanced v rows h)

login_found :
    (verify_password : String → String → Bool) (create_token : TokenKind → User → String)
    (email password hash : String) (u : User) (db : Db)
    → find_by (has_email email) db.users ≡ some u
    → u.password_hash ≡ some hash
    → verify_password password hash ≡ true
    → login verify_password create_token (record { email = email; password = password }) db
      ≡ ok (record { access_token = create_token access u; refresh_token = create_token refresh u })
unfolding login
login_found verify_password create_token email password hash u db found hashed verified =
    rw (found, hashed, verified)

register_taken :
    (hash_password : String → String) (next_id : ℕ) (payload : RegisterRequest) (u : User) (db : Db)
    → find_by (has_email payload.email) db.users ≡ some u
    → is_ok (register hash_password next_id payload db) ≡ false
unfolding register
register_taken hash_password next_id payload u db found = rw found

-- Whoever registers with an address that was free can log in with its password and gets the tokens of
-- the new user, and a second registration of the address is refused. The books stay in order. The
-- hash of a password is taken to verify that password.
pub login-register :
    (hash_password : String → String) (verify_password : String → String → Bool)
    (create_token : TokenKind → User → String) (next_id later_id : ℕ)
    (payload again : RegisterRequest) (u : User) (db db' : Db)
    → ((password : String) → verify_password password (hash_password password) ≡ true)
    → register hash_password next_id payload db ≡ ok (u, db')
    → again.email ≡ payload.email
    → IsBalanced db
    → (login verify_password create_token
          (record { email = payload.email; password = payload.password })
          db'
        ≡ ok (record {
          access_token = create_token access u;
          refresh_token = create_token refresh u;
        }))
      × (is_ok (register hash_password later_id again db') ≡ false)
      × IsBalanced db'
login-register hash_password verify_password create_token next_id later_id payload again u db db'
      verifies e same h =
    let (found, hashed, books) =
      register-IsRegistered hash_password next_id payload db (u, db') h e in
    (
      login_found verify_password create_token payload.email payload.password
          (hash_password payload.password) u db' found hashed (verifies payload.password),
      register_taken hash_password later_id again u db'
          (subst (λ (mail : String). find_by (has_email mail) db'.users ≡ some u) (sym same) found),
      books,
    )
