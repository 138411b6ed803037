-- ===== src/Api/Reply.antt =====
-- What a request of the coordinator comes to: a response, an `HTTPException` with its status and
-- detail, or an exception that nothing handles.
use open_mesh_ai.Prelude.{ℕ, ◌≡◌, refl, Bool, true, false, Option, none, some, String, ap}

pub data Reply (A : Type 0) : Type 0 where
  ok : A → Reply A
  refused : ℕ → String → Reply A
  server_error : Reply A

infixl 5 ◌>>◌
module _ {A B : Type 0} where
  infixl 5 ◌>>=◌
  abbrev pub ◌>>=◌ : Reply A → (A → Reply B) → Reply B
  refused status detail >>= next = refused status detail
  server_error >>= next = server_error
  ok value >>= next = next value

  -- A chain that comes to a response has passed its first step.
  pub >>=-eq-ok :
      (first : Reply A) (next : A → Reply B) {response : B}
      → (first >>= next) ≡ ok response
      → (value : A) × (first ≡ ok value) × (next value ≡ ok response)
  >>=-eq-ok (refused status detail) next e = cc
  >>=-eq-ok server_error next e = cc
  >>=-eq-ok (ok value) next e = (value, refl, e)

abbrev pub ◌>>◌ : {B : Type 0} → Reply (Unit {0}) → Reply B → Reply B
first >> next = first >>= λ (passed : Unit {0}). next

-- `if not test: raise HTTPException(status, detail)`
abbrev pub require_that : Bool → ℕ → String → Reply (Unit {0})
require_that true status detail = ok tt
require_that false status detail = refused status detail

-- `if value is None: raise HTTPException(status, detail)`
abbrev pub or_refuse : {A : Type 0} → Option A → ℕ → String → Reply A
or_refuse none status detail = refused status detail
or_refuse (some a) status detail = ok a

-- An exception that nothing handles ends the request.
abbrev pub or_fail : {A : Type 0} → Option A → Reply A
or_fail none = server_error
or_fail (some a) = ok a

abbrev pub is_ok : {A : Type 0} → Reply A → Bool
is_ok (ok a) = true
is_ok _ = false

pub ok_inj : {A : Type 0} {a b : A} → ◌≡◌ {A = Reply A} (ok a) (ok b) → a ≡ b
ok_inj h = cc

pub or_refuse-eq-ok :
    {A : Type 0} (m : Option A) (status : ℕ) (detail : String) {a : A}
    → or_refuse m status detail ≡ ok a
    → m ≡ some a
or_refuse-eq-ok none status detail h = cc
or_refuse-eq-ok (some a) status detail h = cc

pub require_that-eq-ok :
    (test : Bool) (status : ℕ) (detail : String) {u : Unit {0}}
    → require_that test status detail ≡ ok u
    → test ≡ true
require_that-eq-ok true status detail h = refl
require_that-eq-ok false status detail h = cc

pub or_refuse->>= :
    {A B : Type 0} (m : Option A) (status : ℕ) (detail : String) (f : A → Reply B) {b : B}
    → (or_refuse m status detail >>= f) ≡ ok b
    → (a : A) × (m ≡ some a) × (f a ≡ ok b)
or_refuse->>= none status detail f h = cc
or_refuse->>= (some a) status detail f h = (a, refl, h)

pub require_that->> :
    {B : Type 0} (test : Bool) (status : ℕ) (detail : String) (k : Reply B) {b : B}
    → (require_that test status detail >> k) ≡ ok b
    → (test ≡ true) × (k ≡ ok b)
require_that->> true status detail k h = (refl, h)
require_that->> false status detail k h = cc

pub or_fail-eq-ok : {A : Type 0} (m : Option A) {a : A} → or_fail m ≡ ok a → m ≡ some a
or_fail-eq-ok none h = cc
or_fail-eq-ok (some a) h = ap some (ok_inj h)
