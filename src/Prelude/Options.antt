-- ===== src/Prelude/Options.antt =====
-- Chains of steps that may stop: an early return, or an exception.
use mathlib.Core.Path.{◌≡◌, refl}
use mathlib.Core.Bool.{Bool, true, false}
use mathlib.Core.Option.{Option, none, some}

infixl 5 ◌>>◌
module _ {A B : Type 0} where
  infixl 5 ◌>>=◌
  abbrev pub ◌>>=◌ : Option A → (A → Option B) → Option B
  none >>= next = none
  some value >>= next = next value

  -- A chain that comes to an end has passed its first step.
  pub >>=-eq-some :
      (first : Option A) (next : A → Option B) {out : B}
      → (first >>= next) ≡ some out
      → (value : A) × (first ≡ some value) × (next value ≡ some out)
  >>=-eq-some none next e = cc
  >>=-eq-some (some value) next e = (value, refl, e)

abbrev pub ◌>>◌ : {B : Type 0} → Option (Unit {0}) → Option B → Option B
first >> next = first >>= λ (passed : Unit {0}). next

-- Goes on where the test passes.
abbrev pub require : Bool → Option (Unit {0})
require false = none
require true = some tt

pub some_inj : {A : Type 0} {a b : A} → some a ≡ some b → a ≡ b
some_inj h = cc
