-- ===== src/Verification/Floats.antt =====
-- Python's `float`, which the language here has not: its operations are a parameter of all that
-- computes with them in verification.py. `repr` is the text that `str` gives; `of_text` reads one.
use open_mesh_ai.Prelude.{Bool, Option, String, ℤ}
use open_mesh_ai.Decimal.Order.{Decimal}

pub record Floats (F : Type 0) : Type 0 where
  pub zero : F
  pub of_int : ℤ → F
  pub of_text : String → F
  pub of_decimal : Decimal → F
  pub repr : F → String
  pub add : F → F → F
  pub mul : F → F → F
  -- `x ** 0.5`
  pub sqrt : F → F
  pub is_zero : F → Bool
  -- `none` is `ZeroDivisionError`
  pub div : F → F → Option F
  -- `a >= b`
  pub geb : F → F → Bool
