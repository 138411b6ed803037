-- ===== src/Prelude/Lists.antt =====
-- Lists measured by native numbers, and the queries that the session runs over rows.
use Prim.Native.Nat.{ℕ, zero, suc, ◌+◌}
use mathlib.Core.Path.{◌≡◌, refl, sym, subst}
use mathlib.Core.Logic.{◌⊎◌, inl, inr}
use mathlib.Core.Bool.{Bool, true}
use mathlib.Core.Option.{Option, none, some}
use open_mesh_ai.Prelude.Options.{some_inj}
use mathlib.Core.List.{List, [], ◌∷◌, ◌++◌}
use native.Mathlib.Omega.{arith}
use open_mesh_ai.Prelude.Tests.{if◌then◌else◌, Bool-cases}

module _ {ℓ} {A : Type ℓ} where
  abbrev pub length : List A → ℕ
  length [] = 0
  length (x ∷ xs) = suc (length xs)

  abbrev pub take : ℕ → List A → List A
  take zero xs = []
  take (suc n) [] = []
  take (suc n) (x ∷ xs) = x ∷ take n xs

  abbrev pub drop : ℕ → List A → List A
  drop zero xs = xs
  drop (suc n) [] = []
  drop (suc n) (x ∷ xs) = drop n xs

  -- `WHERE` on a table, in the table's order.
  abbrev pub filter_by : (A → Bool) → List A → List A
  filter_by p [] = []
  filter_by p (x ∷ xs) = let rest = filter_by p xs in if p x then x ∷ rest else rest

  -- The first row that passes the test.
  abbrev pub find_by : (A → Bool) → List A → Option A
  find_by p [] = none
  find_by p (x ∷ xs) = if p x then some x else find_by p xs

  -- Writes the first row that passes the test.
  abbrev pub update_by : (A → Bool) → (A → A) → List A → List A
  update_by p f [] = []
  update_by p f (x ∷ xs) = if p x then f x ∷ xs else x ∷ update_by p f xs

  -- `COUNT` of the rows that pass the test.
  abbrev pub count_by : (A → Bool) → List A → ℕ
  count_by p [] = 0
  count_by p (x ∷ xs) = (if p x then 1 else 0) + count_by p xs

  pub length-append : (xs ys : List A) → length (xs ++ ys) ≡ length xs + length ys
  length-append [] ys = omega arith
  length-append (x ∷ xs) ys = omega (arith, length-append xs ys)

  pub count_by-append :
      (p : A → Bool) (xs ys : List A) → count_by p (xs ++ ys) ≡ count_by p xs + count_by p ys
  count_by-append p [] ys = omega arith
  count_by-append p (x ∷ xs) ys = omega (arith, count_by-append p xs ys)

  abbrev pub All {κ} : (A → Type κ) → List A → Type κ
  All P [] = Unit
  All P (x ∷ xs) = P x × All P xs

module _ {A : Type 0} where
  -- `a` is one of the list.
  abbrev pub In : A → List A → Type 0
  In a [] = ⊥
  In a (x ∷ xs) = (a ≡ x) ⊎ In a xs

  pub All-map {κ} :
      (P : A → Type κ) (Q : A → Type κ)
      → ((a : A) → P a → Q a)
      → (xs : List A) → All P xs
      → All Q xs
  All-map P Q f [] h = tt
  All-map P Q f (x ∷ xs) h = (f x h.0, All-map P Q f xs h.1)

  pub All-In {κ} : (P : A → Type κ) {a : A} (xs : List A) → All P xs → In a xs → P a
  All-In P [] h m = elim m [ ]
  All-In P {a} (x ∷ xs) h (inl e) = subst P (sym e) h.0
  All-In P (x ∷ xs) h (inr m) = All-In P xs h.1 m

  pub In-append_last : (xs : List A) (a : A) → In a (xs ++ a ∷ [])
  In-append_last [] a = inl refl
  In-append_last (x ∷ xs) a = inr (In-append_last xs a)

  pub In-filter_by : (p : A → Bool) (a : A) (xs : List A) → In a (filter_by p xs) → In a xs
  In-filter_by p a [] m = elim m [ ]
  In-filter_by p a (x ∷ xs) m = elim (Bool-cases (p x)) [
    | inl kept ↦ elim (In-inv (filter_by p xs) (rw kept at m)) [
      | inl e ↦ inl e
      | inr m' ↦ inr (In-filter_by p a xs m')
    ]
    | inr dropped ↦ inr (In-filter_by p a xs (rw dropped at m))
  ]
    where
      In-inv : (ys : List A) → In a (x ∷ ys) → (a ≡ x) ⊎ In a ys
      In-inv ys n = n

module _ {A : Type 0} where
  pub found-All :
      (P : A → Type 0) (p : A → Bool) (rows : List A) (a : A)
      → All P rows
      → find_by p rows ≡ some a
      → P a
  found-All P p [] a h e = cc
  found-All P p (b ∷ rows) a h e = elim (Bool-cases (p b)) [
    | inl hit ↦ subst P (some_inj (rw hit at e)) h.0
    | inr miss ↦ found-All P p rows a h.1 (rw miss at e)
  ]

  pub found_passes : (p : A → Bool) (rows : List A) (a : A) → find_by p rows ≡ some a → p a ≡ true
  found_passes p [] a e = cc
  found_passes p (b ∷ rows) a e = elim (Bool-cases (p b)) [
    | inl hit ↦ subst (λ (x : A). p x ≡ true) (some_inj (rw hit at e)) hit
    | inr miss ↦ found_passes p rows a (rw miss at e)
  ]
