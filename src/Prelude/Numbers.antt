-- ===== src/Prelude/Numbers.antt =====
-- `int(str(n))` is `n`: the decimal text of a number is read back.
use Prim.Native.Nat.{ℕ, zero, suc, ◌+◌, ◌*◌, ◌/◌, ◌%◌, ◌<◌, ◌≤◌}
use Prim.Native.Char.{code}
use Prim.Native.String.{String}
use Prim.Native.String.append
use mathlib.Core.Path.{◌≡◌, refl, ap, sym, ◌∙◌}
use mathlib.Core.Logic.{inl, inr}
use mathlib.Core.Bool.{Bool, true, false}
use mathlib.Core.Option.{some}
use mathlib.Core.List.{List, [], ◌∷◌, ◌++◌, append_assoc}
use native.Mathlib.Omega.{arith}
use open_mesh_ai.Prelude.Tests.{ltb, le→leb, ◌==◌, if◌then◌else◌, Bool-cases}
use open_mesh_ai.Prelude.Lists.{All}
use open_mesh_ai.Prelude.Int.{pos}
use open_mesh_ai.Prelude.Text.{codes, append_text, digit_text, number_text, text_of}
use open_mesh_ai.Prelude.Python.{
  is_space_code, lstrip, rstrip, digits_from, signed_digits, int_of_text,
}

abbrev IsDigit : ℕ → Type 0
IsDigit c = (48 ≤ c) × (c ≤ 57)

codes-append : (s t : String) → codes (append_text s t) ≡ codes s ++ codes t
codes-append String.[] t = ap codes (append.nil t)
codes-append (String.◌∷◌ c s) t =
    ap codes (append.cons c s t) ∙ ap (λ cs. code c ∷ cs) (codes-append s t)

digit_code : (d : ℕ) → d < 10 → codes (digit_text d) ≡ (48 + d) ∷ []
unfolding digit_text
digit_code zero h = refl
digit_code (suc zero) h = refl
digit_code (suc (suc zero)) h = refl
digit_code (suc (suc (suc zero))) h = refl
digit_code (suc (suc (suc (suc zero)))) h = refl
digit_code (suc (suc (suc (suc (suc zero))))) h = refl
digit_code (suc (suc (suc (suc (suc (suc zero)))))) h = refl
digit_code (suc (suc (suc (suc (suc (suc (suc zero))))))) h = refl
digit_code (suc (suc (suc (suc (suc (suc (suc (suc zero)))))))) h = refl
digit_code (suc (suc (suc (suc (suc (suc (suc (suc (suc zero))))))))) h = refl
digit_code (suc (suc (suc (suc (suc (suc (suc (suc (suc (suc d)))))))))) h = absurd (omega arith)

digits_from-digit :
    (b : Bool) (acc d : ℕ) (rest : List ℕ)
    → d < 10
    → digits_from b acc (codes (digit_text d) ++ rest) ≡ digits_from true (10 * acc + d) rest
unfolding digits_from
digits_from-digit b acc d rest h = rw (digit_code d h) (
    rw (le→leb 48 (48 + d) (omega arith), le→leb (48 + d) 57 (omega arith), digits_from)
      (ap (λ k. digits_from true k rest) (omega arith)))

number_text-small : (f n : ℕ) → ltb n 10 ≡ true → number_text (suc f) n ≡ digit_text n
unfolding number_text
number_text-small f n h = rw (h, number_text)

number_text-large :
    (f n : ℕ)
    → ltb n 10 ≡ false
    → codes (number_text (suc f) n) ≡ codes (number_text f (n / 10)) ++ codes (digit_text (n % 10))
unfolding number_text
number_text-large f n h =
    rw (h, number_text) (codes-append (number_text f (n / 10)) (digit_text (n % 10)))

-- The text of a number is read as the number, whatever follows.
digits_from-number_text :
    (f n : ℕ) (b : Bool) (rest : List ℕ)
    → n < f
    → digits_from b 0 (codes (number_text f n) ++ rest) ≡ digits_from true n rest
unfolding number_text
digits_from-number_text zero n b rest h = absurd (omega arith)
digits_from-number_text (suc f) n b rest h = elim (Bool-cases (ltb n 10)) [
  | inl small ↦ rw (number_text-small f n small) (
      digits_from-digit b 0 n rest (ground arith) ∙ ap (λ k. digits_from true k rest) (omega arith))
  | inr large ↦ rw (number_text-large f n large) (
      ap (digits_from b 0)
        (append_assoc (codes (number_text f (n / 10))) (codes (digit_text (n % 10))) rest)
      ∙ digits_from-number_text f (n / 10) b (codes (digit_text (n % 10)) ++ rest) (ground arith)
      ∙ digits_from-digit true (n / 10) (n % 10) rest (omega arith)
      ∙ ap (λ k. digits_from true k rest) (omega arith))
]

All-append : (xs ys : List ℕ) → All IsDigit xs → All IsDigit ys → All IsDigit (xs ++ ys)
All-append [] ys h k = k
All-append (x ∷ xs) ys h k = (h.0, All-append xs ys h.1 k)

digit_text-All : (d : ℕ) → d < 10 → All IsDigit (codes (digit_text d))
digit_text-All d h = rw (digit_code d h) ((omega arith, omega arith), tt)

number_text-All : (f n : ℕ) → All IsDigit (codes (number_text f n))
unfolding number_text
number_text-All zero n = tt
number_text-All (suc f) n = elim (Bool-cases (ltb n 10)) [
  | inl small ↦ rw (number_text-small f n small) (digit_text-All n (ground arith))
  | inr large ↦
      rw (number_text-large f n large)
        (All-append _ _ (number_text-All f (n / 10)) (digit_text-All (n % 10) (omega arith)))
]

digit_no_space : (c : ℕ) → IsDigit c → is_space_code c ≡ false
digit_no_space c h = ground arith

lstrip-digits : (s : String) → All IsDigit (codes s) → lstrip s ≡ s
unfolding lstrip
lstrip-digits String.[] h = refl
lstrip-digits (String.◌∷◌ c s) h = rw (digit_no_space (code c) h.0)

rstrip-digits : (s : String) → All IsDigit (codes s) → rstrip s ≡ s
unfolding rstrip
rstrip-digits String.[] h = refl
rstrip-digits (String.◌∷◌ c s) h = rw (rstrip-digits s h.1) (kept s)
  where
    kept :
        (t : String)
        → (elim t [
          | String.[] ↦ if is_space_code (code c) then String.[] else String.◌∷◌ c String.[]
          | String.◌∷◌ d u ↦ String.◌∷◌ c (String.◌∷◌ d u)
        ])
          ≡ String.◌∷◌ c t
    kept String.[] = rw (digit_no_space (code c) h.0)
    kept (String.◌∷◌ d u) = refl

signed_digits-digits :
    (cs : List ℕ) (n : ℕ)
    → All IsDigit cs
    → digits_from false 0 cs ≡ some n
    → signed_digits cs ≡ some (pos n)
unfolding signed_digits digits_from
signed_digits-digits [] n h e = cc
signed_digits-digits (c ∷ cs) n h e =
    let no_minus : (c == 45) ≡ false = let (low, high) = h.0 in ground arith in
    let no_plus : (c == 43) ≡ false = let (low, high) = h.0 in ground arith in
    rw (no_minus, no_plus, e)

append_nil : (xs : List ℕ) → xs ++ [] ≡ xs
append_nil [] = refl
append_nil (x ∷ xs) = ap (λ l. x ∷ l) (append_nil xs)

pub int_of_text-text_of : (n : ℕ) → int_of_text (text_of n) ≡ some (pos n)
unfolding int_of_text text_of digits_from
int_of_text-text_of n =
    let digits = number_text-All (suc n) n in
    let whole =
      ap (digits_from false 0) (sym (append_nil (codes (number_text (suc n) n))))
      ∙ digits_from-number_text (suc n) n false [] (omega arith) in
    rw (lstrip-digits (number_text (suc n) n) digits, rstrip-digits (number_text (suc n) n) digits)
      (signed_digits-digits _ n digits whole)
