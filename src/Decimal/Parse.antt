-- ===== src/Decimal/Parse.antt =====
-- The text that `Decimal(text)` reads: a sign, digits with a point, an exponent; `Infinity` and
-- `NaN`. `none` is `InvalidOperation`, an `ArithmeticError`.
use open_mesh_ai.Prelude.{
  ℕ, ◌+◌, ◌-◌, ◌*◌, ◌^◌, ◌≡◌, refl, Bool, true, false, not, ◌&&◌, ◌||◌, Option, none, some, List,
  [], ◌∷◌, ◌++◌, String, ℤ, pos, neg, leb, ◌==◌, if◌then◌else◌, codes, length, filter_by, negsuc,
  map, is_space_code,
}
use open_mesh_ai.Decimal.Ascii.{ascii_of}
use open_mesh_ai.Decimal.Order.{Decimal, fin, infinity, nan}

abbrev codes_eq : List ℕ → List ℕ → Bool
codes_eq [] [] = true
codes_eq (x ∷ xs) (y ∷ ys) = x == y && codes_eq xs ys
codes_eq _ _ = false

is_digit : ℕ → Bool
is_digit c = leb b'0' c && leb c b'9'

to_lower : ℕ → ℕ
to_lower c = if leb b'A' c && leb c b'Z' then c + 32 else c

lower_all : List ℕ → List ℕ
lower_all [] = []
lower_all (c ∷ s) = to_lower c ∷ lower_all s

strip_front : List ℕ → List ℕ
strip_front [] = []
strip_front (c ∷ s) = let rest = strip_front s in if is_space_code c then rest else c ∷ s

-- `strip` at the end: the text up to its last character that is no space.
strip_back : List ℕ → List ℕ
strip_back [] = []
strip_back (c ∷ s) = elim (strip_back s) [
  | [] ↦ if is_space_code c then [] else c ∷ []
  | d ∷ t ↦ c ∷ d ∷ t
]

-- The leading digits and the rest.
span_digits : List ℕ → List ℕ × List ℕ
span_digits [] = ([], [])
span_digits (c ∷ s) =
    let (ds, rest) = span_digits s in if is_digit c then (c ∷ ds, rest) else ([], c ∷ s)

value_from : ℕ → List ℕ → ℕ
value_from acc [] = acc
value_from acc (c ∷ s) = value_from (10 * acc + (c - b'0')) s

sign_of : List ℕ → Bool × List ℕ
sign_of [] = (false, [])
sign_of (c ∷ s) = if c == b'-' then (true, s) else if c == b'+' then (false, s) else (false, c ∷ s)

signed : Bool → ℕ → ℤ
signed minus n = if minus then neg (pos n) else pos n

fraction_of : List ℕ → List ℕ × List ℕ
fraction_of [] = ([], [])
fraction_of (c ∷ s) = if c == b'.' then span_digits s else ([], c ∷ s)

-- coef * 10 ^ e, with `e` given as up - down
scaled : Bool → ℕ → ℕ → ℕ → Decimal
scaled minus n up down = fin (signed minus (n * 10 ^ (up - down))) (down - up)

exponent_of : Bool → ℕ → ℕ → List ℕ → Option Decimal
exponent_of minus n down [] = some (scaled minus n 0 down)
exponent_of minus n down (c ∷ s) =
    let (below, s') = sign_of s in
    let (ds, rest) = span_digits s' in
    if c == b'e' && (leb 1 (length ds) && leb (length rest) 0)
    then some (
        if below
        then scaled minus n 0 (down + value_from 0 ds)
        else scaled minus n (value_from 0 ds) down)
    else none

number_of : Bool → List ℕ → Option Decimal
number_of minus s =
    let (whole_digits, s') = span_digits s in
    let (places, s'') = fraction_of s' in
    if leb 1 (length (whole_digits ++ places))
    then exponent_of minus (value_from 0 (whole_digits ++ places)) (length places) s''
    else none

all_digits : List ℕ → Bool
all_digits [] = true
all_digits (c ∷ s) = is_digit c && all_digits s

-- The rest of `s` after the text `t`, if `s` begins with it.
after_prefix : List ℕ → List ℕ → Option (List ℕ)
after_prefix [] s = some s
after_prefix (c ∷ t) [] = none
after_prefix (c ∷ t) (d ∷ s) = if c == d then after_prefix t s else none

-- `NaN` and `sNaN` may carry a payload of digits.
nan_of : Bool → String → List ℕ → Option Decimal
nan_of signalling name s = elim (after_prefix (codes name) s) [
  | none ↦ none
  | some rest ↦ if all_digits rest then some (nan signalling) else none
]

or_else : Option Decimal → Option Decimal → Option Decimal
or_else none d = d
or_else (some d) _ = some d

text_of : Bool → List ℕ → Option Decimal
text_of minus s =
    if codes_eq s (codes "inf") || codes_eq s (codes "infinity")
    then some (infinity (not minus))
    else or_else (or_else (nan_of false "nan" s) (nan_of true "snan" s)) (number_of minus s)

unfoldable pub parse : String → Option Decimal
unfolding is_digit to_lower lower_all strip_front strip_back span_digits value_from sign_of ascii_of
    signed fraction_of scaled exponent_of number_of all_digits after_prefix nan_of or_else text_of
parse text =
    let s =
      lower_all
        (filter_by (λ c. not (c == b'_')) (map ascii_of (strip_back (strip_front (codes text))))) in
    let (minus, s') = sign_of s in text_of minus s'

parse_plain : parse " -12.50 " ≡ some (fin (negsuc 1249) 2)
unfolding parse
parse_plain = refl

parse_exponent : parse "1_0.5E+3" ≡ some (fin (pos 10500) 0)
unfolding parse
parse_exponent = refl

parse_nan : parse "NaN" ≡ some (nan false)
unfolding parse
parse_nan = refl

parse_bool : parse "True" ≡ none
unfolding parse
parse_bool = refl

-- Digits of full width.
parse_full_width : parse "１２.5" ≡ some (fin (pos 125) 1)
unfolding parse
parse_full_width = refl
