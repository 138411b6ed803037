-- ===== src/Prelude/Python.antt =====
-- The methods of Python's `str` that the services call: `strip`, `lower` as far as it meets ASCII
-- letters, `partition(":")` and `split(",")`.
use Prim.Native.Nat.{ℕ, zero, suc, ◌+◌, ◌-◌, ◌*◌}
use Prim.Native.Char.{Char, code}
use Prim.Native.String.{String, ◌++◌}
use mathlib.Core.Path.{◌≡◌, refl}
use mathlib.Core.Bool.{Bool, true, false, ◌||◌, ◌&&◌}
use mathlib.Core.List.{List, [], ◌∷◌}
use mathlib.Core.Option.{Option, none, some}
use open_mesh_ai.Prelude.Int.{ℤ, pos, neg}
use open_mesh_ai.Prelude.Text.{codes}
use open_mesh_ai.Prelude.Tests.{leb, ◌==◌, if◌then◌else◌}

-- `str.isspace` of a character.
abbrev pub is_space_code : ℕ → Bool
is_space_code c =
    (leb 9 c && leb c 13)
    || (leb 28 c && leb c 32)
    || c == 133
    || c == 160
    || c == 5760
    || (leb 8192 c && leb c 8202)
    || c == 8232
    || c == 8233
    || c == 8239
    || c == 8287
    || c == 12288

unfoldable pub lstrip : String → String
lstrip String.[] = String.[]
lstrip (String.◌∷◌ c s) =
    let rest = lstrip s in if is_space_code (code c) then rest else String.◌∷◌ c s

unfoldable pub rstrip : String → String
rstrip String.[] = String.[]
rstrip (String.◌∷◌ c s) = elim (rstrip s) [
  | String.[] ↦ if is_space_code (code c) then String.[] else String.◌∷◌ c String.[]
  | String.◌∷◌ d t ↦ String.◌∷◌ c (String.◌∷◌ d t)
]

abbrev pub strip : String → String
strip s = rstrip (lstrip s)

-- `text.partition(sep)` without the separator: a text that holds none has an empty rest.
unfoldable pub partition : ℕ → String → String × String
partition sep String.[] = (String.[], String.[])
partition sep (String.◌∷◌ c s) =
    let (before, after) = partition sep s in
    if code c == sep then (String.[], s) else (String.◌∷◌ c before, after)

abbrev pub onto_first : Char → List String → List String
onto_first c [] = String.◌∷◌ c String.[] ∷ []
onto_first c (s ∷ parts) = String.◌∷◌ c s ∷ parts

-- `text.split(sep)`: an empty text is one empty part.
unfoldable pub split : ℕ → String → List String
split sep String.[] = String.[] ∷ []
split sep (String.◌∷◌ c s) =
    let parts = split sep s in if code c == sep then String.[] ∷ parts else onto_first c parts

-- `lower` of an ASCII letter. No other character is lowered to one of the letters of a text that the
-- services compare with.
abbrev pub lower_code : ℕ → ℕ
lower_code c = if leb b'A' c && leb c b'Z' then c + 32 else c

abbrev pub lower_is : List ℕ → List ℕ → Bool
lower_is [] [] = true
lower_is (c ∷ cs) (d ∷ ds) = lower_code c == d && lower_is cs ds
lower_is _ _ = false

-- `value.strip().lower() in {"1", "true", "yes", "on"}`
unfoldable pub is_on : String → Bool
is_on value =
    let text = codes (strip value) in
    lower_is text (codes "1")
    || lower_is text (codes "true")
    || lower_is text (codes "yes")
    || lower_is text (codes "on")

-- The rest of a decimal literal: digits, and one `_` between two of them.
unfoldable pub digits_from : Bool → ℕ → List ℕ → Option ℕ
digits_from after_digit acc [] = if after_digit then some acc else none
digits_from after_digit acc (c ∷ s) = elim (leb b'0' c && leb c b'9') [
  | true ↦ digits_from true (10 * acc + (c - b'0')) s
  | false ↦ elim (c == b'_' && after_digit) [ true ↦ digits_from false acc s | false ↦ none ]
]

unfoldable pub signed_digits : List ℕ → Option ℤ
signed_digits [] = none
signed_digits (c ∷ s) =
    if c == b'-'
    then (elim (digits_from false 0 s) [ none ↦ none | some n ↦ some (neg (pos n)) ])
    else (elim (digits_from false 0 (if c == b'+' then s else c ∷ s)) [
      | none ↦ none
      | some n ↦ some (pos n)
    ])

-- `int(text)` of a text of ASCII characters; `none` is `ValueError`.
unfoldable pub int_of_text : String → Option ℤ
int_of_text text = signed_digits (codes (strip text))

int_of_text_samples :
    (int_of_text " -1_20 " ≡ some (neg (pos 120)))
    × (int_of_text "1__0" ≡ none)
    × (int_of_text "" ≡ none)
unfolding int_of_text lstrip rstrip digits_from signed_digits
int_of_text_samples = (refl, refl, refl)

is_on_samples : (is_on " Yes" ≡ true) × (is_on "yes!" ≡ false)
unfolding is_on lstrip rstrip
is_on_samples = (refl, refl)

-- `text[:n]`
unfoldable pub take_text : ℕ → String → String
take_text zero s = String.[]
take_text (suc n) String.[] = String.[]
take_text (suc n) (String.◌∷◌ c s) = String.◌∷◌ c (take_text n s)

-- `sep.join(parts)`
unfoldable pub join : String → List String → String
join sep [] = ""
join sep (part ∷ []) = part
join sep (part ∷ other ∷ parts) = part ++ (sep ++ join sep (other ∷ parts))

split_strip : split 44 "a, b,," ≡ "a" ∷ " b" ∷ "" ∷ "" ∷ []
unfolding split
split_strip = refl

strip_both : strip "  a b  " ≡ "a b"
unfolding lstrip rstrip
strip_both = refl

partition_once : partition 58 "a:b:c" ≡ ("a", "b:c")
unfolding partition
partition_once = refl
