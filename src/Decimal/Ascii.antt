-- ===== src/Decimal/Ascii.antt =====
-- The digits that `Decimal(text)` reads beside those of ASCII: the decimal digits of Unicode 14, with
-- which Python 3.11 comes. Each set is ten characters from its zero on.
use open_mesh_ai.Prelude.{ℕ, ◌+◌, ◌-◌, ◌≡◌, refl, ◌&&◌, List, [], ◌∷◌, ltb, leb, if◌then◌else◌}

abbrev digit_zeros : List ℕ
digit_zeros =
    1632 ∷ 1776 ∷ 1984 ∷ 2406 ∷ 2534 ∷ 2662 ∷ 2790 ∷ 2918 ∷ 3046 ∷ 3174 ∷ 3302 ∷ 3430 ∷ 3558 ∷ 3664
    ∷ 3792 ∷ 3872 ∷ 4160 ∷ 4240 ∷ 6112 ∷ 6160 ∷ 6470 ∷ 6608 ∷ 6784 ∷ 6800 ∷ 6992 ∷ 7088 ∷ 7232
    ∷ 7248 ∷ 42528 ∷ 43216 ∷ 43264 ∷ 43472 ∷ 43504 ∷ 43600 ∷ 44016 ∷ 65296 ∷ 66720 ∷ 68912 ∷ 69734
    ∷ 69872 ∷ 69942 ∷ 70096 ∷ 70384 ∷ 70736 ∷ 70864 ∷ 71248 ∷ 71360 ∷ 71472 ∷ 71904 ∷ 72016 ∷ 72784
    ∷ 73040 ∷ 73120 ∷ 92768 ∷ 92864 ∷ 93008 ∷ 120782 ∷ 120792 ∷ 120802 ∷ 120812 ∷ 120822 ∷ 123200
    ∷ 123632 ∷ 125264 ∷ 130032 ∷ []

digit_from : List ℕ → ℕ → ℕ
digit_from [] c = c
digit_from (z ∷ zs) c =
    let rest = digit_from zs c in if leb z c && leb c (z + 9) then b'0' + (c - z) else rest

-- The digit of ASCII for one of another set; every other character is what it was.
unfoldable pub ascii_of : ℕ → ℕ
unfolding digit_from
ascii_of c = if ltb c 128 then c else digit_from digit_zeros c

full_width_two : ascii_of 65298 ≡ b'2'
unfolding ascii_of
full_width_two = refl
