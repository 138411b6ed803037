-- ===== src/Json/Dumps.antt =====
-- `json.dumps(value, ensure_ascii=False, separators=(",", ":"))` as a list of code points.
use open_mesh_ai.Prelude.{
  ℕ, zero, suc, ◌+◌, ◌-◌, ◌/◌, ◌%◌, ◌≡◌, refl, Bool, true, false, ◌||◌, List, [], ◌∷◌, ◌++◌, String,
  ℤ, pos, negsuc, ltb, ◌==◌, if◌then◌else◌, codes, str_eq,
}
use open_mesh_ai.Json.Data.{
  Json, null, bool, int, float, str, arr, obj, Items, nil, cons, Fields, end, field,
}

-- Decimal digits, least significant first; `n + 1` rounds are enough.
digits_rev : ℕ → ℕ → List ℕ
digits_rev zero n = []
digits_rev (suc f) n = elim (ltb n 10) [
  | true ↦ (b'0' + n) ∷ []
  | false ↦ (b'0' + n % 10) ∷ digits_rev f (n / 10)
]

append_rev : List ℕ → List ℕ → List ℕ
append_rev [] acc = acc
append_rev (c ∷ s) acc = append_rev s (c ∷ acc)

abbrev digits : ℕ → List ℕ
digits n = append_rev (digits_rev (suc n) n) []

int_text : ℤ → List ℕ
int_text (pos n) = digits n
int_text (negsuc n) = b'-' ∷ digits (suc n)

hex_digit : ℕ → ℕ
hex_digit n = if ltb n 10 then b'0' + n else b'a' + n - 10

-- One character inside a string literal.
escape : ℕ → List ℕ
escape c =
    if c == 34 || c == 92
    then 92 ∷ c ∷ []
    else if c == 10
    then codes "\\n"
    else if c == 13
    then codes "\\r"
    else if c == 9
    then codes "\\t"
    else if c == 8
    then codes "\\b"
    else if c == 12
    then codes "\\f"
    else if ltb c 32
    then codes "\\u00" ++ (hex_digit (c / 16) ∷ hex_digit (c % 16) ∷ [])
    else c ∷ []

escape_all : List ℕ → List ℕ
escape_all [] = []
escape_all (c ∷ s) = escape c ++ escape_all s

quoted : String → List ℕ
quoted s = 34 ∷ (escape_all (codes s) ++ 34 ∷ [])

-- A `float` from its `repr`: the infinities and NaN have other names.
float_text : String → List ℕ
float_text r =
    if str_eq r "inf"
    then codes "Infinity"
    else if str_eq r "-inf"
    then codes "-Infinity"
    else if str_eq r "nan"
    then codes "NaN"
    else codes r

unfoldable mutual
  unfolding float_text quoted escape_all escape hex_digit int_text append_rev digits_rev

  pub dumps : Json → List ℕ
  dumps null = codes "null"
  dumps (bool true) = codes "true"
  dumps (bool false) = codes "false"
  dumps (int z) = int_text z
  dumps (float r) = float_text r
  dumps (str s) = quoted s
  dumps (arr xs) = b'[' ∷ (dumps_items true xs ++ b']' ∷ [])
  dumps (obj d) = b'{' ∷ (dumps_fields true d ++ b'}' ∷ [])

  pub dumps_items : Bool → Items → List ℕ
  dumps_items first nil = []
  dumps_items first (cons v xs) =
      (if first then [] else b',' ∷ []) ++ (dumps v ++ dumps_items false xs)

  pub dumps_fields : Bool → Fields → List ℕ
  dumps_fields first end = []
  dumps_fields first (field k v d) =
      (if first then [] else b',' ∷ []) ++ (quoted k ++ (b':' ∷ (dumps v ++ dumps_fields false d)))

dumps_sample :
    dumps (
      obj (
        field "a"
          (arr (cons (int (negsuc 11)) (cons (str "x\n") nil)))
          (field "b" (float "inf") end)))
    ≡ codes "{\"a\":[-12,\"x\\n\"],\"b\":Infinity}"
unfolding dumps dumps_items dumps_fields
dumps_sample = refl
