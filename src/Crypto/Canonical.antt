-- ===== src/Crypto/Canonical.antt =====
-- `canonical_json` of protocol_crypto.py: keys in order at every level, no spaces, UTF-8.
use open_mesh_ai.Prelude.{
  ℕ, ◌+◌, ◌/◌, ◌%◌, ◌≡◌, refl, Bool, true, false, ◌&&◌, ◌||◌, List, [], ◌∷◌, ◌++◌, String, pos, ltb,
  ◌==◌, if◌then◌else◌, codes,
}
use open_mesh_ai.Json.{
  Json, null, bool, int, float, str, arr, obj, Items, nil, cons, Fields, end, field, dumps,
}

-- Python orders texts by their code points.
abbrev pub codes_lt : List ℕ → List ℕ → Bool
codes_lt [] [] = false
codes_lt [] (d ∷ t) = true
codes_lt (c ∷ s) [] = false
codes_lt (c ∷ s) (d ∷ t) = let rest = codes_lt s t in ltb c d || (c == d && rest)

-- Keys of a `dict` differ, so where a new one stands is settled.
unfoldable pub insert_field : String → Json → Fields → Fields
insert_field k v end = field k v end
insert_field k v (field j w d) =
    let rest = insert_field k v d in
    if codes_lt (codes j) (codes k) then field j w rest else field k v (field j w d)

unfoldable mutual
  unfolding insert_field

  pub sort_keys : Json → Json
  sort_keys null = null
  sort_keys (bool b) = bool b
  sort_keys (int z) = int z
  sort_keys (float r) = float r
  sort_keys (str s) = str s
  sort_keys (arr xs) = arr (sort_items xs)
  sort_keys (obj d) = obj (sort_fields d)

  pub sort_items : Items → Items
  sort_items nil = nil
  sort_items (cons v xs) = cons (sort_keys v) (sort_items xs)

  pub sort_fields : Fields → Fields
  sort_fields end = end
  sort_fields (field k v d) = insert_field k (sort_keys v) (sort_fields d)

-- The bytes of a code point, by its size.
encode_code : ℕ → List ℕ
encode_code c =
    if ltb c 0x80
    then c ∷ []
    else if ltb c 0x800
    then (0xc0 + c / 64) ∷ (0x80 + c % 64) ∷ []
    else if ltb c 0x10000
    then (0xe0 + c / 4096) ∷ (0x80 + c / 64 % 64) ∷ (0x80 + c % 64) ∷ []
    else (0xf0 + c / 262144) ∷ (0x80 + c / 4096 % 64) ∷ (0x80 + c / 64 % 64) ∷ (0x80 + c % 64) ∷ []

unfoldable pub encode_utf8 : List ℕ → List ℕ
unfolding encode_code
encode_utf8 [] = []
encode_utf8 (c ∷ s) = encode_code c ++ encode_utf8 s

unfoldable pub canonical_json : Json → List ℕ
canonical_json v = encode_utf8 (dumps (sort_keys v))

canonical_sample :
    canonical_json (obj (field "nonce" (str "é") (field "id" (int (pos 7)) end)))
    ≡ codes "{\"id\":7,\"nonce\":\"" ++ 0xc3 ∷ 0xa9 ∷ codes "\"}"
unfolding canonical_json sort_keys sort_items sort_fields dumps encode_utf8
canonical_sample = refl
