-- ===== src/Verification/Similarity.antt =====
-- `cosine_similarity` and `_extract_embedding` of verification.py.
use open_mesh_ai.Prelude.{
  ℕ, suc, true, false, not, ◌||◌, Option, none, some, List, [], ◌∷◌, pos, ◌==◌, if◌then◌else◌,
  ◌>>=◌,
}
use open_mesh_ai.Json.{Json, null, bool, int, float, str, arr, obj, Items, nil, cons, Fields, get}
use open_mesh_ai.Verification.Floats.{Floats}

-- What `result.output` may be: a `dict`, or `None`.
abbrev pub object_of : Option Fields → Json
object_of none = null
object_of (some d) = obj d

abbrev pub embedding_or : Fields → Option Json → Json
embedding_or d (some (arr xs)) = arr xs
embedding_or d _ = obj d

-- The list under `embedding`, if the output is a `dict` with one; else the output as it is.
unfoldable pub extract_embedding : Json → Json
extract_embedding (obj d) = embedding_or d (get "embedding" d)
extract_embedding null = null
extract_embedding (bool b) = bool b
extract_embedding (int z) = int z
extract_embedding (float r) = float r
extract_embedding (str s) = str s
extract_embedding (arr xs) = arr xs

module _ {F : Type 0} (fl : Floats F) where
  -- `_safe_float`; a `bool` is an `int`.
  unfoldable pub safe_float : Json → Option F
  safe_float (int z) = some (fl.of_int z)
  safe_float (float r) = some (fl.of_text r)
  safe_float (bool true) = some (fl.of_int (pos 1))
  safe_float (bool false) = some (fl.of_int (pos 0))
  safe_float null = none
  safe_float (str s) = none
  safe_float (arr xs) = none
  safe_float (obj d) = none

  -- All items as floats, or `none` if one is no number.
  unfoldable pub floats_of : Items → Option (List F)
  floats_of nil = some []
  floats_of (cons v xs) = do x ← safe_float v; rest ← floats_of xs; some (x ∷ rest)

  -- `sum(a * b for a, b in zip(left, right))`, from the left.
  unfoldable pub dot_from : F → List F → List F → F
  dot_from acc (a ∷ left) (b ∷ right) = dot_from (fl.add acc (fl.mul a b)) left right
  dot_from acc _ _ = acc

  abbrev pub dot : List F → List F → F
  dot = dot_from fl.zero

  -- The quotient of the two lists; the outer `none` is `ZeroDivisionError`.
  unfoldable pub cosine_of : List F → List F → Option (Option F)
  cosine_of left right =
      let norm_1 = fl.sqrt (dot left left) in
      let norm_2 = fl.sqrt (dot right right) in
      if fl.is_zero norm_1 || fl.is_zero norm_2
      then some none
      else (fl.div (dot left right) (fl.mul norm_1 norm_2) >>= λ q. some (some q))

  abbrev pub cosine_if : Option (List F) → Option (List F) → Option (Option F)
  cosine_if (some left) (some right) = cosine_of left right
  cosine_if _ _ = some none

  abbrev pub count_items : Items → ℕ
  count_items nil = 0
  count_items (cons v xs) = suc (count_items xs)

  -- The inner `none` is the `None` that the function returns.
  unfoldable pub cosine_similarity : Json → Json → Option (Option F)
  cosine_similarity (arr xs) (arr ys) =
      if count_items xs == 0 || not (count_items xs == count_items ys)
      then some none
      else cosine_if (floats_of xs) (floats_of ys)
  cosine_similarity _ _ = some none
