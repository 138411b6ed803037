-- ===== src/Engine/Read.antt =====
-- What the tests of engine.py on a request's values tell: a text that is not blank, a list of texts
-- that is not empty, the action.
use open_mesh_ai.Prelude.{
  ◌≡◌, ◌≢◌, ◌⊎◌, refl, true, false, Option, none, some, List, [], ◌∷◌, String, str_eq_iff, str_eq,
  is_empty, strip, Bool-cases, inl, inr, ap,
}
use open_mesh_ai.Json.{Json, str, arr, Items, nil, cons}
use open_mesh_ai.Engine.Requests.{text_of_value, strings_of, texts_of_value, is_action}

abbrev pub items_of : List String → Items
items_of [] = nil
items_of (s ∷ ss) = cons (str s) (items_of ss)

pub text_of_value_cases :
    (v : Option Json)
    → ((text : String) × (text_of_value v ≡ some text)
        × (v ≡ some (str text))
        × (is_empty (strip text) ≡ false))
      ⊎ ((text_of_value v ≡ none)
          × ((text : String) → ¬ ((v ≡ some (str text)) × (is_empty (strip text) ≡ false))))
text_of_value_cases (some (str s)) = elim (Bool-cases (is_empty (strip s))) [
  | inl blank ↦ inr (rw blank, λ text h. let same : s ≡ text = cc in cc)
  | inr full ↦ inl (s, rw full, refl, full)
]
text_of_value_cases none = inr (refl, λ text h. cc)
text_of_value_cases (some v) = inr (refl, λ text h. cc)

not_texts :
    (x : Json) (xs : Items)
    → ((s : String) → x ≢ str s)
    → (ss : List String) → cons x xs ≢ items_of ss
not_texts x xs never [] h = cc
not_texts x xs never (s ∷ ss) h = never s cc

not_more :
    (s : String) (xs : Items)
    → ((ss : List String) → xs ≢ items_of ss)
    → (ss : List String) → cons (str s) xs ≢ items_of ss
not_more s xs never [] h = cc
not_more s xs never (t ∷ ts) h = never ts cc

strings_of_cases :
    (v : Items)
    → ((ss : List String) × (strings_of v ≡ some ss) × (v ≡ items_of ss))
      ⊎ ((strings_of v ≡ none) × ((ss : List String) → v ≢ items_of ss))
strings_of_cases nil = inl ([], refl, refl)
strings_of_cases (cons (str s) xs) = elim (strings_of_cases xs) [
  | inl (ss, e, same) ↦ inl (s ∷ ss, rw e, ap (cons (str s)) same)
  | inr (e, never) ↦ inr (rw e, not_more s xs never)
]
strings_of_cases (cons x xs) = inr (refl, not_texts _ xs (λ s h. cc))

pub texts_of_value_cases :
    (v : Option Json)
    → ((t : String) × (ts : List String) × (texts_of_value v ≡ some (t ∷ ts))
        × (v ≡ some (arr (items_of (t ∷ ts)))))
      ⊎ ((texts_of_value v ≡ none)
          × ((t : String) (ts : List String) → v ≢ some (arr (items_of (t ∷ ts)))))
texts_of_value_cases (some (arr nil)) = inr (refl, λ t ts h. cc)
texts_of_value_cases (some (arr (cons x xs))) = elim (strings_of_cases (cons x xs)) [
  | inl ([], e, same) ↦ cc
  | inl (t ∷ ts, e, same) ↦ inl (t, ts, e, ap (λ (y : Items). some (arr y)) same)
  | inr (e, never) ↦ inr (e, λ t ts h. never (t ∷ ts) cc)
]
texts_of_value_cases none = inr (refl, λ t ts h. cc)
texts_of_value_cases (some v) = inr (refl, λ t ts h. cc)

pub is_action_cases :
    (name : String) (v : Option Json)
    → ((is_action name v ≡ true) × (v ≡ some (str name)))
      ⊎ ((is_action name v ≡ false) × (v ≢ some (str name)))
is_action_cases name (some (str s)) = elim (Bool-cases (str_eq s name)) [
  | inl hit ↦ inl (hit, ap (λ (t : String). some (str t)) ((str_eq_iff s name).0 hit))
  | inr miss ↦
      inr (miss, λ h. let same : s ≡ name = cc in let hit = (str_eq_iff s name).1 same in cc)
]
is_action_cases name none = inr (refl, λ h. cc)
is_action_cases name (some v) = inr (refl, λ h. cc)
