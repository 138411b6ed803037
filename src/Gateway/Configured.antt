-- ===== src/Gateway/Configured.antt =====
-- The table of keys that `load_settings` of pool-gateway/app/main.py reads.
use open_mesh_ai.Prelude.{
  ◌≡◌, refl, Bool, true, false, ◌||◌, some, List, [], ◌∷◌, String, In, ◌⊎◌, inl, inr, sym, ◌∙◌,
  Bool-cases, arith, if◌then◌else◌, strip, split, partition, is_empty, some_inj, str_eq, str_eq_iff,
}
use open_mesh_ai.Gateway.Settings.{client_of, put_client, add_item, add_items, api_keys_of}

-- The item gives the key to the client: neither side of its first colon is empty.
abbrev pub Configures : String → String → String → Type 0
Configures item key client_id =
    (strip (partition b':' item).0 ≡ client_id)
    × (strip (partition b':' item).1 ≡ key)
    × (is_empty (partition b':' item).0 ≡ false)
    × (is_empty (partition b':' item).1 ≡ false)

pub client_of-put_client :
    (key k c : String) (keys : List (String × String))
    → client_of key (put_client k c keys) ≡ (if str_eq k key then some c else client_of key keys)
client_of-put_client key k c [] = refl
client_of-put_client key k c ((j, d) ∷ keys) =
    ground
      (arith, str_eq_iff k key, str_eq_iff j k, str_eq_iff j key, client_of-put_client key k c keys)

neither : (a b c : Bool) → (a || (b || c)) ≡ false → (b ≡ false) × (c ≡ false)
neither false false false h = (refl, refl)
neither true b c h = cc
neither false true c h = cc
neither false false true h = cc

add_item-found :
    (item : String) (keys : List (String × String)) (key client_id : String)
    → client_of key (add_item item keys) ≡ some client_id
    → (client_of key keys ≡ some client_id) ⊎ Configures item key client_id
add_item-found item keys key client_id h =
    let (client, api_key) = partition b':' item in
    elim (Bool-cases (is_empty (strip item) || (is_empty client || is_empty api_key))) [
      | inl skipped ↦ inl (rw skipped at h)
      | inr taken ↦
          let put =
            sym (client_of-put_client key (strip api_key) (strip client) keys) ∙ rw taken at h in
          elim (Bool-cases (str_eq (strip api_key) key)) [
            | inl same ↦
                let (named, keyed) = neither _ _ _ taken in
                inr (some_inj (rw same at put), (str_eq_iff _ _).0 same, named, keyed)
            | inr other ↦ inl (rw other at put)
          ]
    ]

add_items-found :
    (items : List String) (keys : List (String × String)) (key client_id : String)
    → client_of key (add_items items keys) ≡ some client_id
    → (client_of key keys ≡ some client_id)
      ⊎ ((item : String) × In item items × Configures item key client_id)
add_items-found [] keys key client_id h = inl h
add_items-found (item ∷ items) keys key client_id h =
    elim (add_items-found items (add_item item keys) key client_id h) [
      | inl early ↦ elim (add_item-found item keys key client_id early) [
        | inl before ↦ inl before
        | inr here ↦ inr (item, inl refl, here)
      ]
      | inr (later, member, configures) ↦ inr (later, inr member, configures)
    ]

-- Every key of the table stands in the configuration: it is what follows the first colon of one of the
-- items between commas, and the client's name what stands before it, both stripped.
pub api_keys_of-configured :
    (raw_keys key client_id : String)
    → client_of key (api_keys_of raw_keys) ≡ some client_id
    → (item : String) × In item (split b',' raw_keys) × Configures item key client_id
unfolding api_keys_of
api_keys_of-configured raw_keys key client_id h =
    elim (add_items-found (split b',' raw_keys) [] key client_id h) [
      | inl nothing ↦ cc
      | inr found ↦ found
    ]
