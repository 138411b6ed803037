-- ===== src/Json/Data.antt =====
-- JSON values and the `dict` operations on them.
use open_mesh_ai.Prelude.{
  ◌≡◌, refl, Bool, Option, none, some, String, ℤ, str_eq, str_eq_iff, if◌then◌else◌, arith,
}
use open_mesh_ai.Decimal.Order.{Decimal, fin}
use open_mesh_ai.Decimal.Parse.{parse}

mutual
  pub data Json : Type 0 where
    null : Json
    bool : Bool → Json
    int : ℤ → Json
    -- by its `repr`
    float : String → Json
    str : String → Json
    arr : Items → Json
    obj : Fields → Json

  pub data Items : Type 0 where
    nil : Items
    cons : Json → Items → Items

  pub data Fields : Type 0 where
    end : Fields
    field : String → Json → Fields → Fields

-- `d.get(key)`
unfoldable pub get : String → Fields → Option Json
get k end = none
get k (field j v d) = if str_eq j k then some v else get k d

-- `d[key] = value`
unfoldable pub put : String → Json → Fields → Fields
put k v end = field k v end
put k v (field j w d) = if str_eq j k then field j v d else field j w (put k v d)

-- `d.setdefault(key, value)`, for its effect on `d`
unfoldable pub setdefault : String → Json → Fields → Fields
setdefault k v end = field k v end
setdefault k v (field j w d) = if str_eq j k then field j w d else field j w (setdefault k v d)

-- `Decimal(str(v))` where `v` is an `int`, a `float` or a `str`. A `bool` passes that test too, and
-- its text, `True` or `False`, is no number. `none` is a value of another type, or
-- `InvalidOperation`.
unfoldable pub decimal_of : Json → Option Decimal
decimal_of (int z) = some (fin z 0)
decimal_of (float r) = parse r
decimal_of (str s) = parse s
decimal_of null = none
decimal_of (bool b) = none
decimal_of (arr xs) = none
decimal_of (obj d) = none

pub get-put :
    (k j : String) (v : Json) (d : Fields)
    → get j (put k v d) ≡ (if str_eq k j then some v else get j d)
unfolding get put
get-put k j v end = refl
get-put k j v (field i w d) =
    ground (arith, str_eq_iff k j, str_eq_iff i k, str_eq_iff i j, get-put k j v d)

pub get-setdefault :
    (k j : String) (v : Json) (d : Fields)
    → get j (setdefault k v d)
      ≡ (elim (get j d) [ some w ↦ some w | none ↦ (if str_eq k j then some v else none) ])
unfolding get setdefault
get-setdefault k j v end = refl
get-setdefault k j v (field i w d) =
    ground (arith, str_eq_iff k j, str_eq_iff i k, str_eq_iff i j, get-setdefault k j v d)
