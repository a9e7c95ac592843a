-- ===== src/Python/Json.antt =====
-- JSON values as Python holds them. A `dict` is its entries in insertion order.
use radiation_tracking.Prelude.{
  String, ◌≡◌, refl, Bool, true, false, not, arith, eq_iff, str_eq, if◌then◌else◌,
}
use radiation_tracking.Python.Numbers.{Number}
use radiation_tracking.Python.Exceptions.{
  Result, ok, raise, or_raise, type_error, value_error, overflow_error, attribute_error, key_error,
}

mutual
  pub data Value (F : Type 0) : Type 0 where
    null : Value F
    bool : Bool → Value F
    num : F → Value F
    str : String → Value F
    arr : Items F → Value F
    obj : Fields F → Value F

  pub data Items (F : Type 0) : Type 0 where
    nil : Items F
    cons : Value F → Items F → Items F

  pub data Fields (F : Type 0) : Type 0 where
    end : Fields F
    field : String → Value F → Fields F → Fields F

module _ {F : Type 0} where
  -- `d.get(k)`: None where the key is absent.
  unfoldable pub get : Fields F → String → Value F
  get end k = null
  get (field j v d) k = if str_eq j k then v else get d k

  -- `k in d`
  unfoldable pub has : Fields F → String → Bool
  has end k = false
  has (field j v d) k = if str_eq j k then true else has d k

  -- `d[k] = v`
  unfoldable pub put : Fields F → String → Value F → Fields F
  put end k v = field k v end
  put (field j w d) k v = if str_eq j k then field j v d else field j w (put d k v)

  pub get-put :
      (d : Fields F) (k j : String) (v : Value F)
      → get (put d k v) j ≡ (if str_eq k j then v else get d j)
  unfolding get put
  get-put end k j v = refl
  get-put (field i w d) k j v = ground (arith, eq_iff k j, eq_iff i k, eq_iff i j, get-put d k j v)

  -- `d[k]`
  unfoldable pub index : Fields F → String → Result (Value F)
  index end k = raise key_error
  index (field j v d) k = if str_eq j k then ok v else index d k

  -- `x is None`
  abbrev pub is_none : Value F → Bool
  is_none null = true
  is_none _ = false

  -- `x.get(k)`, where `x` need not be a dict.
  unfoldable pub attribute_get : Value F → String → Result (Value F)
  unfolding get
  attribute_get (obj d) k = ok (get d k)
  attribute_get _ k = raise attribute_error

  -- `isinstance(x, dict)`
  abbrev pub is_dict : Value F → Bool
  is_dict (obj d) = true
  is_dict _ = false

module _ {F : Type 0} ⦃n : Number F⦄ where
  -- `bool(x)`
  unfoldable pub truthy : Value F → Bool
  truthy null = false
  truthy (bool b) = b
  truthy (num x) = not (n.beq x n.zero)
  truthy (str s) = not (str_eq s "")
  truthy (arr nil) = false
  truthy (arr (cons v vs)) = true
  truthy (obj end) = false
  truthy (obj (field k v d)) = true

  -- `x or y`
  abbrev pub or_else : Value F → Value F → Value F
  or_else x y = if truthy x then x else y

  -- `float(x)`
  unfoldable pub to_float : Value F → Result F
  unfolding or_raise
  to_float (num x) = if n.fits x then ok x else raise overflow_error
  to_float (bool true) = ok (n.of_ℕ 1)
  to_float (bool false) = ok (n.of_ℕ 0)
  to_float (str s) = or_raise value_error (n.parse s)
  to_float _ = raise type_error

module _ {F : Type 0} where
  -- `x[k]`, where `x` need not be a dict.
  unfoldable pub item : Value F → String → Result (Value F)
  unfolding index
  item (obj d) k = index d k
  item _ k = raise type_error
