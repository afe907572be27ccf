-- ===== src/Capture/Json.antt =====
-- JSON values, as `request` rows hold them. A Python dict and a jsonb object compare without
-- regard to the order of their keys.
pub mod Equality
use stigmergy.Prelude.{
  ℕ, zero, suc, ◌+◌, String, ◌≡◌, refl, Bool, true, false, ◌&&◌, Option, none, some, arith, ◌==◌,
  str_eq, eq_iff, eq_refl, if◌then◌else◌,
}

mutual
  pub data Fields : Type 0 where
    end : Fields
    field : String → Value → Fields → Fields

  pub data Items : Type 0 where
    no_items : Items
    item : Value → Items → Items

  pub data Value : Type 0 where
    null : Value
    flag : Bool → Value
    num : ℕ → Value
    str : String → Value
    array : Items → Value
    obj : Fields → Value

abbrev pub get : String → Fields → Option Value
get k end = none
get k (field j v fs) = let rest = get k fs in if str_eq j k then some v else rest

-- d.pop(k, None)
abbrev pub pop : String → Fields → Fields
pop k end = end
pop k (field j v fs) = let rest = pop k fs in if str_eq j k then rest else field j v rest

abbrev pub size : Fields → ℕ
size end = 0
size (field k v fs) = suc (size fs)

-- d[k] = v
abbrev pub put : String → Value → Fields → Fields
put k v fs = field k v (pop k fs)

abbrev pub flag_eq : Bool → Bool → Bool
flag_eq true b = b
flag_eq false true = false
flag_eq false false = true

-- True is 1 and False is 0
abbrev pub of_flag : Bool → ℕ
of_flag true = 1
of_flag false = 0

unfoldable mutual
  pub value_eq : Value → Value → Bool
  value_eq null null = true
  value_eq (flag a) (flag b) = flag_eq a b
  value_eq (flag a) (num b) = of_flag a == b
  value_eq (num a) (flag b) = a == of_flag b
  value_eq (num a) (num b) = a == b
  value_eq (str a) (str b) = str_eq a b
  value_eq (array xs) (array ys) = items_eq xs ys
  value_eq (obj fs) (obj gs) = (size fs == size gs) && fields_in fs gs
  value_eq _ _ = false

  pub items_eq : Items → Items → Bool
  items_eq no_items no_items = true
  items_eq (item x xs) (item y ys) = value_eq x y && items_eq xs ys
  items_eq _ _ = false

  pub fields_in : Fields → Fields → Bool
  fields_in end gs = true
  fields_in (field k v fs) gs =
      elim (get k gs) [ none ↦ false | some w ↦ value_eq v w ] && fields_in fs gs

-- left == right on dicts
unfoldable pub dict_eq : Fields → Fields → Bool
unfolding fields_in
dict_eq fs gs = (size fs == size gs) && fields_in fs gs
