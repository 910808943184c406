-- ===== src/Runtime/Data.antt =====
-- datatypes/Data.h: the data of a variable. `D` is the type `double`; an `int` is an integer.
use prebyte.Base.{ℕ, suc, Bool, Bytes}

-- An integer: `pos n` is n, `negsuc n` is minus n plus 1.
pub data ℤ : Type 0 where
  pos : ℕ → ℤ
  negsuc : ℕ → ℤ

mutual
  -- `Data::Value`
  pub data Data (D : Type 0) : Type 0 where
    null : Data D
    string : Bytes → Data D
    int : ℤ → Data D
    double : D → Data D
    bool : Bool → Data D
    map : Fields D → Data D
    array : Items D → Data D

  -- `Data::Map`: the fields in the order of their keys.
  pub data Fields (D : Type 0) : Type 0 where
    empty_map : Fields D
    field : Bytes → Data D → Fields D → Fields D

  -- `Data::Array`
  pub data Items (D : Type 0) : Type 0 where
    empty_array : Items D
    item : Data D → Items D → Items D

module _ {D : Type 0} where
  -- `size()` of a map and of an array
  abbrev pub field_count : Fields D → ℕ
  field_count empty_map = 0
  field_count (field key value fields) = suc (field_count fields)

  abbrev pub item_count : Items D → ℕ
  item_count empty_array = 0
  item_count (item value items) = suc (item_count items)
