-- ===== src/Runtime/Value.antt =====
-- runtime/core/Value.cpp: values and what they answer. What the C++ library does with numbers is a
-- parameter: printing, reading and comparing them.
pub mod Compared
use prebyte.Base.{
  ℕ, zero, suc, Bool, true, false, not, ◌||◌, Option, none, some, List, [], ◌∷◌, ◌++◌, Bytes, str,
  equal, less, length, ◌==◌, if◌then◌else◌,
}
use prebyte.Text.{to_lower, trim}
use prebyte.Runtime.Data.{
  ℤ, pos, negsuc, Data, Fields, Items, empty_map, field, empty_array, item, field_count, item_count,
}

-- What the C++ library does with a `double` and an `int`.
pub record Numbers (D : Type 0) : Type 0 where
  -- `static_cast<double>(value)`
  pub of_int : ℤ → D
  -- `std::fabs(value) > 0.0`
  pub is_nonzero : D → Bool
  -- `stream << value`
  pub print : D → Bytes
  -- `std::to_string(value)` of an `int`
  pub print_int : ℤ → Bytes
  -- `std::strtod(text)`, if it stops at a null byte
  pub strtod : Bytes → Option D
  -- `left < right`
  pub is_less : D → D → Bool

-- `Value::Storage`
pub data Value (D : Type 0) : Type 0 where
  null : Value D
  bool : Bool → Value D
  number : D → Value D
  owned : Bytes → Value D
  view : Bytes → Value D
  object : Fields D → Value D
  list : Items D → Value D
  borrowed : Data D → Value D

-- `std::strong_ordering`
pub data Ordering : Type 0 where
  less_than same greater : Ordering

abbrev pub bool_text : Bool → Bytes
bool_text true = str "true"
bool_text false = str "false"

-- `equals_lower_ascii`: `to_lower` changes the same letters.
unfoldable pub equals_lower_ascii : Bytes → Bytes → Bool
equals_lower_ascii value expected = equal (to_lower value) expected

unfoldable pub is_falsey_word : Bytes → Bool
is_falsey_word value =
    equal value []
    || equals_lower_ascii value (str "false")
    || equal value (str "0")
    || equals_lower_ascii value (str "no")
    || equals_lower_ascii value (str "off")

-- `string_is_falsey`
unfoldable pub string_is_falsey : Bytes → Bool
string_is_falsey value = is_falsey_word (trim value)

unfoldable pub is_zero : ℤ → Bool
is_zero (pos zero) = true
is_zero (pos (suc n)) = false
is_zero (negsuc n) = false

abbrev pub text_or_empty : Option Bytes → Bytes
text_or_empty none = []
text_or_empty (some text) = text

module _ {D : Type 0} where
  -- `Data::Map::empty` and `Data::Array::empty`
  abbrev pub no_field : Fields D → Bool
  no_field empty_map = true
  no_field (field key value fields) = false

  abbrev pub no_item : Items D → Bool
  no_item empty_array = true
  no_item (item value items) = false

  unfoldable pub is_null : Value D → Bool
  is_null null = true
  is_null _ = false

  unfoldable pub is_object : Value D → Bool
  is_object (object fields) = true
  is_object (borrowed (Data.map fields)) = true
  is_object _ = false

  unfoldable pub is_list : Value D → Bool
  is_list (list items) = true
  is_list (borrowed (Data.array items)) = true
  is_list _ = false

  unfoldable pub try_as_bool : Value D → Option Bool
  try_as_bool (bool b) = some b
  try_as_bool (borrowed (Data.bool b)) = some b
  try_as_bool _ = none

  unfoldable pub try_as_string_view : Value D → Option Bytes
  try_as_string_view (owned text) = some text
  try_as_string_view (view text) = some text
  try_as_string_view (borrowed (Data.string text)) = some text
  try_as_string_view _ = none

  unfoldable pub try_as_object : Value D → Option (Fields D)
  try_as_object (object fields) = some fields
  try_as_object (borrowed (Data.map fields)) = some fields
  try_as_object _ = none

  unfoldable pub try_as_list : Value D → Option (Items D)
  try_as_list (list items) = some items
  try_as_list (borrowed (Data.array items)) = some items
  try_as_list _ = none

  -- `Value::as_string_view`
  unfoldable pub as_string_view : Value D → Bytes
  as_string_view v = text_or_empty (try_as_string_view v)

  -- `Value::length`
  unfoldable pub length_of : Value D → ℕ
  length_of (owned text) = length text
  length_of (view text) = length text
  length_of (object fields) = field_count fields
  length_of (list items) = item_count items
  length_of (borrowed (Data.string text)) = length text
  length_of (borrowed (Data.map fields)) = field_count fields
  length_of (borrowed (Data.array items)) = item_count items
  length_of _ = 0

  -- Whether a text is held by the value itself.
  unfoldable pub holds_text : Value D → Bool
  holds_text (owned text) = true
  holds_text (view text) = true
  holds_text _ = false

  unfoldable pub is_structured : Value D → Bool
  is_structured v = is_object v || is_list v

module _ {D : Type 0} (numbers : Numbers D) where
  -- `value_from_data` and `Value::from_data`
  unfoldable pub from_data : Data D → Value D
  from_data Data.null = null
  from_data (Data.bool b) = bool b
  from_data (Data.int i) = number (numbers.of_int i)
  from_data (Data.double d) = number d
  from_data (Data.string text) = owned text
  from_data (Data.map fields) = object fields
  from_data (Data.array items) = list items

  unfoldable pub try_as_number : Value D → Option D
  try_as_number (number d) = some d
  try_as_number (borrowed (Data.int i)) = some (numbers.of_int i)
  try_as_number (borrowed (Data.double d)) = some d
  try_as_number _ = none

  unfoldable pub to_bool : Value D → Bool
  to_bool null = false
  to_bool (bool b) = b
  to_bool (number d) = numbers.is_nonzero d
  to_bool (owned text) = not (string_is_falsey text)
  to_bool (view text) = not (string_is_falsey text)
  to_bool (object fields) = not (no_field fields)
  to_bool (list items) = not (no_item items)
  to_bool (borrowed Data.null) = false
  to_bool (borrowed (Data.bool b)) = b
  to_bool (borrowed (Data.int i)) = not (is_zero i)
  to_bool (borrowed (Data.double d)) = numbers.is_nonzero d
  to_bool (borrowed (Data.string text)) = not (string_is_falsey text)
  to_bool (borrowed (Data.map fields)) = not (no_field fields)
  to_bool (borrowed (Data.array items)) = not (no_item items)

  unfoldable pub to_string : Value D → Bytes
  to_string (bool b) = bool_text b
  to_string (number d) = numbers.print d
  to_string (owned text) = text
  to_string (view text) = text
  to_string (borrowed (Data.bool b)) = bool_text b
  to_string (borrowed (Data.int i)) = numbers.print_int i
  to_string (borrowed (Data.double d)) = numbers.print d
  to_string (borrowed (Data.string text)) = text
  to_string _ = []

  -- `Value::append_to`
  unfoldable pub append_to : Value D → Bytes → Bytes
  append_to (owned text) output = output ++ text
  append_to (view text) output = output ++ text
  append_to (bool b) output = output ++ bool_text b
  append_to (number d) output = output ++ numbers.print d
  append_to (borrowed datum) output = output ++ to_string (borrowed datum)
  append_to _ output = output

  abbrev pub non_empty : Bytes → Bool
  non_empty [] = false
  non_empty (b ∷ bytes) = true

  -- The test of one side in `Value::equals`.
  unfoldable pub is_text : Value D → Bool
  is_text v = non_empty (as_string_view v) || holds_text v

  unfoldable pub equals_scalar : Bool → Bool → Value D → Value D → Bool
  equals_scalar true true v w = equal (as_string_view v) (as_string_view w)
  equals_scalar _ _ v w = equal (to_string v) (to_string w)

  -- `Value::equals`
  unfoldable pub equals : Value D → Value D → Bool
  equals v w =
      if is_structured v || is_structured w
      then false
      else equals_scalar (is_text v) (is_text w) v w

  -- `parse_scalar_number`
  unfoldable pub parse_non_empty : Bytes → Option D
  parse_non_empty [] = none
  parse_non_empty (b ∷ text) = numbers.strtod (b ∷ text)

  unfoldable pub parse_scalar_number : Bytes → Option D
  parse_scalar_number value = parse_non_empty (trim value)

  unfoldable pub compare_numbers : D → D → Ordering
  compare_numbers l r =
      if numbers.is_less l r then less_than else if numbers.is_less r l then greater else same

  unfoldable pub compare_texts : Bytes → Bytes → Ordering
  compare_texts l r = if less l r then less_than else if less r l then greater else same

  unfoldable pub compare_parsed : Option D → Option D → Bytes → Bytes → Ordering
  compare_parsed (some l) (some r) left right = compare_numbers l r
  compare_parsed _ _ left right = compare_texts left right

  -- `Value::compare_scalar`
  unfoldable pub compare_scalar : Value D → Value D → Option Ordering
  compare_scalar v w =
      if is_structured v || is_structured w
      then none
      else some (
          compare_parsed (parse_scalar_number (to_string v)) (parse_scalar_number (to_string w))
            (to_string v) (to_string w))

  -- The loop of `Value::member`.
  unfoldable pub find_field : Fields D → Bytes → Option (Value D)
  find_field empty_map key = none
  find_field (field entry_key datum fields) key =
      let later = find_field fields key in
      if equal entry_key key then some (from_data datum) else later

  abbrev pub field_of : Option (Fields D) → Bytes → Option (Value D)
  field_of none key = none
  field_of (some fields) key = find_field fields key

  -- `Value::member`
  unfoldable pub member : Value D → Bytes → Option (Value D)
  member v key = field_of (try_as_object v) key

  unfoldable pub item_at : Items D → ℕ → Option (Value D)
  item_at empty_array i = none
  item_at (item datum items) zero = some (from_data datum)
  item_at (item datum items) (suc i) = item_at items i

  abbrev pub item_of : Option (Items D) → ℕ → Option (Value D)
  item_of none i = none
  item_of (some items) i = item_at items i

  -- `Value::index`
  unfoldable pub index : Value D → ℕ → Option (Value D)
  index v i = item_of (try_as_list v) i

  abbrev pub values_of : Items D → List (Value D)
  values_of empty_array = []
  values_of (item datum items) = from_data datum ∷ values_of items

  abbrev pub entries_of : Fields D → List (Bytes × Value D)
  entries_of empty_map = []
  entries_of (field key datum fields) = (key, from_data datum) ∷ entries_of fields

  -- `Value::list_items` and `Value::object_items`, which look at the value's own list and object
  unfoldable pub list_items : Value D → List (Value D)
  list_items (list items) = values_of items
  list_items _ = []

  unfoldable pub object_items : Value D → List (Bytes × Value D)
  object_items (object fields) = entries_of fields
  object_items _ = []
