-- ===== src/Config/Map.antt =====
-- `std::map` and `std::set` of strings: lists in the order of the keys.
pub mod Lookup
pub mod Order
use prebyte.Base.{
  Bool, true, false, Option, none, some, List, [], ◌∷◌, ◌≡◌, Bytes, equal, less, if◌then◌else◌,
}

abbrev pub Map {ℓ} : Type ℓ → Type ℓ
Map V = List (Bytes × V)

module _ {ℓ} {V : Type ℓ} where
  -- `map.find(key)`
  unfoldable pub find : Map V → Bytes → Option V
  find [] key = none
  find ((k, v) ∷ m) key = let later = find m key in if equal k key then some v else later

  -- `map[key] = value`
  unfoldable pub assign : Map V → Bytes → V → Map V
  assign [] key value = (key, value) ∷ []
  assign ((k, v) ∷ m) key value =
      let later = (k, v) ∷ assign m key value in
      if equal k key
      then (key, value) ∷ m
      else if less key k
      then (key, value) ∷ (k, v) ∷ m
      else later

  -- `for (const auto& [name, value] : other) { map[name] = value; }`
  unfoldable pub assign_all : Map V → Map V → Map V
  assign_all m [] = m
  assign_all m ((key, value) ∷ other) = assign_all (assign m key value) other

-- `set.insert(name)`
unfoldable pub insert : List Bytes → Bytes → List Bytes
insert [] name = name ∷ []
insert (n ∷ names) name =
    let later = n ∷ insert names name in
    if equal n name then n ∷ names else if less name n then name ∷ n ∷ names else later

-- `set.insert(first, last)`
unfoldable pub insert_all : List Bytes → List Bytes → List Bytes
insert_all names [] = names
insert_all names (name ∷ others) = insert_all (insert names name) others
