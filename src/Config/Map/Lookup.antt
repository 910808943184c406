-- ===== src/Config/Map/Lookup.antt =====
-- Finding in a map what was assigned, as the loops of config/ do.
use prebyte.Base.{
  Bool, true, false, Option, none, some, [], ◌∷◌, ◌≡◌, refl, sym, ◌∙◌, inl, inr, Bytes, Bool-cases,
  equal, equal_iff, less, if◌then◌else◌,
}
use mathlib.Core.Bool.{false≢true}
use prebyte.Config.Map.{Map, find, assign, assign_all}

module _ {A : Type 0} where
  if-if : (b : Bool) (x y z : A) → (if b then x else z) ≡ (if b then x else if b then y else z)
  if-if true x y z = refl
  if-if false x y z = refl

  -- Tests that do not both hold may change places.
  if-swap :
      (a b : Bool) (x y z : A)
      → (a ≡ true → b ≡ true → ⊥)
      → (if a then x else if b then y else z) ≡ (if b then y else if a then x else z)
  if-swap true true x y z h = absurd (h refl refl)
  if-swap true false x y z h = refl
  if-swap false b x y z h = refl

not_both :
    (k key other : Bytes) → equal k key ≡ false → equal k other ≡ true → equal key other ≡ true → ⊥
not_both k key other differs here there =
    let k≡key : k ≡ key = (equal_iff k other).0 here ∙ sym ((equal_iff key other).0 there) in
    false≢true (sym differs ∙ (equal_iff k key).1 k≡key)

module _ {V : Type 0} where
  -- The value that was assigned is found under its key; under another key, what was there before.
  pub find-assign :
      (m : Map V) (key : Bytes) (value : V) (other : Bytes)
      → find (assign m key value) other ≡ (if equal key other then some value else find m other)
  unfolding find assign
  find-assign [] key value other = refl
  find-assign ((k, v) ∷ m) key value other = elim (Bool-cases (equal k key)) [
    | inl same ↦
        let k≡key : k ≡ key = (equal_iff k key).0 same in
        rw (same, k≡key) (if-if (equal key other) (some value) (some v) (find m other))
    | inr differs ↦ elim (Bool-cases (less key k)) [
      | inl before ↦ rw (differs, before) refl
      | inr later ↦
          rw (differs, later, find-assign m key value other)
            (if-swap (equal k other) (equal key other) (some v) (some value) (find m other)
              (not_both k key other differs))
    ]
  ]

  -- No key occurs twice.
  abbrev pub IsDistinct : Map V → Type 0
  IsDistinct [] = Unit
  IsDistinct ((key, value) ∷ m) = (find m key ≡ none) × IsDistinct m

  abbrev pub or_find : Option V → Option V → Option V
  or_find none other = other
  or_find (some v) other = some v

  -- A map laid over another one: what it has under a key is found, and else what was there before.
  pub find-assign_all :
      (p m : Map V) (name : Bytes)
      → IsDistinct p
      → find (assign_all m p) name ≡ or_find (find p name) (find m name)
  unfolding find assign_all
  find-assign_all [] m name h = refl
  find-assign_all ((key, value) ∷ p) m name h =
      find-assign_all p (assign m key value) name h.1
      ∙ (rw (find-assign m key value name) (laid_over (equal key name) refl))
    where
      laid_over :
          (b : Bool)
          → equal key name ≡ b
          → or_find (find p name) (if b then some value else find m name)
            ≡ or_find (if b then some value else find p name) (find m name)
      laid_over true e = rw (← (equal_iff key name).0 e, h.0) refl
      laid_over false e = refl
