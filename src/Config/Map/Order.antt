-- ===== src/Config/Map/Order.antt =====
-- The order of the keys of a map.
use prebyte.Base.{
  true, false, none, [], ◌∷◌, ◌≡◌, refl, sym, ◌∙◌, inl, inr, Bool-cases, Bytes, All, arith, equal,
  equal_iff, less,
}
use mathlib.Core.Bool.{false≢true}
use prebyte.Config.Map.{Map, find, assign}

less_trans : (a b c : Bytes) → less a b ≡ true → less b c ≡ true → less a c ≡ true
unfolding less
less_trans [] [] c h k = absurd (false≢true h)
less_trans [] (y ∷ ys) [] h k = absurd (false≢true k)
less_trans [] (y ∷ ys) (z ∷ zs) h k = refl
less_trans (x ∷ xs) [] c h k = absurd (false≢true h)
less_trans (x ∷ xs) (y ∷ ys) [] h k = absurd (false≢true k)
less_trans (x ∷ xs) (y ∷ ys) (z ∷ zs) h k = ground (arith, less_trans xs ys zs)

less_irrefl : (a : Bytes) → less a a ≡ false
unfolding less
less_irrefl [] = refl
less_irrefl (x ∷ xs) = ground (arith, less_irrefl xs)

less_total : (a b : Bytes) → equal a b ≡ false → less b a ≡ false → less a b ≡ true
unfolding less equal
less_total [] [] h k = absurd (false≢true (sym h))
less_total [] (y ∷ ys) h k = refl
less_total (x ∷ xs) [] h k = absurd (false≢true (sym k))
less_total (x ∷ xs) (y ∷ ys) h k = ground (arith, less_total xs ys)

module _ {V : Type 0} where
  -- The key is in front of those of the map.
  abbrev Above : Bytes → Map V → Type 0
  Above key m = All (λ (e : Bytes × V). less key e.0 ≡ true) m

  abbrev pub IsSorted : Map V → Type 0
  IsSorted [] = Unit
  IsSorted ((key, value) ∷ m) = Above key m × IsSorted m

  Above-trans : (k key : Bytes) (m : Map V) → less k key ≡ true → Above key m → Above k m
  Above-trans k key [] h a = tt
  Above-trans k key ((j, v) ∷ m) h a = (less_trans k key j h a.0, Above-trans k key m h a.1)

  pub find-Above : (key : Bytes) (m : Map V) → Above key m → find m key ≡ none
  unfolding find
  find-Above key [] a = refl
  find-Above key ((j, v) ∷ m) a = elim (Bool-cases (equal j key)) [
    | inl same ↦
        absurd (false≢true (sym (less_irrefl key) ∙ (rw ((equal_iff j key).0 same) at a.0)))
    | inr differs ↦ rw differs (find-Above key m a.1)
  ]

  Above-assign :
      (k : Bytes) (m : Map V) (key : Bytes) (value : V)
      → less k key ≡ true
      → Above k m
      → Above k (assign m key value)
  unfolding assign
  Above-assign k [] key value h a = (h, tt)
  Above-assign k ((j, v) ∷ m) key value h a = elim (Bool-cases (equal j key)) [
    | inl same ↦ rw same (h, a.1)
    | inr differs ↦ elim (Bool-cases (less key j)) [
      | inl front ↦ rw (differs, front) (h, a)
      | inr behind ↦ rw (differs, behind) (a.0, Above-assign k m key value h a.1)
    ]
  ]

  -- An assignment keeps a map in the order of its keys.
  pub assign-IsSorted :
      (m : Map V) (key : Bytes) (value : V) → IsSorted m → IsSorted (assign m key value)
  unfolding assign
  assign-IsSorted [] key value h = (tt, tt)
  assign-IsSorted ((j, v) ∷ m) key value h = elim (Bool-cases (equal j key)) [
    | inl same ↦ rw same (rw ((equal_iff j key).0 same) at h.0, h.1)
    | inr differs ↦ elim (Bool-cases (less key j)) [
      | inl front ↦ rw (differs, front) ((front, Above-trans key j m front h.0), h)
      | inr behind ↦
          rw (differs, behind)
            (
              Above-assign j m key value (less_total j key differs behind) h.0,
              assign-IsSorted m key value h.1,
            )
    ]
  ]
