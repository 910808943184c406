-- ===== src/Runtime/Value/Compared.antt =====
-- runtime/core/Value.cpp: `equals` and `compare_scalar`.
use prebyte.Base.{
  Bool, true, false, ◌||◌, Option, none, some, ◌≡◌, refl, Bytes, [], ◌∷◌, equal, arith, less,
  if◌then◌else◌,
}
use prebyte.Runtime.Data.{Data}
use prebyte.Runtime.Value.{
  Numbers, Value, null, bool, number, owned, view, object, list, borrowed, Ordering, less_than,
  same, greater, is_structured, try_as_string_view, as_string_view, holds_text, is_text, to_string,
  equals, equals_scalar, compare_scalar, compare_parsed, compare_numbers, compare_texts,
  parse_scalar_number,
}

module _ {D : Type 0} (numbers : Numbers D) where
  text-to_string : (v : Value D) → is_text numbers v ≡ true → as_string_view v ≡ to_string numbers v
  unfolding is_text as_string_view holds_text try_as_string_view to_string
  text-to_string null h = refl
  text-to_string (bool b) h = absurd (cc h)
  text-to_string (number d) h = absurd (cc h)
  text-to_string (owned text) h = refl
  text-to_string (view text) h = refl
  text-to_string (object entries) h = refl
  text-to_string (list elements) h = refl
  text-to_string (borrowed Data.null) h = refl
  text-to_string (borrowed (Data.string text)) h = refl
  text-to_string (borrowed (Data.int i)) h = absurd (cc h)
  text-to_string (borrowed (Data.double d)) h = absurd (cc h)
  text-to_string (borrowed (Data.bool b)) h = absurd (cc h)
  text-to_string (borrowed (Data.map entries)) h = refl
  text-to_string (borrowed (Data.array elements)) h = refl

  scalar :
      (b c : Bool) (v w : Value D)
      → is_text numbers v ≡ b
      → is_text numbers w ≡ c
      → equals_scalar numbers b c v w ≡ equal (to_string numbers v) (to_string numbers w)
  unfolding equals_scalar
  scalar true true v w h k = rw (text-to_string v h, text-to_string w k) refl
  scalar true false v w h k = refl
  scalar false true v w h k = refl
  scalar false false v w h k = refl

  -- Two values are equal exactly if neither is an object or a list and they are printed alike.
  pub equals_lem :
      (v w : Value D)
      → equals numbers v w ≡ (
          if is_structured v || is_structured w
          then false
          else equal (to_string numbers v) (to_string numbers w))
  unfolding equals
  equals_lem v w = rw (scalar (is_text numbers v) (is_text numbers w) v w refl refl) refl

  text_asym : (a b : Bytes) → less a b ≡ true → less b a ≡ false
  unfolding less
  text_asym [] [] h = refl
  text_asym [] (y ∷ ys) h = refl
  text_asym (x ∷ xs) [] h = absurd (cc h)
  text_asym (x ∷ xs) (y ∷ ys) h = ground (arith, text_asym xs ys)

  -- What a comparison gives with its sides swapped.
  abbrev pub opposite : Ordering → Ordering
  opposite less_than = greater
  opposite same = same
  opposite greater = less_than

  abbrev pub opposite_option : Option Ordering → Option Ordering
  opposite_option none = none
  opposite_option (some o) = some (opposite o)

  -- Whichever test comes first, if not both of them hold.
  swap :
      (b c : Bool)
      → (b ≡ true → c ≡ false)
      → (if c then less_than else if b then greater else same)
        ≡ opposite (if b then less_than else if c then greater else same)
  swap true true h = absurd (cc (h refl))
  swap true false h = refl
  swap false true h = refl
  swap false false h = refl

  module _ (asym : (l r : D) → numbers.is_less l r ≡ true → numbers.is_less r l ≡ false) where
    compare_parsed_swap :
        (m n : Option D) (left right : Bytes)
        → compare_parsed numbers n m right left ≡ opposite (compare_parsed numbers m n left right)
    unfolding compare_parsed compare_numbers compare_texts
    compare_parsed_swap (some l) (some r) left right =
        swap (numbers.is_less l r) (numbers.is_less r l) (asym l r)
    compare_parsed_swap (some l) none left right =
        swap (less left right) (less right left) (text_asym left right)
    compare_parsed_swap none (some r) left right =
        swap (less left right) (less right left) (text_asym left right)
    compare_parsed_swap none none left right =
        swap (less left right) (less right left) (text_asym left right)

    or_swap : (b c : Bool) → (b || c) ≡ (c || b)
    or_swap true true = refl
    or_swap true false = refl
    or_swap false true = refl
    or_swap false false = refl

    opposite-if :
        (b : Bool) (o : Ordering)
        → (if b then none else some (opposite o)) ≡ opposite_option (if b then none else some o)
    opposite-if true o = refl
    opposite-if false o = refl

    -- If of two numbers not both are less than the other one: two values compared the other way
    -- round give the opposite ordering, and none exactly if there was none.
    pub compare_scalar_swap :
        (v w : Value D) → compare_scalar numbers w v ≡ opposite_option (compare_scalar numbers v w)
    unfolding compare_scalar
    compare_scalar_swap v w =
        rw
          (
            or_swap (is_structured w) (is_structured v),
            compare_parsed_swap (parse_scalar_number numbers (to_string numbers v))
                (parse_scalar_number numbers (to_string numbers w)) (to_string numbers v)
                (to_string numbers w),
          )
          (opposite-if (is_structured v || is_structured w) _)
