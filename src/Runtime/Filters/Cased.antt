-- ===== src/Runtime/Filters/Cased.antt =====
-- support/TextUtil.h and runtime/expression/FilterRegistry.cpp: the texts that the filters `lower`
-- and `upper` give.
use prebyte.Base.{ℕ, false, [], ◌∷◌, ◌≡◌, refl, arith, Bytes, All}
use prebyte.Text.{within, lower_byte, to_lower}
use prebyte.Runtime.Filters.{upper_byte, to_upper}

-- No byte is from the one to the other.
abbrev pub IsWithout : ℕ → ℕ → Bytes → Type 0
IsWithout lo hi = All (λ c. within lo hi c ≡ false)

module _ (c : ℕ) where
  lower_byte_without : within b'A' b'Z' (lower_byte c) ≡ false
  unfolding lower_byte
  lower_byte_without = ground arith

  upper_byte_without : within b'a' b'z' (upper_byte c) ≡ false
  unfolding upper_byte
  upper_byte_without = ground arith

  lower_byte-upper_byte : lower_byte (upper_byte c) ≡ lower_byte c
  unfolding lower_byte upper_byte
  lower_byte-upper_byte = ground arith

  upper_byte-lower_byte : upper_byte (lower_byte c) ≡ upper_byte c
  unfolding lower_byte upper_byte
  upper_byte-lower_byte = ground arith

to_lower-IsWithout : (s : Bytes) → IsWithout b'A' b'Z' (to_lower s)
unfolding to_lower
to_lower-IsWithout [] = tt
to_lower-IsWithout (c ∷ cs) = (lower_byte_without c, to_lower-IsWithout cs)

to_upper-IsWithout : (s : Bytes) → IsWithout b'a' b'z' (to_upper s)
unfolding to_upper
to_upper-IsWithout [] = tt
to_upper-IsWithout (c ∷ cs) = (upper_byte_without c, to_upper-IsWithout cs)

to_lower-to_upper : (s : Bytes) → to_lower (to_upper s) ≡ to_lower s
unfolding to_lower to_upper
to_lower-to_upper [] = refl
to_lower-to_upper (c ∷ cs) = cc (lower_byte-upper_byte c, to_lower-to_upper cs)

to_upper-to_lower : (s : Bytes) → to_upper (to_lower s) ≡ to_upper s
unfolding to_lower to_upper
to_upper-to_lower [] = refl
to_upper-to_lower (c ∷ cs) = cc (upper_byte-lower_byte c, to_upper-to_lower cs)

-- A lowered text has no letter from `A` to `Z` and a raised one no letter from `a` to `z`. Lowering
-- a raised text is lowering it, and raising a lowered text is raising it.
pub to_lower_lem :
    (s : Bytes)
    → IsWithout b'A' b'Z' (to_lower s)
      × IsWithout b'a' b'z' (to_upper s)
      × (to_lower (to_upper s) ≡ to_lower s)
      × (to_upper (to_lower s) ≡ to_upper s)
to_lower_lem s =
    (to_lower-IsWithout s, to_upper-IsWithout s, to_lower-to_upper s, to_upper-to_lower s)
