-- ===== src/Runtime/Filters/Replaced.antt =====
-- runtime/expression/FilterRegistry.cpp: what the filter `replace` makes of a text.
use prebyte.Base.{
  ℕ, zero, suc, ◌-◌, true, false, [], ◌∷◌, ◌++◌, Bytes, length, drop, ◌==◌, ◌≡◌, refl, sym, ap, ◌∙◌,
  arith, inl, inr, Bool-cases, ==_iff,
}
use prebyte.Text.{starts_with, split, join}
use prebyte.Text.Split.{join-split_delimiter, join-split_byte}
use prebyte.Runtime.Filters.{replace_from, replace_all}

starts_with_byte : (c d : ℕ) (cs : Bytes) → starts_with (c ∷ cs) (d ∷ []) ≡ (c == d)
unfolding starts_with
starts_with_byte c d cs = elim (Bool-cases (c == d)) [
  | inl same ↦ rw same refl
  | inr other ↦ rw other refl
]

replace_from_matched :
    (from to : Bytes) (c : ℕ) (cs : Bytes)
    → starts_with (c ∷ cs) from ≡ true
    → replace_from from to 0 (c ∷ cs) ≡ to ++ replace_from from to (length from - 1) cs
unfolding replace_from
replace_from_matched from to c cs h = rw h refl

replace_from_kept :
    (from to : Bytes) (c : ℕ) (cs : Bytes)
    → starts_with (c ∷ cs) from ≡ false
    → replace_from from to 0 (c ∷ cs) ≡ c ∷ replace_from from to 0 cs
unfolding replace_from
replace_from_kept from to c cs h = rw h refl

replace_from_nil : (from to : Bytes) (n : ℕ) → replace_from from to n [] ≡ []
unfolding replace_from
replace_from_nil from to n = refl

replace_from_skip :
    (from to : Bytes) (n c : ℕ) (cs : Bytes)
    → replace_from from to (suc n) (c ∷ cs) ≡ replace_from from to n cs
unfolding replace_from
replace_from_skip from to n c cs = refl

join-split_nil : (d : ℕ) (to : Bytes) → join (split [] d) to ≡ []
unfolding split join
join-split_nil d to = refl

replace_from_byte :
    (d : ℕ) (to value : Bytes) → replace_from (d ∷ []) to 0 value ≡ join (split value d) to
replace_from_byte d to [] = replace_from_nil (d ∷ []) to 0 ∙ sym (join-split_nil d to)
replace_from_byte d to (c ∷ cs) = elim (Bool-cases (c == d)) [
  | inl same ↦
      replace_from_matched (d ∷ []) to c cs (starts_with_byte c d cs ∙ same)
      ∙ ap (λ r. to ++ r) (replace_from_byte d to cs)
      ∙ sym (join-split_delimiter c cs to d same)
  | inr other ↦
      replace_from_kept (d ∷ []) to c cs (starts_with_byte c d cs ∙ other)
      ∙ ap (◌∷◌ c) (replace_from_byte d to cs)
      ∙ sym (join-split_byte c cs to d other)
]

-- Replacing a text of one byte is splitting at that byte and joining the parts with the new text,
-- which is not searched again.
pub replace_all-join :
    (value to : Bytes) (d : ℕ) → replace_all value (d ∷ []) to ≡ join (split value d) to
unfolding replace_all
replace_all-join value to d = replace_from_byte d to value

starts_with_lem :
    (value prefix : Bytes)
    → starts_with value prefix ≡ true
    → prefix ++ drop (length prefix) value ≡ value
unfolding starts_with
starts_with_lem value [] h = refl
starts_with_lem [] (p ∷ ps) h = cc
starts_with_lem (c ∷ cs) (p ∷ ps) h = elim (Bool-cases (c == p)) [
  | inl same ↦
      let rest : starts_with cs ps ≡ true = rw same at h in
      rw ((==_iff c p).0 same) (ap (◌∷◌ p) (starts_with_lem cs ps rest))
  | inr other ↦ let no : false ≡ true = rw other at h in cc
]

replace_from_self :
    (f : ℕ) (from : Bytes) (skipped : ℕ) (value : Bytes)
    → replace_from (f ∷ from) (f ∷ from) skipped value ≡ drop skipped value
replace_from_self f from zero [] = replace_from_nil (f ∷ from) (f ∷ from) 0
replace_from_self f from (suc skipped) [] = replace_from_nil (f ∷ from) (f ∷ from) (suc skipped)
replace_from_self f from (suc skipped) (c ∷ cs) =
    replace_from_skip (f ∷ from) (f ∷ from) skipped c cs ∙ replace_from_self f from skipped cs
replace_from_self f from zero (c ∷ cs) = elim (Bool-cases (starts_with (c ∷ cs) (f ∷ from))) [
  | inl matched ↦
      replace_from_matched (f ∷ from) (f ∷ from) c cs matched
      ∙ ap (λ r. (f ∷ from) ++ r) (replace_from_self f from (length (f ∷ from) - 1) cs)
      ∙ ap (λ n. (f ∷ from) ++ drop n cs) (one_less from)
      ∙ starts_with_lem (c ∷ cs) (f ∷ from) matched
  | inr kept ↦
      replace_from_kept (f ∷ from) (f ∷ from) c cs kept ∙ ap (◌∷◌ c) (replace_from_self f from 0 cs)
]
  where
    one_less : (xs : Bytes) → suc (length xs) - 1 ≡ length xs
    one_less xs = omega arith

-- Replacing any text by itself, the empty one included, changes nothing.
pub replace_all_self : (value from : Bytes) → replace_all value from from ≡ value
unfolding replace_all
replace_all_self value [] = refl
replace_all_self value (f ∷ from) = replace_from_self f from 0 value
