-- ===== src/Text/Case.antt =====
-- `replace_tabs` of support/TextUtil.h.
use prebyte.Base.{ℕ, zero, suc, [], ◌∷◌, refl, Bytes, ◌==◌, All-append, Bool-cases, inl, inr}
use prebyte.Text.{replace_tabs, repeat}
use prebyte.Text.Split.{Lacks}

repeat-Lacks : (n : ℕ) → Lacks b'\t' (repeat b' ' n)
repeat-Lacks zero = tt
repeat-Lacks (suc n) = (refl, repeat-Lacks n)

-- No tab is left, whatever the tab size.
pub replace_tabs-Lacks : (s : Bytes) (n : ℕ) → Lacks b'\t' (replace_tabs s n)
unfolding replace_tabs
replace_tabs-Lacks [] n = tt
replace_tabs-Lacks (c ∷ cs) n = elim (Bool-cases (c == b'\t')) [
  | inl tab ↦ rw tab (All-append _ (repeat b' ' n) _ (repeat-Lacks n) (replace_tabs-Lacks cs n))
  | inr other ↦ rw other (other, replace_tabs-Lacks cs n)
]
