-- ===== src/Text/Trim.antt =====
-- `trim` of support/TextUtil.h, from its two halves.
use prebyte.Base.{ℕ, false, Bool, [], ◌∷◌, ◌≡◌, refl, Bytes, Bool-cases, inl, inr}
use prebyte.Text.{drop_while, drop_while_end, trim, is_space, keep_byte}

-- The text does not begin, or does not end, with a byte that the test takes.
abbrev pub Starts : (ℕ → Bool) → Bytes → Type 0
Starts p [] = Unit
Starts p (c ∷ cs) = p c ≡ false

abbrev pub Ends : (ℕ → Bool) → Bytes → Type 0
Ends p [] = Unit
Ends p (c ∷ []) = p c ≡ false
Ends p (c ∷ d ∷ ds) = Ends p (d ∷ ds)

drop_while-Starts : (p : ℕ → Bool) (s : Bytes) → Starts p (drop_while p s)
unfolding drop_while
drop_while-Starts p [] = tt
drop_while-Starts p (c ∷ cs) = elim (Bool-cases (p c)) [
  | inl taken ↦ rw taken (drop_while-Starts p cs)
  | inr kept ↦ rw kept kept
]

keep_byte-Ends : (p : ℕ → Bool) (c : ℕ) (r : Bytes) → Ends p r → Ends p (keep_byte p c r)
keep_byte-Ends p c [] h = elim (Bool-cases (p c)) [
  | inl taken ↦ rw taken tt
  | inr kept ↦ rw kept kept
]
keep_byte-Ends p c (d ∷ ds) h = h

drop_while_end-Ends : (p : ℕ → Bool) (s : Bytes) → Ends p (drop_while_end p s)
unfolding drop_while_end
drop_while_end-Ends p [] = tt
drop_while_end-Ends p (c ∷ cs) = keep_byte-Ends p c (drop_while_end p cs) (drop_while_end-Ends p cs)

keep_byte-Starts : (p : ℕ → Bool) (c : ℕ) (r : Bytes) → p c ≡ false → Starts p (keep_byte p c r)
keep_byte-Starts p c [] h = rw h h
keep_byte-Starts p c (d ∷ ds) h = h

drop_while_end-Starts : (p : ℕ → Bool) (s : Bytes) → Starts p s → Starts p (drop_while_end p s)
unfolding drop_while_end
drop_while_end-Starts p [] h = tt
drop_while_end-Starts p (c ∷ cs) h = keep_byte-Starts p c (drop_while_end p cs) h

drop_while_self : (p : ℕ → Bool) (s : Bytes) → Starts p s → drop_while p s ≡ s
unfolding drop_while
drop_while_self p [] h = refl
drop_while_self p (c ∷ cs) h = rw h

drop_while_end_self : (p : ℕ → Bool) (s : Bytes) → Ends p s → drop_while_end p s ≡ s
unfolding drop_while_end
drop_while_end_self p [] h = refl
drop_while_end_self p (c ∷ []) h = rw h
drop_while_end_self p (c ∷ d ∷ ds) h = rw (drop_while_end_self p (d ∷ ds) h, keep_byte)

-- What is trimmed begins and ends with no space, and a second trim changes nothing.
pub trim_lem :
    (s : Bytes) → Starts is_space (trim s) × Ends is_space (trim s) × (trim (trim s) ≡ trim s)
unfolding trim
trim_lem s =
    let first = drop_while_end-Starts is_space _ (drop_while-Starts is_space s) in
    let last = drop_while_end-Ends is_space (drop_while is_space s) in
    (first, last, rw (drop_while_self is_space _ first) (drop_while_end_self is_space _ last))
