-- ===== src/Text/Split.antt =====
-- `split` and `join` of support/TextUtil.h.
use prebyte.Base.{
  ℕ, true, false, List, [], ◌∷◌, ◌++◌, ◌≡◌, refl, ap, ◌∙◌, Bytes, ◌==◌, Bool-cases, inl, inr,
  append-nil, append_assoc, All, ==_iff,
}
use prebyte.Text.{split_onto, split, join_more, join}

-- No byte of the text is `delimiter`.
abbrev pub Lacks : ℕ → Bytes → Type 0
Lacks d = All (λ c. (c == d) ≡ false)

join_more-split_onto :
    (current value to : Bytes) (d : ℕ)
    → join_more (split_onto current value d) to ≡ to ++ join (split_onto current value d) to
unfolding split_onto join
join_more-split_onto current [] to d = refl
join_more-split_onto current (c ∷ cs) to d = elim (Bool-cases (c == d)) [
  | inl closed ↦ rw closed refl
  | inr other ↦ rw other (join_more-split_onto (current ++ c ∷ []) cs to d)
]

join-split_onto_cons :
    (b : ℕ) (current value to : Bytes) (d : ℕ)
    → join (split_onto (b ∷ current) value d) to ≡ b ∷ join (split_onto current value d) to
unfolding split_onto join
join-split_onto_cons b current [] to d = refl
join-split_onto_cons b current (c ∷ cs) to d = elim (Bool-cases (c == d)) [
  | inl closed ↦ rw closed refl
  | inr other ↦ rw other (join-split_onto_cons b (current ++ c ∷ []) cs to d)
]

-- What other text is put between the parts: at a delimiter, and at any other byte.
pub join-split_delimiter :
    (c : ℕ) (cs to : Bytes) (d : ℕ)
    → (c == d) ≡ true
    → join (split (c ∷ cs) d) to ≡ to ++ join (split cs d) to
unfolding split split_onto join
join-split_delimiter c cs to d closed = rw closed (join_more-split_onto [] cs to d)

pub join-split_byte :
    (c : ℕ) (cs to : Bytes) (d : ℕ)
    → (c == d) ≡ false
    → join (split (c ∷ cs) d) to ≡ c ∷ join (split cs d) to
unfolding split split_onto
join-split_byte c cs to d other = rw other (join-split_onto_cons c [] cs to d)

-- The parts that the loop is yet to return, joined.
join-split_onto :
    (current value : Bytes) (d : ℕ) → join (split_onto current value d) (d ∷ []) ≡ current ++ value
unfolding split_onto join
join-split_onto current [] d = refl
join-split_onto current (c ∷ cs) d = elim (Bool-cases (c == d)) [
  | inl same ↦
      rw (same, (==_iff c d).0 same)
        (ap (λ r. current ++ r)
          (join_more-split_onto [] cs (d ∷ []) d ∙ ap (◌∷◌ d) (join-split_onto [] cs d)))
  | inr other ↦
      rw other (join-split_onto (current ++ c ∷ []) cs d ∙ append_assoc current (c ∷ []) cs)
]

split_onto_last :
    (current part : Bytes) (d : ℕ)
    → Lacks d part
    → split_onto current part d ≡ (current ++ part) ∷ []
unfolding split_onto
split_onto_last current [] d h = rw append-nil
split_onto_last current (c ∷ cs) d h =
    rw h.0 (split_onto_last (current ++ c ∷ []) cs d h.1 ∙ rw append_assoc)

split_onto_part :
    (current part rest : Bytes) (d : ℕ)
    → Lacks d part
    → split_onto current (part ++ d ∷ rest) d ≡ (current ++ part) ∷ split_onto [] rest d
unfolding split_onto
split_onto_part current [] rest d h = rw ((==_iff d d).1 refl, append-nil)
split_onto_part current (c ∷ cs) rest d h =
    rw h.0 (split_onto_part (current ++ c ∷ []) cs rest d h.1 ∙ rw append_assoc)

-- Joining the parts of a split with its delimiter gives the text back.
pub join-split : (value : Bytes) (d : ℕ) → join (split value d) (d ∷ []) ≡ value
unfolding split
join-split value d = join-split_onto [] value d

-- If there is a part at least, and no part holds the delimiter, splitting what was joined gives
-- the parts back.
pub split-join :
    (part : Bytes) (parts : List Bytes) (d : ℕ)
    → All (Lacks d) (part ∷ parts)
    → split (join (part ∷ parts) (d ∷ [])) d ≡ part ∷ parts
unfolding split join
split-join part [] d h = rw append-nil (split_onto_last [] part d h.0)
split-join part (next ∷ parts) d h =
    split_onto_part [] part _ d h.0 ∙ ap (◌∷◌ part) (split-join next parts d h.1)
