-- ===== src/Config/Rules/Assignment.antt =====
-- `parse_rule_assignment` of config/RuleResolver.cpp, against what an assignment is.
use prebyte.Base.{
  ℕ, false, Option, none, some, [], ◌∷◌, ◌++◌, ◌≡◌, ◌≢◌, ◌↔◌, refl, ap, inl, inr, Bytes, Bool-cases,
  ◌==◌, ==_iff,
}
use prebyte.Result.{ok, Yields}
use prebyte.Text.Split.{Lacks}
use prebyte.Config.Rules.{in_front, cut_equals, both_sides, parse_rule_assignment}

abbrev Cut : Bytes → Option (Bytes × Bytes) → Type 0
Cut text none = Unit
Cut text (some (name, value)) = Lacks b'=' name × (text ≡ name ++ b'=' ∷ value)

in_front-Cut :
    (c : ℕ) (cs : Bytes) (parts : Option (Bytes × Bytes))
    → (c == b'=') ≡ false
    → Cut cs parts
    → Cut (c ∷ cs) (in_front c parts)
in_front-Cut c cs none e h = tt
in_front-Cut c cs (some (name, value)) e h = ((e, h.0), ap (λ t. c ∷ t) h.1)

cut_equals-Cut : (text : Bytes) → Cut text (cut_equals text)
unfolding cut_equals
cut_equals-Cut [] = tt
cut_equals-Cut (c ∷ cs) = elim (Bool-cases (c == b'=')) [
  | inl here ↦ rw here (tt, ap (λ x. x ∷ cs) ((==_iff c b'=').0 here))
  | inr later ↦ rw later (in_front-Cut c cs (cut_equals cs) later (cut_equals-Cut cs))
]

-- A name without a `=`, the sign, and a value; neither is empty.
pub record IsAssignment (text name value : Bytes) : Type 0 where
  pub parts : text ≡ name ++ b'=' ∷ value
  pub lacks : Lacks b'=' name
  pub named : name ≢ []
  pub valued : value ≢ []

both_sides-IsAssignment :
    (text : Bytes) (parts : Option (Bytes × Bytes))
    → Cut text parts
    → Yields (λ (r : Bytes × Bytes). IsAssignment text r.0 r.1) (both_sides text parts)
both_sides-IsAssignment text none h = tt
both_sides-IsAssignment text (some ([], value)) h = tt
both_sides-IsAssignment text (some (c ∷ name, [])) h = tt
both_sides-IsAssignment text (some (c ∷ name, v ∷ value)) h = record {
  parts = h.1;
  lacks = h.0;
  named = λ e. cc;
  valued = λ e. cc;
}

cut_equals-join :
    (name value : Bytes) → Lacks b'=' name → cut_equals (name ++ b'=' ∷ value) ≡ some (name, value)
unfolding cut_equals
cut_equals-join [] value h = refl
cut_equals-join (c ∷ name) value h = rw (h.0, cut_equals-join name value h.1) refl

both_sides-ok :
    (text name value : Bytes)
    → name ≢ []
    → value ≢ []
    → both_sides text (some (name, value)) ≡ ok (name, value)
both_sides-ok text [] value hn hv = absurd (hn refl)
both_sides-ok text (c ∷ name) [] hn hv = absurd (hv refl)
both_sides-ok text (c ∷ name) (v ∷ value) hn hv = refl

-- A text is parsed as an assignment of a value to a name if and only if it is the name, an equals
-- sign and the value, where the name has no equals sign and neither of them is empty.
pub parse_rule_assignment_lem :
    (text name value : Bytes)
    → (parse_rule_assignment text ≡ ok (name, value)) ↔ IsAssignment text name value
unfolding parse_rule_assignment
parse_rule_assignment_lem text name value = (
  (λ e. rw e at (both_sides-IsAssignment text (cut_equals text) (cut_equals-Cut text))),
  (λ a.
      rw (a.parts, cut_equals-join name value a.lacks)
        (both_sides-ok (name ++ b'=' ∷ value) name value a.named a.valued)),
)
