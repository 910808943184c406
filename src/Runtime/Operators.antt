-- ===== src/Runtime/Operators.antt =====
-- runtime/compiled/CompiledTemplateCompiler.cpp and CompiledTemplateExecutor.cpp: the opcode of a
-- comparison does what its operator means.
use prebyte.Base.{
  ℕ, Bool, true, false, not, Option, none, some, ◌≡◌, refl, sym, ap, ◌∙◌, Bytes, str, equal,
  equal_iff, if◌then◌else◌,
}
use prebyte.Result.{ok}
use prebyte.Compiled.Program.{ExpressionOpcode}
use prebyte.Compiled.Compiler.Expressions.{DoubleOps, comparison_opcode}
use prebyte.Runtime.Value.{Value, bool, Ordering, less_than, same, greater, compare_scalar}
use prebyte.Runtime.Machine.{Services, order_text, compare_with_order, ordered, order, binary}
use prebyte.Runtime.Meaning.{is_before, is_behind, Comparison, tested, ordering, comparison}
use prebyte.Runtime.Effects.{IsBinary}

-- The orderings of which each opcode holds.
lt_test : (o : Ordering) → compare_with_order o ExpressionOpcode.lt ≡ is_before o
unfolding compare_with_order
lt_test less_than = refl
lt_test same = refl
lt_test greater = refl

gt_test : (o : Ordering) → compare_with_order o ExpressionOpcode.gt ≡ is_behind o
unfolding compare_with_order
gt_test less_than = refl
gt_test same = refl
gt_test greater = refl

le_test : (o : Ordering) → compare_with_order o ExpressionOpcode.le ≡ not (is_behind o)
unfolding compare_with_order
le_test less_than = refl
le_test same = refl
le_test greater = refl

ge_test : (o : Ordering) → compare_with_order o ExpressionOpcode.ge ≡ not (is_before o)
unfolding compare_with_order
ge_test less_than = refl
ge_test same = refl
ge_test greater = refl

module _ {D S : Type 0} (double : DoubleOps D) (services : Services D S) where
  -- The instruction and the comparison give the same, or there is neither.
  abbrev pub Implements : Option ExpressionOpcode → Option (Comparison double services) → Type 0
  Implements none none = Unit
  Implements (some opcode) (some compare) =
      IsBinary opcode
      × ((v w : Value D) (a b : ℕ) → binary services opcode v w a b ≡ compare v w a b)
  Implements _ _ = ⊥

  ordered-tested :
      (opcode : ExpressionOpcode) (holds : Ordering → Bool)
      → ((o : Ordering) → compare_with_order o opcode ≡ holds o)
      → (m : Option Ordering) (a b : ℕ)
      → ordered services opcode a b m ≡ tested double services holds m a b
  ordered-tested opcode holds h none a b = refl
  ordered-tested opcode holds h (some o) a b = ap (λ x. ok (bool x)) (h o)

  order-ordering :
      (opcode : ExpressionOpcode) (op : Bytes) (holds : Ordering → Bool)
      → order_text opcode ≡ op
      → ((o : Ordering) → compare_with_order o opcode ≡ holds o)
      → (v w : Value D) (a b : ℕ)
      → order services opcode v w a b ≡ ordering double services op holds v w a b
  unfolding order ordering
  order-ordering opcode op holds text h v w a b =
      rw (text, ordered-tested opcode holds h (compare_scalar services.numbers v w) a b) refl

  Implements-if :
      (b : Bool) (opcode : ExpressionOpcode) (compare : Comparison double services)
      (o : Option ExpressionOpcode) (c : Option (Comparison double services))
      → (b ≡ true → Implements (some opcode) (some compare))
      → Implements o c
      → Implements (if b then some opcode else o) (if b then some compare else c)
  Implements-if true opcode compare o c h k = h refl
  Implements-if false opcode compare o c h k = k

  -- The operator of the text is that of the message.
  message :
      (opcode : ExpressionOpcode) (op text : Bytes)
      → order_text opcode ≡ text
      → equal op text ≡ true
      → order_text opcode ≡ op
  message opcode op text is e = is ∙ sym ((equal_iff op text).0 e)

  pub comparison-Implements :
      (op : Bytes) → Implements (comparison_opcode op) (comparison double services op)
  unfolding comparison_opcode comparison binary order_text
  comparison-Implements op =
      Implements-if (equal op (str "==")) _ _ _ _ (λ e. (tt, λ v w a b. refl))
        (Implements-if (equal op (str "!=")) _ _ _ _ (λ e. (tt, λ v w a b. refl))
          (Implements-if (equal op (str "<")) _ _ _ _
            (λ e. (
              tt,
              order-ordering _ op is_before (message ExpressionOpcode.lt op (str "<") refl e)
                  lt_test,
            ))
            (Implements-if (equal op (str ">")) _ _ _ _
              (λ e. (
                tt,
                order-ordering _ op is_behind (message ExpressionOpcode.gt op (str ">") refl e)
                    gt_test,
              ))
              (Implements-if (equal op (str "<=")) _ _ _ _
                (λ e. (
                  tt,
                  order-ordering _ op (λ o. not (is_behind o))
                      (message ExpressionOpcode.le op (str "<=") refl e) le_test,
                ))
                (Implements-if (equal op (str ">=")) _ _ _ _
                  (λ e. (
                    tt,
                    order-ordering _ op (λ o. not (is_before o))
                        (message ExpressionOpcode.ge op (str ">=") refl e) ge_test,
                  ))
                  (Implements-if (equal op (str "in")) _ _ _ _ (λ e. (tt, λ v w a b. refl)) tt))))))
