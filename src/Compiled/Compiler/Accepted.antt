-- ===== src/Compiled/Compiler/Accepted.antt =====
-- runtime/compiled/CompiledTemplateCompiler.cpp: which expressions `compile_expression_node` takes.
use mathlib.Core.Path.{subst}
use prebyte.Base.{
  ℕ, Bool, true, false, ◌&&◌, Option, none, some, Bytes, str, equal, ◌||◌, ◌++◌, if◌then◌else◌,
}
use prebyte.Result
use prebyte.Result.{SourceSpan, Result, ok, err, out_of_fuel}
use prebyte.Template.Expression.{
  Expression, Expressions, identifier_expr, string_expr, number_expr, bool_expr, unary_expr,
  binary_expr, grouped_expr, member_access_expr, index_access_expr, len_call_expr, lua_call_expr,
  filter_call_expr, function_call_expr, no_expressions, more_expressions,
}
use prebyte.Compiled.Program.{ExpressionOpcode, ExpressionInstruction}
use prebyte.Compiled.Compiler.State
use prebyte.Compiled.Compiler.State.{
  Builder, Compiler, ◌>>=◌, ◌>>◌, fail, store_data, emit_expression, expression_size,
  set_expression_target,
}
use prebyte.Compiled.Compiler.Expressions.{
  DoubleOps, emit, emit_data, load_name, comparison_opcode, compile_short_circuit, compile_logical,
  compile_comparison, compile_binary, append_member, compile_member, compile_index,
  flatten_identifier_path, is_args, constant_arg_index, compile_expression_node,
  compile_expression_nodes,
}
use prebyte.Compiled.Compiler.Described.{
  one_of, binary_operators, is_some, spelled, names_args, whole_number, args_index, operators_lem,
  is_args-names_args, append_member-spelled, constant_arg_index_lem,
}

-- A value if the flag is set, and else an exception: never a loop without end.
abbrev pub Answers {ℓ} : {A : Type ℓ} → Bool → Result A → Type 0
Answers true (ok a) = Unit
Answers false (err e) = Unit
Answers _ _ = ⊥

-- The members of a path of names need nothing more; of another member the base counts.
abbrev pub supported_member : Option Bytes → Bool → Bool
supported_member (some path) base = true
supported_member none base = base

-- `ARGS` has a constant index; of anything else the base and the index count.
abbrev pub supported_index : Bool → Bool → Bool → Bool → Bool
supported_index true constant base at = constant
supported_index false constant base at = base && at

module _ {D : Type 0} (double : DoubleOps D) where
  unfoldable mutual
    -- No operator is unknown, and every use of `ARGS` has a constant index.
    pub supported : Expression D → Bool
    supported (unary_expr op operand span) = supported operand
    supported (binary_expr left op right span) =
        one_of op binary_operators && (supported left && supported right)
    supported (grouped_expr expression span) = supported expression
    supported (member_access_expr base member span) =
        supported_member (spelled base (str "." ++ member)) (supported base)
    supported (index_access_expr base index span) =
        supported_index (names_args base) (is_some (whole_number double index)) (supported base)
          (supported index)
    supported (len_call_expr operand span) = supported operand
    supported (filter_call_expr input name arguments span) =
        supported input && supported_each arguments
    supported (function_call_expr name arguments span) = supported_each arguments
    supported _ = true

    pub supported_each : Expressions D → Bool
    supported_each no_expressions = true
    supported_each (more_expressions e es) = supported e && supported_each es

-- The compiler answers so in every state.
abbrev Accepts : Bool → Compiler Unit → Type 0
Accepts b c = (s : Builder) → Answers b (c s)

Answers-bind :
    {A C : Type 0} (b d : Bool) (m : Result A) (f : A → Result C)
    → Answers b m
    → ((a : A) → Answers d (f a))
    → Answers (b && d) (Result.◌>>=◌ m f)
Answers-bind true d (ok a) f h k = k a
Answers-bind true d (err e) f h k = absurd h
Answers-bind true d out_of_fuel f h k = absurd h
Answers-bind false d (ok a) f h k = absurd h
Answers-bind false d (err e) f h k = tt
Answers-bind false d out_of_fuel f h k = absurd h

Accepts-then :
    (b d : Bool) (c e : Compiler Unit) → Accepts b c → Accepts d e → Accepts (b && d) (c >> e)
unfolding ◌>>=◌
Accepts-then b d c e h k s = Answers-bind b d (c s) _ (h s) λ (done, t). k t

-- What follows does not fail.
Accepts-last : (b : Bool) (c e : Compiler Unit) → Accepts b c → Accepts true e → Accepts b (c >> e)
Accepts-last true c e h k = Accepts-then true true c e h k
Accepts-last false c e h k = Accepts-then false true c e h k

Accepts-emit : (i : ExpressionInstruction) → Accepts true (emit i)
unfolding emit emit_expression ◌>>=◌ State.pure
Accepts-emit i s = tt

Accepts-emit_data :
    (op : ExpressionOpcode) (value : Bytes) (a b : ℕ) → Accepts true (emit_data op value a b)
unfolding emit_data store_data ◌>>=◌ emit emit_expression State.pure
Accepts-emit_data op value a b s = tt

Accepts-load_name : (name : Bytes) (span : SourceSpan) → Accepts true (load_name name span)
unfolding load_name
Accepts-load_name name span s = Accepts-emit_data _ name _ _ s

Accepts-fail : (code message : Bytes) (span : SourceSpan) → Accepts false (fail code message span)
unfolding fail
Accepts-fail code message span s = tt

Answers-last :
    {A C : Type 0} (d : Bool) (m : Result A) (f : A → Result C)
    → Answers d m
    → ((a : A) → Answers true (f a))
    → Answers d (Result.◌>>=◌ m f)
Answers-last true m f h k = Answers-bind true true m f h k
Answers-last false m f h k = Answers-bind false true m f h k

Accepts-nothing : Accepts true (State.pure tt)
unfolding State.pure
Accepts-nothing s = tt

Accepts-short_circuit :
    (cut : ExpressionOpcode) (value : ℕ) (b d : Bool) (c e : Compiler Unit)
    → Accepts b c
    → Accepts d e
    → Accepts (b && d) (compile_short_circuit cut value c e)
unfolding compile_short_circuit ◌>>=◌ emit_expression expression_size set_expression_target
Accepts-short_circuit cut value b d c e h k s =
    Answers-bind b d (c s) _ (h s) λ (done, t). Answers-last d (e _) _ (k _) λ (last, u). tt

Accepts-two :
    (b d : Bool) (c e : Compiler Unit) (i : ExpressionInstruction)
    → Accepts b c
    → Accepts d e
    → Accepts (b && d) (c >> (e >> emit i))
Accepts-two b d c e i h k =
    Accepts-then b d c (e >> emit i) h (Accepts-last d e (emit i) k (Accepts-emit i))

Accepts-logical :
    (op : Bytes) (b d : Bool) (c e : Compiler Unit) (span : SourceSpan)
    → Accepts b c
    → Accepts d e
    → Accepts
        ((equal op (str "&&") || equal op (str "||")) && (b && d))
        (compile_logical op c e span)
unfolding compile_logical
Accepts-logical op b d c e span h k = choice (equal op (str "&&")) (equal op (str "||"))
  where
    choice :
        (x y : Bool)
        → Accepts ((x || y) && (b && d)) (
            if x
            then compile_short_circuit ExpressionOpcode.jump_if_false 0 c e
            else if y
            then compile_short_circuit ExpressionOpcode.jump_if_true 1 c e
            else fail (str "COMPILE001") (str "Unsupported binary operator: " ++ op) span)
    choice true y = Accepts-short_circuit ExpressionOpcode.jump_if_false 0 b d c e h k
    choice false true = Accepts-short_circuit ExpressionOpcode.jump_if_true 1 b d c e h k
    choice false false = Accepts-fail _ _ span

Accepts-comparison :
    (o : Option ExpressionOpcode) (x b d : Bool) (c e f : Compiler Unit) (span : SourceSpan)
    → Accepts b c
    → Accepts d e
    → Accepts (x && (b && d)) f
    → Accepts ((is_some o || x) && (b && d)) (compile_comparison o c e span f)
Accepts-comparison none x b d c e f span h k l = l
Accepts-comparison (some opcode) x b d c e f span h k l = Accepts-two b d c e _ h k

Accepts-member :
    (o : Option Bytes) (b : Bool) (c : Compiler Unit) (member : Bytes) (span : SourceSpan)
    → Accepts b c
    → Accepts (supported_member o b) (compile_member o c member span)
unfolding compile_member
Accepts-member (some path) b c member span h = Accepts-load_name path span
Accepts-member none b c member span h = Accepts-last b c _ h (Accepts-emit_data _ member _ _)

Accepts-index :
    (args : Bool) (o : Option ℕ) (b d : Bool) (c e : Compiler Unit) (span : SourceSpan)
    → Accepts b c
    → Accepts d e
    → Accepts
        (supported_index args (is_some o) b d)
        (compile_index args (args_index args o) c e span)
unfolding compile_index
Accepts-index true (some index) b d c e span h k = Accepts-emit _
Accepts-index true none b d c e span h k = Accepts-fail _ _ span
Accepts-index false o b d c e span h k = Accepts-two b d c e _ h k

module _ {D : Type 0} (double : DoubleOps D) where
  Accepts-binary :
      (op : Bytes) (b d : Bool) (c e : Compiler Unit) (span : SourceSpan)
      → Accepts b c
      → Accepts d e
      → Accepts (one_of op binary_operators && (b && d)) (compile_binary op c e span)
  unfolding compile_binary
  Accepts-binary op b d c e span h k =
      subst (λ x. Accepts (x && (b && d)) (compile_binary op c e span)) (operators_lem op)
        (Accepts-comparison (comparison_opcode op) _ b d c e _ span h k
          (Accepts-logical op b d c e span h k))

  Accepts-path :
      (base : Expression D) (member : Bytes) (b : Bool) (c : Compiler Unit) (span : SourceSpan)
      → Accepts b c
      → Accepts
          (supported_member (spelled base (str "." ++ member)) b)
          (compile_member (append_member (flatten_identifier_path base) member) c member span)
  Accepts-path base member b c span h =
      rw (append_member-spelled base member)
        (Accepts-member (spelled base (str "." ++ member)) b c member span h)

  Accepts-element :
      (base index : Expression D) (b d : Bool) (c e : Compiler Unit) (span : SourceSpan)
      → Accepts b c
      → Accepts d e
      → Accepts
          (supported_index (names_args base) (is_some (whole_number double index)) b d)
          (compile_index (is_args base) (constant_arg_index double base index) c e span)
  Accepts-element base index b d c e span h k =
      rw (is_args-names_args base, constant_arg_index_lem double base index)
        (Accepts-index (names_args base) (whole_number double index) b d c e span h k)

  mutual
    unfolding compile_expression_node supported

    Accepts-node :
        (e : Expression D) (s : Builder)
        → Answers (supported double e) (compile_expression_node double e s)
    Accepts-node (identifier_expr name span) = Accepts-load_name name span
    Accepts-node (string_expr value span) = Accepts-emit_data _ value _ _
    Accepts-node (number_expr value lexeme span) = Accepts-emit _
    Accepts-node (bool_expr value span) = Accepts-emit _
    Accepts-node (unary_expr op operand span) =
        Accepts-last _ _ _ (Accepts-node operand) (Accepts-emit _)
    Accepts-node (binary_expr left op right span) =
        Accepts-binary op _ _ _ _ span (Accepts-node left) (Accepts-node right)
    Accepts-node (grouped_expr expression span) = Accepts-node expression
    Accepts-node (member_access_expr base member span) =
        Accepts-path base member _ _ span (Accepts-node base)
    Accepts-node (index_access_expr base index span) =
        Accepts-element base index _ _ _ _ span (Accepts-node base) (Accepts-node index)
    Accepts-node (len_call_expr operand span) =
        Accepts-last _ _ _ (Accepts-node operand) (Accepts-emit _)
    Accepts-node (lua_call_expr source span) = Accepts-emit_data _ source _ _
    Accepts-node (filter_call_expr input name arguments span) =
        Accepts-then _ _ _ _ (Accepts-node input)
          (Accepts-last _ _ _ (Accepts-nodes arguments) (Accepts-emit_data _ name _ _))
    Accepts-node (function_call_expr name arguments span) =
        Accepts-last _ _ _ (Accepts-nodes arguments) (Accepts-emit_data _ name _ _)

    Accepts-nodes :
        (es : Expressions D) (s : Builder)
        → Answers (supported_each double es) (compile_expression_nodes double es s)
    Accepts-nodes no_expressions = Accepts-nothing
    Accepts-nodes (more_expressions e es) = Accepts-then _ _ _ _ (Accepts-node e) (Accepts-nodes es)

  -- In every state the compiler takes an expression, and gives a state, exactly if every binary
  -- operator in what it compiles is one of `==`, `!=`, `<`, `>`, `<=`, `>=`, `in`, `&&` and `||`, and
  -- every index of `ARGS` in it is a numeral that is a whole number and not below zero; else it
  -- throws an exception.
  pub compile_expression_node-Answers :
      (e : Expression D) (s : Builder)
      → Answers (supported double e) (compile_expression_node double e s)
  compile_expression_node-Answers e s = Accepts-node e s
