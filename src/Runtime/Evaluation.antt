-- ===== src/Runtime/Evaluation.antt =====
-- runtime/compiled/CompiledTemplateCompiler.cpp and CompiledTemplateExecutor.cpp:
-- `compile_expression`, and `evaluate_expression` of what it emits.
use mathlib.Core.Path.{subst}
use prebyte.Base.{
  length-append, append_assoc, ◌-◌, ℕ, suc, ◌+◌, ◌<◌, List, [], ◌∷◌, ◌++◌, ◌≡◌, refl, sym, ap, ◌∙◌,
  arith, Bytes, length,
}
use prebyte.Result.{
  Result, ok, err, out_of_fuel, ◌>>=◌, Yields, Yields-bind, Yields-any, Yields-map,
}
use prebyte.Template.Expression.{
  Expression, Expressions, identifier_expr, string_expr, number_expr, bool_expr, unary_expr,
  binary_expr, grouped_expr, member_access_expr, index_access_expr, len_call_expr, lua_call_expr,
  filter_call_expr, function_call_expr, no_expressions, more_expressions,
}
use prebyte.Compiled.Program.{
  ExpressionOpcode, ExpressionInstruction, CompiledProgram, InstructionRange,
}
use prebyte.Compiled.Compiler.State
use prebyte.Compiled.Compiler.State.{
  expression_size, expression_size_from, word, DataSlice, Builder, Compiler, ◌>>◌, pure,
}
use prebyte.Compiled.Compiler.Expressions.{
  DoubleOps, with_slice, line_of, emit_data, comparison_opcode, compile_binary, count_of,
  compile_expression_node, compile_expression_nodes, compile_expression,
}
use prebyte.Runtime.Value.{Value}
use prebyte.Runtime.Filters.{apply}
use prebyte.Runtime.Machine.{run_loop, run_range, result_of, Services, call, unary}
use prebyte.Runtime.Meaning.{value_of, values_of, comparison}
use prebyte.Runtime.Operators.{comparison-Implements}
use prebyte.Runtime.Runs.{CodeAt, CodeAt-prefix, Runs-end, bind_assoc}
use prebyte.Runtime.Effects.{
  Act, push, push_all, apply1, apply_all, filter-IsStraight, call-IsStraight,
}
use prebyte.Runtime.Compiles.{Stored, IsSmall, bytes_of, code_of}
use prebyte.Runtime.Emitted.{
  Compiled, Emits, Compiles, Compiles-same, Compiles-pure, Compiles-then, Compiles-emit_data,
}
use prebyte.Runtime.Equations.{push-then, apply_all-push_all, push_all-push}
use prebyte.Runtime.Correct.{
  IsFaithful, Compiles-leaf, Compiles-leaf_data, number-leaf, bool-leaf, string-leaf, lua-leaf,
  Compiles-name, Compiles-unary, Compiles-logical, Compiles-compared, Compiles-path,
  Compiles-element,
}

-- Every call has fewer arguments than 2 to the power of 32.
module _ {D : Type 0} where
  unfoldable mutual
    pub FewArguments : Expression D → Type 0
    FewArguments (unary_expr op operand span) = FewArguments operand
    FewArguments (binary_expr left op right span) = FewArguments left × FewArguments right
    FewArguments (grouped_expr expression span) = FewArguments expression
    FewArguments (member_access_expr base member span) = FewArguments base
    FewArguments (index_access_expr base index span) = FewArguments base × FewArguments index
    FewArguments (len_call_expr operand span) = FewArguments operand
    FewArguments (filter_call_expr input name arguments span) =
        FewArguments input × FewArgumentsEach arguments × (count_of arguments < 4294967296)
    FewArguments (function_call_expr name arguments span) =
        FewArgumentsEach arguments × (count_of arguments < 4294967296)
    FewArguments _ = Unit

    pub FewArgumentsEach : Expressions D → Type 0
    FewArgumentsEach no_expressions = Unit
    FewArgumentsEach (more_expressions e es) = FewArguments e × FewArgumentsEach es

module _ {D S : Type 0} (double : DoubleOps D) (services : Services D S) where
  -- As many values as there are arguments.
  values_of-count :
      (es : Expressions D) (session : S)
      → Yields
          (λ (x : List (Value D) × S). length x.0 ≡ count_of es)
          (values_of double services es session)
  unfolding values_of count_of
  values_of-count no_expressions session = refl
  values_of-count (more_expressions e es) session =
      Yields-bind (λ _. Unit) _ (value_of double services e session) _
        (Yields-any (value_of double services e session))
        λ (v, later) u.
          Yields-bind (λ (x : List (Value D) × S). length x.0 ≡ count_of es) _
            (values_of double services es later) _ (values_of-count es later)
            λ (vs, last) size. ap suc size

  -- `word` of a count that is one.
  counted : (n : ℕ) → n < 4294967296 → n ≡ word n
  unfolding word
  counted n h = omega arith

  Yields-counted :
      (es : Expressions D) (session : S)
      → count_of es < 4294967296
      → Yields
          (λ (x : List (Value D) × S). length x.0 ≡ word (count_of es))
          (values_of double services es session)
  Yields-counted es session h =
      Yields-map _ _ (values_of double services es session)
        (λ x size. size ∙ counted (count_of es) h) (values_of-count es session)

  -- The arguments, and the call of a function.
  Compiles-call :
      (name : Bytes) (es : Expressions D) (c : Compiler Unit) (line : ℕ)
      → count_of es < 4294967296
      → Compiles services c (push_all services (values_of double services es))
      → Compiles services
          (c >> emit_data ExpressionOpcode.call_function name (word (count_of es)) line)
          (push services λ now.
            values_of double services es now >>= λ (vs, later). call services name vs line later)
  Compiles-call name es c line few h =
      Compiles-same services _ _ _
        (λ stack session.
          apply_all-push_all services (values_of double services es) (word (count_of es))
            (λ vs. push services (call services name vs line)) stack session
            (Yields-counted es session few)
          ∙ sym (bind_assoc (values_of double services es session) _ _))
        (Compiles-then services c _ _ _ h (
          Compiles-emit_data services ExpressionOpcode.call_function name _ _
            (apply_all services (word (count_of es))
              λ vs. push services (call services name vs line))
            λ p slice held. rw held at (
              call-IsStraight services p
                (with_slice ExpressionOpcode.call_function slice (word (count_of es)) line) refl)))

  -- The input, the arguments, and the filter.
  Compiles-filter :
      (name : Bytes) (es : Expressions D) (c d : Compiler Unit) (m : Act services (Value D))
      (line : ℕ)
      → count_of es < 4294967296
      → Compiles services c (push services m)
      → Compiles services d (push_all services (values_of double services es))
      → Compiles services
          (c >> (d >> emit_data ExpressionOpcode.apply_filter name (word (count_of es)) line))
          (push services λ now. m now >>= λ (v, later).
            values_of double services es later >>= λ (vs, last).
            apply services.numbers name (v ∷ vs) >>= λ w. ok (w, last))
  Compiles-filter name es c d m line few h k =
      Compiles-same services _ _ _
        (λ stack session. push-then services m _ _ stack session λ v later.
          apply_all-push_all services (values_of double services es) (word (count_of es))
            (λ vs.
              apply1 services
                λ input now. apply services.numbers name (input ∷ vs) >>= λ w. ok (w, now))
            (v ∷ stack) later (Yields-counted es later few)
          ∙ sym (bind_assoc (values_of double services es later) _ _))
        (Compiles-then services c _ _ _ h (
          Compiles-then services d _ _ _ k (
            Compiles-emit_data services ExpressionOpcode.apply_filter name _ _
              (apply_all services (word (count_of es)) λ vs.
                apply1 services
                  λ input now. apply services.numbers name (input ∷ vs) >>= λ w. ok (w, now))
              λ p slice held. rw held at (
                filter-IsStraight services p
                  (with_slice ExpressionOpcode.apply_filter slice (word (count_of es)) line)
                  refl))))

  module _ (faithful : IsFaithful double services) where
    mutual
      unfolding compile_expression_node value_of compile_binary FewArguments unary

      Compiles-node :
          (e : Expression D)
          → FewArguments e
          → Compiles services
              (compile_expression_node double e)
              (push services (value_of double services e))
      Compiles-node (identifier_expr name span) h = Compiles-name double services name span
      Compiles-node (string_expr value span) h =
          Compiles-leaf_data double services ExpressionOpcode.push_string value 0 0 _
            λ p slice session held. string-leaf double services p slice session value 0 0 held
      Compiles-node (number_expr value lexeme span) h =
          Compiles-leaf double services _ _
            λ p session. number-leaf double services faithful p session value
      Compiles-node (bool_expr value span) h =
          Compiles-leaf double services _ _ λ p session. bool-leaf double services value p session
      Compiles-node (unary_expr op operand span) h =
          Compiles-unary double services ExpressionOpcode.not _ _ tt (Compiles-node operand h)
      Compiles-node (binary_expr left op right span) h =
          Compiles-compared double services (comparison_opcode op) (comparison double services op) _
            _ _ _ _ _ span (comparison-Implements double services op) (Compiles-node left h.0)
            (Compiles-node right h.1)
            (Compiles-logical double services op _ _ _ _ span (Compiles-node left h.0)
              (Compiles-node right h.1))
      Compiles-node (grouped_expr expression span) h = Compiles-node expression h
      Compiles-node (member_access_expr base member span) h =
          Compiles-path double services base member _ _ span (Compiles-node base h)
      Compiles-node (index_access_expr base index span) h =
          Compiles-element double services base index _ _ _ _ span (Compiles-node base h.0)
            (Compiles-node index h.1)
      Compiles-node (len_call_expr operand span) h =
          Compiles-unary double services ExpressionOpcode.len _ _ tt (Compiles-node operand h)
      Compiles-node (lua_call_expr source span) h =
          Compiles-leaf_data double services ExpressionOpcode.eval_lua source _ _ _
            λ p slice session held. lua-leaf double services p slice session source _ _ held
      Compiles-node (filter_call_expr input name arguments span) h =
          Compiles-filter name arguments _ _ _ (line_of span) h.2 (Compiles-node input h.0)
            (Compiles-nodes arguments h.1)
      Compiles-node (function_call_expr name arguments span) h =
          Compiles-call name arguments _ (line_of span) h.1 (Compiles-nodes arguments h.0)

      Compiles-nodes :
          (es : Expressions D)
          → FewArgumentsEach es
          → Compiles services
              (compile_expression_nodes double es)
              (push_all services (values_of double services es))
      Compiles-nodes no_expressions h = Compiles-pure services
      Compiles-nodes (more_expressions e es) h =
          Compiles-same services _ _ _
            (push_all-push services (value_of double services e) (values_of double services es))
            (Compiles-then services _ _ _ _ (Compiles-node e h.0) (Compiles-nodes es h.1))

    finished :
        (r : Result (Value D × S))
        → ((r >>= λ (v, later). ok (v ∷ [], later)) >>= λ (after, later).
            result_of services after later)
          ≡ r
    unfolding result_of
    finished (ok (v, later)) = refl
    finished (err x) = refl
    finished out_of_fuel = refl

    -- What is known of the state behind an expression, and its range.
    pub record Behind (e : Expression D) (s t : Builder) (range : InstructionRange) : Type 0 where
      pub offset : range.offset ≡ length (code_of s)
      pub size : range.offset + range.length ≡ length (code_of t)
      pub compiled : Compiled services s t (push services (value_of double services e))

    ranged :
        (e : Expression D) (s t : Builder)
        → Emits services s (push services (value_of double services e)) (tt {0}, t)
        → Stored s
        → IsSmall t
        → Behind e s t (record {
          offset = word (length (code_of s));
          length = word (length (code_of t) - word (length (code_of s)));
        })
    unfolding word
    ranged e s t (grows, compiled) stored small = record {
      offset = omega (arith, small.0, grows.code);
      size = omega (arith, small.0, grows.code);
      compiled = compiled stored small;
    }

    pub compile_expression-Behind :
        (e : Expression D)
        → FewArguments e
        → (s : Builder)
        → Yields
            (λ (r : InstructionRange × Builder). Stored s → IsSmall r.1 → Behind e s r.1 r.0)
            (compile_expression double e s)
    unfolding compile_expression expression_size expression_size_from State.◌>>=◌ State.pure
    compile_expression-Behind e few s =
        Yields-bind (Emits services s (push services (value_of double services e))) _
          (compile_expression_node double e s) _ (Compiles-node e few s)
          λ (done, t) emits stored small. ranged e s t emits stored small

    pub Yields-ok :
        {A : Type 0} (P : A → Type 0) (m : Result A) (a : A) → m ≡ ok a → Yields P m → P a
    Yields-ok P m a e h = rw e at (h)

    -- If the numbers are those of the machine, every call has fewer than 2 to the power of 32
    -- arguments, every text stored before is where its slice says, compiling the expression gives
    -- the range and a state whose instructions and data fit into 32 bits, and the program begins
    -- with the instructions and the data of that state: the machine, run_loop over the range, gives what
    -- the expression means, be it a value or an exception, and leaves the session that it leaves.
    pub run_range-value_of :
        (e : Expression D) (s t : Builder) (range : InstructionRange)
        → FewArguments e
        → Stored s
        → compile_expression double e s ≡ ok (range, t)
        → IsSmall t
        → (p : CompiledProgram) (later_code : List ExpressionInstruction) (later_data : Bytes)
        → p.expression_instructions ≡ code_of t ++ later_code
        → p.data_blob ≡ bytes_of t ++ later_data
        → (session : S) → run_range services p range session ≡ value_of double services e session
    unfolding run_range
    run_range-value_of e s t range few stored ran small p later_code later_data code data_is
          session =
        let behind =
          Yields-ok _ (compile_expression double e s) (range, t) ran
            (compile_expression-Behind e few s) stored small in
        let k = behind.compiled in
        let size = ap length k.codes ∙ length-append (code_of s) k.code in
        let offset = behind.offset in
        let range_end = behind.size in
        let end : ℕ = range.offset + range.length in
        let at : CodeAt p.expression_instructions (length (code_of s)) k.code =
          subst (λ all. CodeAt all (length (code_of s)) k.code)
            (sym (
              code
              ∙ ap (λ c. c ++ later_code) k.codes
              ∙ append_assoc (code_of s) k.code later_code))
            (CodeAt-prefix (code_of s) k.code later_code) in
        let runs =
          (k.performs p later_data data_is).performs end (omega (arith, size, offset, range_end)) at
            (λ after later. result_of services after later) [] session
            (λ after later.
              Runs-end services p end (length (code_of s) + length k.code) after later
                (omega (arith, size, offset, range_end))) in
        ap (λ n. run_loop services p end range.length (n, [], session)) offset
        ∙ runs range.length (omega (arith, size, offset, range_end))
        ∙ finished (value_of double services e session)
