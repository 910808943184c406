-- ===== src/Runtime/Correct.antt =====
-- runtime/compiled/CompiledTemplateCompiler.cpp and CompiledTemplateExecutor.cpp: the code of an
-- expression, run_loop by `evaluate_expression`, and what the expression means.
use mathlib.Core.Path.{subst}
use prebyte.Base.{
  ℕ, ◌+◌, ◌*◌, ◌/◌, ◌%◌, ◌<◌, Bool, true, false, not, Option, none, some, ◌≡◌, refl, ap, ◌∙◌, arith,
  Bytes, equal, str, ◌++◌, if◌then◌else◌,
}
use prebyte.Result.{SourceSpan, Result, ok, ◌>>=◌}
use prebyte.Template.Expression.{Expression}
use prebyte.Compiled.Program.{ExpressionOpcode, ExpressionInstruction, CompiledProgram}
use prebyte.Compiled.Compiler.State.{word, DataSlice, Compiler, ◌>>◌}
use prebyte.Compiled.Compiler.Expressions.{
  DoubleOps, is_builtin_name, plain, with_slice, line_of, column_of, emit, emit_data, load_name,
  compile_logical, compile_comparison, compile_member, compile_index, append_member,
  flatten_identifier_path, is_args, constant_arg_index,
}
use prebyte.Compiled.Compiler.Described.{
  args_index, spelled, names_args, whole_number, is_builtin_name-one_of, append_member-spelled,
  is_args-names_args, constant_arg_index_lem,
}
use prebyte.Runtime.Value.{Value, bool, number, view, to_bool}
use prebyte.Runtime.Resolver.{resolve_member}
use prebyte.Runtime.Machine.{Services, data_view, leaf, unary, binary}
use prebyte.Runtime.Meaning.{
  place, name_value, logical_value, Comparison, compared, member_value, index_value,
}
use prebyte.Runtime.Effects.{
  Act, push, apply1-push, apply2-push, IsUnary, IsBinary, leaf-IsStraight, unary-IsStraight,
  binary-IsStraight, member-IsStraight,
}
use prebyte.Runtime.Operators.{Implements}
use prebyte.Runtime.Jumps.{false-IsCut, true-IsCut}
use prebyte.Runtime.Emitted.{
  Compiles, Compiles-same, Compiles-fail, Compiles-then, Compiles-emit, Compiles-emit_data,
}
use prebyte.Runtime.Patched.{Compiles-short_circuit}
use prebyte.Runtime.Equations.{true-circuit, false-circuit}

module _ {D S : Type 0} (double : DoubleOps D) (services : Services D S) where
  -- The bits of a number are 64, and give the number back.
  pub record IsFaithful : Type 0 where
    pub bits : (d : D) → double.bits d < 18446744073709551616
    pub back : (d : D) → services.of_bits (double.bits d) ≡ d

  pub Compiles-leaf :
      (i : ExpressionInstruction) (m : Act services (Value D))
      → ((p : CompiledProgram) (session : S) → leaf services p i session ≡ some (m session))
      → Compiles services (emit i) (push services m)
  Compiles-leaf i m e =
      Compiles-emit services i (push services m) λ p. leaf-IsStraight services p i m (e p)

  pub Compiles-leaf_data :
      (op : ExpressionOpcode) (value : Bytes) (a b : ℕ) (m : Act services (Value D))
      → ((p : CompiledProgram) (slice : DataSlice) (session : S)
          → data_view p slice.offset slice.length ≡ ok value
          → leaf services p (with_slice op slice a b) session ≡ some (m session))
      → Compiles services (emit_data op value a b) (push services m)
  Compiles-leaf_data op value a b m e =
      Compiles-emit_data services op value a b (push services m) λ p slice held.
        leaf-IsStraight services p (with_slice op slice a b) m λ session. e p slice session held

  variable-leaf :
      (p : CompiledProgram) (slice : DataSlice) (session : S) (name : Bytes) (a b : ℕ)
      → data_view p slice.offset slice.length ≡ ok name
      → leaf services p (with_slice ExpressionOpcode.load_var slice a b) session
        ≡ some (services.load_name false name (place double services a b) session)
  unfolding leaf
  variable-leaf p slice session name a b held = rw held refl

  builtin-leaf :
      (p : CompiledProgram) (slice : DataSlice) (session : S) (name : Bytes) (a b : ℕ)
      → data_view p slice.offset slice.length ≡ ok name
      → leaf services p (with_slice ExpressionOpcode.load_builtin slice a b) session
        ≡ some (services.load_name true name (place double services a b) session)
  unfolding leaf
  builtin-leaf p slice session name a b held = rw held refl

  pub string-leaf :
      (p : CompiledProgram) (slice : DataSlice) (session : S) (name : Bytes) (a b : ℕ)
      → data_view p slice.offset slice.length ≡ ok name
      → leaf services p (with_slice ExpressionOpcode.push_string slice a b) session
        ≡ some (ok (view name, session))
  unfolding leaf
  string-leaf p slice session name a b held = rw held refl

  pub lua-leaf :
      (p : CompiledProgram) (slice : DataSlice) (session : S) (name : Bytes) (a b : ℕ)
      → data_view p slice.offset slice.length ≡ ok name
      → leaf services p (with_slice ExpressionOpcode.eval_lua slice a b) session
        ≡ some (services.eval_lua name (place double services a b) session)
  unfolding leaf
  lua-leaf p slice session name a b held = rw held refl

  pub Compiles-name :
      (name : Bytes) (span : SourceSpan)
      → Compiles services
          (load_name name span)
          (push services (name_value double services name span))
  unfolding load_name name_value
  Compiles-name name span =
      subst
        (λ b. Compiles services (load_name name span) (
          push services
            (services.load_name b name (place double services (line_of span) (column_of span)))))
        (is_builtin_name-one_of name) (named (is_builtin_name name))
    where
      named :
          (b : Bool)
          → Compiles services
              (emit_data
                (if b then ExpressionOpcode.load_builtin else ExpressionOpcode.load_var)
                name
                (line_of span)
                (column_of span))
              (push services
                (services.load_name b name (place double services (line_of span) (column_of span))))
      named true =
          Compiles-leaf_data ExpressionOpcode.load_builtin name _ _ _
            λ p slice session held. builtin-leaf p slice session name _ _ held
      named false =
          Compiles-leaf_data ExpressionOpcode.load_var name _ _ _
            λ p slice session held. variable-leaf p slice session name _ _ held

  pub number-leaf :
      (faithful : IsFaithful) (p : CompiledProgram) (session : S) (d : D)
      → leaf services p
          (plain ExpressionOpcode.push_number
            (double.bits d % 4294967296)
            (word (double.bits d / 4294967296)))
          session
        ≡ some (ok (number d, session))
  unfolding leaf word
  number-leaf faithful p session d =
      let small = faithful.bits d in
      let whole : double.bits d % 4294967296
            + 4294967296 * (double.bits d / 4294967296 % 4294967296)
          ≡ double.bits d =
        omega (arith, small) in
      ap (λ n. some (ok (number (services.of_bits n), session))) whole
      ∙ ap (λ x. some (ok (number x, session))) (faithful.back d)

  pub bool-leaf :
      (b : Bool) (p : CompiledProgram) (session : S)
      → leaf services p (plain ExpressionOpcode.push_bool (if b then 1 else 0) 0) session
        ≡ some (ok (bool b, session))
  unfolding leaf
  bool-leaf true p session = refl
  bool-leaf false p session = refl

  arg-leaf :
      (index : ℕ) (span : SourceSpan) (p : CompiledProgram) (session : S)
      → leaf services p (plain ExpressionOpcode.load_arg index (line_of span)) session
        ≡ some (services.load_arg index (place double services (line_of span) 1) session)
  unfolding leaf
  arg-leaf index span p session = refl

  -- An operand, and an instruction of one value.
  pub Compiles-unary :
      (op : ExpressionOpcode) (c : Compiler Unit) (m : Act services (Value D))
      → IsUnary op
      → Compiles services c (push services m)
      → Compiles services
          (c >> emit (plain op 0 0))
          (push services λ now. m now >>= λ (v, later). ok (unary services op v, later))
  Compiles-unary op c m is h =
      Compiles-same services _ _ _
        (apply1-push services m (λ v session. ok (unary services op v, session)))
        (Compiles-then services c _ _ _ h
          (Compiles-emit services (plain op 0 0) _ λ p. unary-IsStraight services p op 0 0 is))

  -- Two operands, and an instruction of two values.
  pub Compiles-two :
      (op : ExpressionOpcode) (c d : Compiler Unit) (m n : Act services (Value D)) (a b : ℕ)
      → IsBinary op
      → Compiles services c (push services m)
      → Compiles services d (push services n)
      → Compiles services (c >> (d >> emit (plain op a b))) (
          push services λ now. m now >>= λ (v, later).
          n later >>= λ (w, last). binary services op v w a b >>= λ u. ok (u, last))
  Compiles-two op c d m n a b is h k =
      Compiles-same services _ _ _
        (apply2-push services m n
          (λ v w session. binary services op v w a b >>= λ u. ok (u, session)))
        (Compiles-then services c _ _ _ h (
          Compiles-then services d _ _ _ k
            (Compiles-emit services (plain op a b) _ λ p. binary-IsStraight services p op a b is)))

  -- The same of what does as the instruction does.
  Compiles-computed :
      (op : ExpressionOpcode) (c d : Compiler Unit) (m n : Act services (Value D))
      (f : Comparison double services) (a b : ℕ)
      → IsBinary op
      → ((v w : Value D) (a b : ℕ) → binary services op v w a b ≡ f v w a b)
      → Compiles services c (push services m)
      → Compiles services d (push services n)
      → Compiles services (c >> (d >> emit (plain op a b))) (
          push services
            λ now. m now >>= λ (v, later). n later >>= λ (w, last). f v w a b >>= λ u. ok (u, last))
  Compiles-computed op c d m n f a b is does h k =
      subst
        (λ (g : Value D → Value D → Result (Value D)).
          Compiles services (c >> (d >> emit (plain op a b))) (
            push services
              λ now. m now >>= λ (v, later). n later >>= λ (w, last). g v w >>= λ u. ok (u, last)))
        (λ i v w. does v w a b i) (Compiles-two op c d m n a b is h k)

  pub Compiles-if :
      (b : Bool) (c d : Compiler Unit) (m n : Act services (Value D))
      → Compiles services c (push services m)
      → Compiles services d (push services n)
      → Compiles services (if b then c else d) (push services (if b then m else n))
  Compiles-if true c d m n h k = h
  Compiles-if false c d m n h k = k

  pub Compiles-logical :
      (op : Bytes) (c d : Compiler Unit) (m n : Act services (Value D)) (span : SourceSpan)
      → Compiles services c (push services m)
      → Compiles services d (push services n)
      → Compiles services
          (compile_logical op c d span)
          (push services (logical_value double services op m n))
  unfolding compile_logical logical_value
  Compiles-logical op c d m n span h k =
      Compiles-if (equal op (str "&&")) _ _ _ _
        (Compiles-same services _ _ _ (true-circuit services double m n) (
          Compiles-short_circuit _ 0 services (to_bool services.numbers) m n c d
            (λ p. false-IsCut services p) h k))
        (Compiles-if (equal op (str "||")) _ _ _ _
          (Compiles-same services _ _ _ (false-circuit services double m n) (
            Compiles-short_circuit _ 1 services (λ v. not (to_bool services.numbers v)) m n c d
              (λ p. true-IsCut services p) h k))
          (Compiles-fail services _ _ _ _))

  pub Compiles-compared :
      (o : Option ExpressionOpcode) (f : Option (Comparison double services))
      (c d e : Compiler Unit) (m n other : Act services (Value D)) (span : SourceSpan)
      → Implements double services o f
      → Compiles services c (push services m)
      → Compiles services d (push services n)
      → Compiles services e (push services other)
      → Compiles services
          (compile_comparison o c d span e)
          (push services (compared double services f m n span other))
  Compiles-compared none none c d e m n other span is h k l = l
  Compiles-compared none (some f) c d e m n other span is h k l = absurd is
  Compiles-compared (some op) none c d e m n other span is h k l = absurd is
  Compiles-compared (some op) (some f) c d e m n other span (is, does) h k l =
      Compiles-computed op c d m n f _ _ is does h k

  pub Compiles-member :
      (o : Option Bytes) (c : Compiler Unit) (m : Act services (Value D)) (member : Bytes)
      (span : SourceSpan)
      → Compiles services c (push services m)
      → Compiles services
          (compile_member o c member span)
          (push services (member_value double services o m member span))
  unfolding compile_member
  Compiles-member (some path) c m member span h = Compiles-name path span
  Compiles-member none c m member span h =
      Compiles-same services _ _ _
        (apply1-push services m (λ v session.
          resolve_member services.numbers services.stoull services.settings v member
            (place double services (line_of span) (column_of span))
          >>= λ w. ok (w, session)))
        (Compiles-then services c _ _ _ h (
          Compiles-emit_data services ExpressionOpcode.load_member member _ _ _ λ p slice held.
            rw held at (
              member-IsStraight services p
                (with_slice ExpressionOpcode.load_member slice (line_of span) (column_of span))
                refl)))

  pub Compiles-index :
      (args : Bool) (o : Option ℕ) (c d : Compiler Unit) (m n : Act services (Value D))
      (span : SourceSpan)
      → Compiles services c (push services m)
      → Compiles services d (push services n)
      → Compiles services
          (compile_index args (args_index args o) c d span)
          (push services (index_value double services args o m n span))
  unfolding compile_index binary
  Compiles-index true (some index) c d m n span h k =
      Compiles-leaf _ _ λ p session. arg-leaf index span p session
  Compiles-index true none c d m n span h k = Compiles-fail services _ _ _ _
  Compiles-index false o c d m n span h k =
      Compiles-two ExpressionOpcode.load_index c d m n _ _ tt h k

  -- The parts as the compiler finds them, and as the language has them.
  pub Compiles-path :
      (base : Expression D) (member : Bytes) (c : Compiler Unit) (m : Act services (Value D))
      (span : SourceSpan)
      → Compiles services c (push services m)
      → Compiles services
          (compile_member (append_member (flatten_identifier_path base) member) c member span)
          (push services
            (member_value double services (spelled base (str "." ++ member)) m member span))
  Compiles-path base member c m span h =
      rw (append_member-spelled base member) (Compiles-member _ c m member span h)

  pub Compiles-element :
      (base index : Expression D) (c d : Compiler Unit) (m n : Act services (Value D))
      (span : SourceSpan)
      → Compiles services c (push services m)
      → Compiles services d (push services n)
      → Compiles services
          (compile_index (is_args base) (constant_arg_index double base index) c d span)
          (push services
            (index_value double services (names_args base) (whole_number double index) m n span))
  Compiles-element base index c d m n span h k =
      rw (is_args-names_args base, constant_arg_index_lem double base index)
        (Compiles-index _ _ c d m n span h k)
