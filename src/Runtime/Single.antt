-- ===== src/Runtime/Single.antt =====
-- runtime/compiled/CompiledTemplateExecutor.cpp: the short way of `evaluate_expression` for a range
-- of one instruction.
use mathlib.Core.Path.{subst}
use prebyte.Base.{
  ℕ, suc, ◌+◌, true, false, Option, none, some, List, [], ◌∷◌, ◌++◌, append_assoc, length,
  length-append, ltb, ◌==◌, ◌≡◌, ◌⊎◌, inl, inr, Bool-cases, ==_iff, refl, sym, ap, ◌∙◌, arith,
  Bytes,
}
use prebyte.Result.{Result, ok, err, out_of_fuel, ◌>>=◌, Yields, Yields-bind}
use prebyte.Template.Expression.{Expression}
use prebyte.Compiled.Program.{
  ExpressionOpcode, ExpressionInstruction, InstructionRange, CompiledProgram,
}
use prebyte.Compiled.Compiler.State
use prebyte.Compiled.Compiler.State.{Builder, expression_size, expression_size_from}
use prebyte.Compiled.Compiler.Expressions.{DoubleOps, compile_expression, compile_expression_node}
use prebyte.Runtime.Value.{Value}
use prebyte.Runtime.Machine.{
  Services, State, leaf, operate, execute, pop_arguments, data_view, call, instruction_at,
  result_of, run_loop, run_range, single, single_or, evaluate_expression,
}
use prebyte.Runtime.Meaning.{value_of}
use prebyte.Runtime.Runs.{bind_assoc, CodeAt-prefix}
use prebyte.Runtime.Compiles.{Stored, IsSmall, code_of, bytes_of}
use prebyte.Runtime.Correct.{IsFaithful}
use prebyte.Runtime.Lone.{LoneCall, IsLone, compile_expression_node-IsCode}
use prebyte.Runtime.Evaluation.{
  FewArguments, Behind, Yields-ok, compile_expression-Behind, run_range-value_of,
}

module _ {D S : Type 0} (services : Services D S) (p : CompiledProgram) where
  -- One value on the stack, behind the only instruction.
  abbrev alone : ℕ → Result (Value D × S) → Result (State services)
  alone pc r = r >>= λ (v, later). ok (suc pc, v ∷ [], later)

  ended :
      (pc : ℕ) (r : Result (Value D × S))
      → (alone pc r >>= λ state. run_loop services p (pc + 1) 0 state) ≡ r
  unfolding run_loop result_of
  ended pc (ok (v, later)) = let over : ltb (suc pc) (pc + 1) ≡ false = ground arith in rw over refl
  ended pc (err e) = refl
  ended pc out_of_fuel = refl

  run_loop-in :
      (pc : ℕ) (i : ExpressionInstruction) (session : S)
      → instruction_at p.expression_instructions pc ≡ ok i
      → run_loop services p (pc + 1) 1 (pc, [], session)
        ≡ (execute services p i (pc, [], session) >>= λ state. run_loop services p (pc + 1) 0 state)
  unfolding run_loop
  run_loop-in pc i session at =
      let inside : ltb pc (pc + 1) ≡ true = ground arith in rw (inside, at) refl

  one-run_loop :
      (pc : ℕ) (i : ExpressionInstruction) (session : S) (r : Result (Value D × S))
      → instruction_at p.expression_instructions pc ≡ ok i
      → execute services p i (pc, [], session) ≡ alone pc r
      → run_loop services p (pc + 1) 1 (pc, [], session) ≡ r
  one-run_loop pc i session r at e = entered ∙ ended pc r
    where
      entered :
          run_loop services p (pc + 1) 1 (pc, [], session)
          ≡ (alone pc r >>= λ state. run_loop services p (pc + 1) 0 state)
      entered =
          run_loop-in pc i session at
          ∙ ap (λ m. m >>= λ state. run_loop services p (pc + 1) 0 state) e

  -- What the short way looks at is the same as what the machine does.
  single-opcode :
      (op : ExpressionOpcode) (a b c d : ℕ) (session : S)
      → (op ≡ ExpressionOpcode.call_function)
        ⊎ (single services p
              (record { opcode = op; data_offset = a; data_length = b; arg0 = c; arg1 = d })
              session
            ≡ leaf services p
                (record { opcode = op; data_offset = a; data_length = b; arg0 = c; arg1 = d })
                session)
  unfolding single leaf
  single-opcode ExpressionOpcode.load_var a b c d session = inr refl
  single-opcode ExpressionOpcode.load_arg a b c d session = inr refl
  single-opcode ExpressionOpcode.load_builtin a b c d session = inr refl
  single-opcode ExpressionOpcode.push_string a b c d session = inr refl
  single-opcode ExpressionOpcode.push_bool a b c d session = inr refl
  single-opcode ExpressionOpcode.push_number a b c d session = inr refl
  single-opcode ExpressionOpcode.eval_lua a b c d session = inr refl
  single-opcode ExpressionOpcode.load_member a b c d session = inr refl
  single-opcode ExpressionOpcode.load_index a b c d session = inr refl
  single-opcode ExpressionOpcode.len a b c d session = inr refl
  single-opcode ExpressionOpcode.eq a b c d session = inr refl
  single-opcode ExpressionOpcode.ne a b c d session = inr refl
  single-opcode ExpressionOpcode.lt a b c d session = inr refl
  single-opcode ExpressionOpcode.gt a b c d session = inr refl
  single-opcode ExpressionOpcode.le a b c d session = inr refl
  single-opcode ExpressionOpcode.ge a b c d session = inr refl
  single-opcode ExpressionOpcode.in_ a b c d session = inr refl
  single-opcode ExpressionOpcode.apply_filter a b c d session = inr refl
  single-opcode ExpressionOpcode.not a b c d session = inr refl
  single-opcode ExpressionOpcode.to_bool a b c d session = inr refl
  single-opcode ExpressionOpcode.jump a b c d session = inr refl
  single-opcode ExpressionOpcode.jump_if_false a b c d session = inr refl
  single-opcode ExpressionOpcode.jump_if_true a b c d session = inr refl
  single-opcode ExpressionOpcode.call_function a b c d session = inl refl
  single-opcode (ExpressionOpcode.unknown n) a b c d session = inr refl

  leaf-execute :
      (i : ExpressionInstruction) (pc : ℕ) (session : S) (r : Result (Value D × S))
      → leaf services p i session ≡ some r
      → execute services p i (pc, [], session) ≡ alone pc r
  unfolding execute
  leaf-execute i pc session r e = rw e refl

  abbrev call_at : ℕ → ℕ → ℕ → ExpressionInstruction
  call_at a b d = record {
    opcode = ExpressionOpcode.call_function;
    data_offset = a;
    data_length = b;
    arg0 = 0;
    arg1 = d;
  }

  abbrev called_value : ℕ → ℕ → ℕ → S → Result (Value D × S)
  called_value a b d session = data_view p a b >>= λ name. call services name [] d session

  call-execute :
      (a b d pc : ℕ) (session : S)
      → execute services p (call_at a b d) (pc, [], session) ≡ alone pc (called_value a b d session)
  unfolding execute operate leaf pop_arguments
  call-execute a b d pc session = sym (bind_assoc (data_view p a b) _ _)

  call-single :
      (a b d : ℕ) (session : S)
      → single services p (call_at a b d) session ≡ some (called_value a b d session)
  unfolding single call
  call-single a b d session = refl

  single_or-same :
      (o : Option (Result (Value D × S))) (m : Result (Value D × S))
      → ((r : Result (Value D × S)) → o ≡ some r → m ≡ r)
      → single_or services o m ≡ m
  single_or-same none m h = refl
  single_or-same (some r) m h = sym (h r refl)

  call-same :
      (a b d pc : ℕ) (session : S)
      → instruction_at p.expression_instructions pc ≡ ok (call_at a b d)
      → single_or services
          (single services p (call_at a b d) session)
          (run_loop services p (pc + 1) 1 (pc, [], session))
        ≡ run_loop services p (pc + 1) 1 (pc, [], session)
  call-same a b d pc session at = rw (call-single a b d session) (
      sym (
        one-run_loop pc (call_at a b d) session (called_value a b d session) at
          (call-execute a b d pc session)))

  single-same :
      (i : ExpressionInstruction) (pc : ℕ) (session : S)
      → LoneCall i
      → instruction_at p.expression_instructions pc ≡ ok i
      → single_or services
          (single services p i session)
          (run_loop services p (pc + 1) 1 (pc, [], session))
        ≡ run_loop services p (pc + 1) 1 (pc, [], session)
  single-same i pc session lone at =
      elim (single-opcode i.opcode i.data_offset i.data_length i.arg0 i.arg1 session) [
        | inl is_call ↦
            let same : i ≡ call_at i.data_offset i.data_length i.arg1 =
              ap (λ (op : ExpressionOpcode). record i { opcode = op }) is_call
              ∙ ap (λ (n : ℕ). record i { opcode = ExpressionOpcode.call_function; arg0 = n })
                  (lone is_call) in
            subst
              (λ (j : ExpressionInstruction).
                single_or services (single services p j session)
                  (run_loop services p (pc + 1) 1 (pc, [], session))
                ≡ run_loop services p (pc + 1) 1 (pc, [], session))
              (sym same) (call-same i.data_offset i.data_length i.arg1 pc session (at ∙ ap ok same))
        | inr is_leaf ↦ rw is_leaf (
            single_or-same (leaf services p i session)
              (run_loop services p (pc + 1) 1 (pc, [], session))
              λ r e. one-run_loop pc i session r at (leaf-execute i pc session r e))
      ]

  -- The short way for a range of one instruction, which is no call with arguments.
  evaluate-one :
      (pc : ℕ) (i : ExpressionInstruction) (session : S)
      → LoneCall i
      → instruction_at p.expression_instructions pc ≡ ok i
      → evaluate_expression services p (record { offset = pc; length = 1 }) session
        ≡ run_range services p (record { offset = pc; length = 1 }) session
  unfolding evaluate_expression run_range
  evaluate-one pc i session lone at = rw at (single-same i pc session lone at)

  evaluate-other :
      (range : InstructionRange) (session : S)
      → (range.length == 1) ≡ false
      → evaluate_expression services p range session ≡ run_range services p range session
  unfolding evaluate_expression
  evaluate-other range session e = rw e refl

the_one :
    (before code later all : List ExpressionInstruction)
    → length code ≡ 1
    → all ≡ (before ++ code) ++ later
    → (i : ExpressionInstruction) × (code ≡ i ∷ []) × (instruction_at all (length before) ≡ ok i)
the_one before [] later all h is = absurd (omega (arith, h))
the_one before (i ∷ []) later all h is = (
  i,
  refl,
  subst (λ (list : List ExpressionInstruction). instruction_at list (length before) ≡ ok i)
      (sym (is ∙ append_assoc before (i ∷ []) later)) (CodeAt-prefix before (i ∷ []) later).0,
)
the_one before (i ∷ j ∷ code) later all h is = absurd (omega (arith, h))

module _ {D S : Type 0} (double : DoubleOps D) (services : Services D S)
    (faithful : IsFaithful double services) where
  compile_expression-IsLone :
      (e : Expression D) (s : Builder)
      → Yields (λ (r : InstructionRange × Builder). IsLone s r.1) (compile_expression double e s)
  unfolding compile_expression expression_size expression_size_from State.◌>>=◌ State.pure
  compile_expression-IsLone e s =
      Yields-bind (λ (r : Unit × Builder). IsLone s r.1) _ (compile_expression_node double e s) _
        ((compile_expression_node-IsCode double e).lone s) λ (done, t) lone. lone

  -- If the numbers are those of the machine, every call has fewer than 2 to the power of 32
  -- arguments, every text stored before is where its slice says, compiling the expression gives
  -- the range and a state whose instructions and data fit into 32 bits, and the program begins
  -- with the instructions and the data of that state: evaluating the range, by the short way if it
  -- is one instruction and else by the machine, gives what the expression means, be it a value or
  -- an exception, and leaves the session that it leaves.
  pub evaluate_expression-value_of :
      (e : Expression D) (s t : Builder) (range : InstructionRange)
      → FewArguments e
      → Stored s
      → compile_expression double e s ≡ ok (range, t)
      → IsSmall t
      → (p : CompiledProgram) (later_code : List ExpressionInstruction) (later_data : Bytes)
      → p.expression_instructions ≡ code_of t ++ later_code
      → p.data_blob ≡ bytes_of t ++ later_data
      → (session : S)
      → evaluate_expression services p range session ≡ value_of double services e session
  evaluate_expression-value_of e s t range few stored ran small p later_code later_data code data_is
        session =
      evaluated (Bool-cases (range.length == 1))
      ∙ run_range-value_of double services faithful e s t range few stored ran small p later_code
          later_data code data_is session
    where
      behind : Behind double services faithful e s t range
      behind =
          Yields-ok double services faithful _ (compile_expression double e s) (range, t) ran
            (compile_expression-Behind double services faithful e few s) stored small

      lone : IsLone s t
      lone =
          Yields-ok double services faithful (λ (r : InstructionRange × Builder). IsLone s r.1)
            (compile_expression double e s) (range, t) ran (compile_expression-IsLone e s)

      one :
          (n : ℕ)
          → range.offset ≡ n
          → range.length ≡ 1
          → (i : ExpressionInstruction) × LoneCall i
            × (instruction_at p.expression_instructions n ≡ ok i)
      one n at size =
          let k = behind.compiled in
          let length_is = ap length k.codes ∙ length-append (code_of s) k.code in
          let (i, is, found) =
            the_one (code_of s) k.code later_code p.expression_instructions
              (omega (arith, length_is, behind.offset, behind.size, size))
              (code ∙ ap (λ c. c ++ later_code) k.codes) in
          (
            i,
            lone i (k.codes ∙ ap (λ c. code_of s ++ c) is),
            subst (λ m. instruction_at p.expression_instructions m ≡ ok i) (sym behind.offset ∙ at)
                found,
          )

      evaluated :
          ((range.length == 1) ≡ true) ⊎ ((range.length == 1) ≡ false)
          → evaluate_expression services p range session ≡ run_range services p range session
      evaluated (inr other) = evaluate-other services p range session other
      evaluated (inl alone_is) =
          let size = (==_iff range.length 1).0 alone_is in
          let (i, is_lone, at) = one range.offset refl size in
          subst
            (λ (m : ℕ).
              evaluate_expression services p (record range { length = m }) session
              ≡ run_range services p (record range { length = m }) session)
            (sym size) (evaluate-one services p range.offset i session is_lone at)
