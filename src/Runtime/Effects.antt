-- ===== src/Runtime/Effects.antt =====
-- runtime/compiled/CompiledTemplateExecutor.cpp: what the instructions but the jumps do to the stack.
use prebyte.Base.{
  ℕ, zero, suc, ◌+◌, some, List, [], ◌∷◌, ◌++◌, ◌≡◌, refl, sym, ap, ◌∙◌, arith, length,
}
use prebyte.Result.{Result, ok, err, out_of_fuel, out_of_range, ◌>>=◌}
use prebyte.Compiled.Program.{ExpressionOpcode, ExpressionInstruction, CompiledProgram}
use prebyte.Compiled.Compiler.Expressions.{plain}
use prebyte.Runtime.Value.{Value}
use prebyte.Runtime.Machine.{
  Services, Stack, State, underflow, with_top, pop_arguments, leaf, operate, execute, unary, binary,
  data_view, call, make_span,
}
use prebyte.Runtime.Filters.{apply}
use prebyte.Runtime.Resolver.{resolve_member}
use prebyte.Runtime.Runs.{bind_assoc, Effect, in_turn}
use prebyte.Runtime.Performs.{IsStraight, forward}

-- An instruction of one value.
abbrev pub IsUnary : ExpressionOpcode → Type 0
IsUnary ExpressionOpcode.len = Unit
IsUnary ExpressionOpcode.not = Unit
IsUnary ExpressionOpcode.to_bool = Unit
IsUnary _ = ⊥

-- An instruction of two values.
abbrev pub IsBinary : ExpressionOpcode → Type 0
IsBinary ExpressionOpcode.eq = Unit
IsBinary ExpressionOpcode.ne = Unit
IsBinary ExpressionOpcode.lt = Unit
IsBinary ExpressionOpcode.gt = Unit
IsBinary ExpressionOpcode.le = Unit
IsBinary ExpressionOpcode.ge = Unit
IsBinary ExpressionOpcode.in_ = Unit
IsBinary ExpressionOpcode.load_index = Unit
IsBinary _ = ⊥

module _ {D S : Type 0} (services : Services D S) where
  abbrev pub Act : Type 0 → Type 0
  Act A = S → Result (A × S)

  abbrev pub push : Act (Value D) → Effect services
  push m stack session = m session >>= λ (v, later). ok (v ∷ stack, later)

  abbrev pub apply1 : (Value D → Act (Value D)) → Effect services
  apply1 f [] session = err out_of_range
  apply1 f (v ∷ stack) session = push (f v) stack session

  abbrev pub apply2 : (Value D → Value D → Act (Value D)) → Effect services
  apply2 f [] session = err out_of_range
  apply2 f (w ∷ []) session = err out_of_range
  apply2 f (w ∷ v ∷ stack) session = push (f v w) stack session

  -- The values one after the other, so that the last one is on top.
  abbrev pub stacked : Stack services → Stack services → Stack services
  stacked [] stack = stack
  stacked (v ∷ vs) stack = stacked vs (v ∷ stack)

  abbrev pub push_all : Act (List (Value D)) → Effect services
  push_all ms stack session = ms session >>= λ (vs, later). ok (stacked vs stack, later)

  abbrev pub apply_all : ℕ → (Stack services → Effect services) → Effect services
  apply_all n f stack session = pop_arguments services n [] stack λ vs rest. f vs rest session

  push_effect :
      (m : Result (Value D × S)) (stack : Stack services) (f : Value D → Act (Value D))
      → ((m >>= λ (v, later). ok (v ∷ stack, later)) >>= λ (after, later). apply1 f after later)
        ≡ ((m >>= λ (v, later). f v later) >>= λ (v, later). ok (v ∷ stack, later))
  push_effect (ok (v, later)) stack f = refl
  push_effect (err e) stack f = refl
  push_effect out_of_fuel stack f = refl

  pub apply1-push :
      (m : Act (Value D)) (f : Value D → Act (Value D)) (stack : Stack services) (session : S)
      → in_turn services (push m) (apply1 f) stack session
        ≡ push (λ now. m now >>= λ (v, later). f v later) stack session
  apply1-push m f stack session = push_effect (m session) stack f

  pub apply2-push :
      (m n : Act (Value D)) (f : Value D → Value D → Act (Value D)) (stack : Stack services)
      (session : S)
      → in_turn services (push m) (in_turn services (push n) (apply2 f)) stack session
        ≡ push (λ now. m now >>= λ (v, later). n later >>= λ (w, last). f v w last) stack session
  apply2-push m n f stack session = at (m session)
    where
      last :
          (v : Value D) (r : Result (Value D × S))
          → ((r >>= λ (w, later). ok (w ∷ v ∷ stack, later)) >>= λ (after, later).
              apply2 f after later)
            ≡ ((r >>= λ (w, later). f v w later) >>= λ (u, later). ok (u ∷ stack, later))
      last v (ok (w, later)) = refl
      last v (err e) = refl
      last v out_of_fuel = refl

      at :
          (r : Result (Value D × S))
          → ((r >>= λ (v, later). ok (v ∷ stack, later)) >>= λ (after, later).
              in_turn services (push n) (apply2 f) after later)
            ≡ ((r >>= λ (v, later). n later >>= λ (w, final). f v w final) >>= λ (u, later).
                ok (u ∷ stack, later))
      at (ok (v, later)) = last v (n later)
      at (err e) = refl
      at out_of_fuel = refl

  pub pop_arguments-stacked :
      {A : Type 0} (vs : Stack services) (n : ℕ) (arguments stack : Stack services)
      (f : Stack services → Stack services → Result A)
      → pop_arguments services (length vs + n) arguments (stacked vs stack) f
        ≡ pop_arguments services n (vs ++ arguments) stack f
  unfolding pop_arguments
  pop_arguments-stacked [] n arguments stack f =
      ap (λ m. pop_arguments services m arguments stack f) (omega arith)
  pop_arguments-stacked (v ∷ vs) n arguments stack f =
      ap (λ m. pop_arguments services m arguments (stacked vs (v ∷ stack)) f) (omega arith)
      ∙ pop_arguments-stacked vs (suc n) arguments (v ∷ stack) f

  module _ (p : CompiledProgram) where
    -- An instruction with a value of its own.
    pub leaf-IsStraight :
        (i : ExpressionInstruction) (m : Act (Value D))
        → ((session : S) → leaf services p i session ≡ some (m session))
        → IsStraight services p i (push m)
    unfolding execute
    leaf-IsStraight i m e pc stack session = rw (e session) (sym (bind_assoc (m session) _ _))

    pub unary-IsStraight :
        (op : ExpressionOpcode) (a b : ℕ)
        → IsUnary op
        → IsStraight services p
            (plain op a b)
            (apply1 λ v session. ok (unary services op v, session))
    unfolding execute operate leaf with_top underflow
    unary-IsStraight ExpressionOpcode.len a b h pc [] session = refl
    unary-IsStraight ExpressionOpcode.len a b h pc (v ∷ stack) session = refl
    unary-IsStraight ExpressionOpcode.not a b h pc [] session = refl
    unary-IsStraight ExpressionOpcode.not a b h pc (v ∷ stack) session = refl
    unary-IsStraight ExpressionOpcode.to_bool a b h pc [] session = refl
    unary-IsStraight ExpressionOpcode.to_bool a b h pc (v ∷ stack) session = refl
    unary-IsStraight ExpressionOpcode.load_var a b h pc stack session = absurd h
    unary-IsStraight ExpressionOpcode.load_arg a b h pc stack session = absurd h
    unary-IsStraight ExpressionOpcode.load_builtin a b h pc stack session = absurd h
    unary-IsStraight ExpressionOpcode.push_string a b h pc stack session = absurd h
    unary-IsStraight ExpressionOpcode.push_bool a b h pc stack session = absurd h
    unary-IsStraight ExpressionOpcode.push_number a b h pc stack session = absurd h
    unary-IsStraight ExpressionOpcode.eval_lua a b h pc stack session = absurd h
    unary-IsStraight ExpressionOpcode.load_member a b h pc stack session = absurd h
    unary-IsStraight ExpressionOpcode.load_index a b h pc stack session = absurd h
    unary-IsStraight ExpressionOpcode.eq a b h pc stack session = absurd h
    unary-IsStraight ExpressionOpcode.ne a b h pc stack session = absurd h
    unary-IsStraight ExpressionOpcode.lt a b h pc stack session = absurd h
    unary-IsStraight ExpressionOpcode.gt a b h pc stack session = absurd h
    unary-IsStraight ExpressionOpcode.le a b h pc stack session = absurd h
    unary-IsStraight ExpressionOpcode.ge a b h pc stack session = absurd h
    unary-IsStraight ExpressionOpcode.in_ a b h pc stack session = absurd h
    unary-IsStraight ExpressionOpcode.apply_filter a b h pc stack session = absurd h
    unary-IsStraight ExpressionOpcode.call_function a b h pc stack session = absurd h
    unary-IsStraight ExpressionOpcode.jump a b h pc stack session = absurd h
    unary-IsStraight ExpressionOpcode.jump_if_false a b h pc stack session = absurd h
    unary-IsStraight ExpressionOpcode.jump_if_true a b h pc stack session = absurd h
    unary-IsStraight (ExpressionOpcode.unknown n) a b h pc stack session = absurd h

    lifted :
        (r : Result (Value D)) (pc : ℕ) (stack : Stack services) (session : S)
        → (r >>= λ v. ok (suc pc, v ∷ stack, session))
          ≡ forward services p pc (push (λ now. r >>= λ v. ok (v, now)) stack session)
    lifted (ok v) pc stack session = refl
    lifted (err e) pc stack session = refl
    lifted out_of_fuel pc stack session = refl

    on_two : ExpressionOpcode → ℕ → ℕ → State services → Result (State services)
    on_two op a b (pc, stack, session) = with_top services stack λ right below.
        with_top services below
          λ left rest. binary services op left right a b >>= λ v. ok (suc pc, v ∷ rest, session)

    step-binary :
        (op : ExpressionOpcode) (a b : ℕ) (state : State services)
        → IsBinary op
        → execute services p (plain op a b) state ≡ on_two op a b state
    unfolding execute operate leaf on_two
    step-binary ExpressionOpcode.eq a b (pc, stack, session) h = refl
    step-binary ExpressionOpcode.ne a b (pc, stack, session) h = refl
    step-binary ExpressionOpcode.lt a b (pc, stack, session) h = refl
    step-binary ExpressionOpcode.gt a b (pc, stack, session) h = refl
    step-binary ExpressionOpcode.le a b (pc, stack, session) h = refl
    step-binary ExpressionOpcode.ge a b (pc, stack, session) h = refl
    step-binary ExpressionOpcode.in_ a b (pc, stack, session) h = refl
    step-binary ExpressionOpcode.load_index a b (pc, stack, session) h = refl
    step-binary ExpressionOpcode.load_var a b state h = absurd h
    step-binary ExpressionOpcode.load_arg a b state h = absurd h
    step-binary ExpressionOpcode.load_builtin a b state h = absurd h
    step-binary ExpressionOpcode.push_string a b state h = absurd h
    step-binary ExpressionOpcode.push_bool a b state h = absurd h
    step-binary ExpressionOpcode.push_number a b state h = absurd h
    step-binary ExpressionOpcode.eval_lua a b state h = absurd h
    step-binary ExpressionOpcode.load_member a b state h = absurd h
    step-binary ExpressionOpcode.len a b state h = absurd h
    step-binary ExpressionOpcode.apply_filter a b state h = absurd h
    step-binary ExpressionOpcode.call_function a b state h = absurd h
    step-binary ExpressionOpcode.not a b state h = absurd h
    step-binary ExpressionOpcode.to_bool a b state h = absurd h
    step-binary ExpressionOpcode.jump a b state h = absurd h
    step-binary ExpressionOpcode.jump_if_false a b state h = absurd h
    step-binary ExpressionOpcode.jump_if_true a b state h = absurd h
    step-binary (ExpressionOpcode.unknown n) a b state h = absurd h

    pub binary-IsStraight :
        (op : ExpressionOpcode) (a b : ℕ)
        → IsBinary op
        → IsStraight services p
            (plain op a b)
            (apply2 λ v w session. binary services op v w a b >>= λ u. ok (u, session))
    unfolding on_two with_top underflow
    binary-IsStraight op a b h pc [] session = step-binary op a b (pc, [], session) h
    binary-IsStraight op a b h pc (w ∷ []) session = step-binary op a b (pc, w ∷ [], session) h
    binary-IsStraight op a b h pc (w ∷ v ∷ stack) session =
        step-binary op a b (pc, w ∷ v ∷ stack, session) h
        ∙ lifted (binary services op v w a b) pc stack session

    pub member-IsStraight :
        (i : ExpressionInstruction)
        → i.opcode ≡ ExpressionOpcode.load_member
        → IsStraight services p i (
            apply1 λ v session.
              (data_view p i.data_offset i.data_length >>= λ name.
              resolve_member services.numbers services.stoull services.settings v name
                (make_span services.current_file i.arg0 i.arg1))
              >>= λ w. ok (w, session))
    unfolding execute operate leaf with_top underflow
    member-IsStraight i e pc [] session = rw e refl
    member-IsStraight i e pc (v ∷ stack) session = rw e (
        sym (bind_assoc (data_view p i.data_offset i.data_length) _ _)
        ∙ lifted
            (data_view p i.data_offset i.data_length >>= λ name.
              resolve_member services.numbers services.stoull services.settings v name
                (make_span services.current_file i.arg0 i.arg1))
            pc stack session)

    -- What a filter does with its arguments, and a call with its own.
    abbrev pub filtered : ExpressionInstruction → Stack services → Effect services
    filtered i vs = apply1 λ input session.
        (data_view p i.data_offset i.data_length >>= λ name.
        apply services.numbers name (input ∷ vs))
        >>= λ w. ok (w, session)

    abbrev pub called : ExpressionInstruction → Stack services → Effect services
    called i vs = push λ session.
        data_view p i.data_offset i.data_length >>= λ name. call services name vs i.arg1 session

    popped_forward :
        (n : ℕ) (arguments stack : Stack services) (pc : ℕ) (session : S)
        (f : Stack services → Stack services → Result (State services))
        (g : Stack services → Stack services → Result (Stack services × S))
        → ((vs rest : Stack services) → f vs rest ≡ forward services p pc (g vs rest))
        → pop_arguments services n arguments stack f
          ≡ forward services p pc (pop_arguments services n arguments stack g)
    unfolding pop_arguments underflow
    popped_forward zero arguments stack pc session f g e = e arguments stack
    popped_forward (suc n) arguments [] pc session f g e = refl
    popped_forward (suc n) arguments (v ∷ stack) pc session f g e =
        popped_forward n (v ∷ arguments) stack pc session f g e

    filtered-forward :
        (i : ExpressionInstruction) (vs rest : Stack services) (pc : ℕ) (session : S)
        → (with_top services rest λ input below. data_view p i.data_offset i.data_length >>= λ name.
            apply services.numbers name (input ∷ vs) >>= λ v. ok (suc pc, v ∷ below, session))
          ≡ forward services p pc (filtered i vs rest session)
    unfolding with_top underflow
    filtered-forward i vs [] pc session = refl
    filtered-forward i vs (input ∷ below) pc session =
        sym (bind_assoc (data_view p i.data_offset i.data_length) _ _)
        ∙ lifted
            (data_view p i.data_offset i.data_length >>= λ name.
              apply services.numbers name (input ∷ vs))
            pc below session

    forwarded :
        (r : Result (Value D × S)) (pc : ℕ) (rest : Stack services)
        → (r >>= λ (v, later). ok (suc pc, v ∷ rest, later))
          ≡ forward services p pc (r >>= λ (v, later). ok (v ∷ rest, later))
    forwarded (ok (v, later)) pc rest = refl
    forwarded (err e) pc rest = refl
    forwarded out_of_fuel pc rest = refl

    pub filter-IsStraight :
        (i : ExpressionInstruction)
        → i.opcode ≡ ExpressionOpcode.apply_filter
        → IsStraight services p i (apply_all i.arg0 (filtered i))
    unfolding execute operate leaf
    filter-IsStraight i e pc stack session = rw e (
        popped_forward i.arg0 [] stack pc session _ (λ vs rest. filtered i vs rest session)
          λ vs rest. filtered-forward i vs rest pc session)

    pub call-IsStraight :
        (i : ExpressionInstruction)
        → i.opcode ≡ ExpressionOpcode.call_function
        → IsStraight services p i (apply_all i.arg0 (called i))
    unfolding execute operate leaf
    call-IsStraight i e pc stack session = rw e (
        popped_forward i.arg0 [] stack pc session _ (λ vs rest. called i vs rest session)
          λ vs rest.
            sym (bind_assoc (data_view p i.data_offset i.data_length) _ _)
            ∙ forwarded
                (data_view p i.data_offset i.data_length >>= λ name.
                  call services name vs i.arg1 session)
                pc rest)
