-- ===== src/Runtime/Machine.antt =====
-- runtime/compiled/CompiledTemplateExecutor.cpp: `evaluate_expression`, a machine with a stack. What
-- it asks of the session (names, arguments, Lua and functions) is an interface.
use prebyte.Base.{
  ℕ, zero, suc, ◌+◌, ◌*◌, Bool, true, false, not, ◌&&◌, ◌||◌, Option, none, some, List, [], ◌∷◌,
  ◌++◌, Bytes, str, equal, length, take, drop, ltb, ◌==◌, if◌then◌else◌,
}
use prebyte.Result.{
  SourceSpan, SourceLocation, plain_diagnostic, diagnostic_error, Result, ok, err, out_of_fuel,
  out_of_range, ◌>>=◌,
}
use prebyte.Config.Settings.{EffectiveSettings}
use prebyte.Compiled.Program.{
  ExpressionOpcode, ExpressionInstruction, InstructionRange, CompiledProgram,
}
use prebyte.Runtime.Data.{Fields, Items, empty_map, field, empty_array, item}
use prebyte.Runtime.Value.{
  Numbers, Value, null, bool, number, view, borrowed, Ordering, less_than, same, greater, is_object,
  is_list, is_structured, to_bool, to_string, equals, compare_scalar, length_of, try_as_string_view,
  try_as_object, try_as_list,
}
use prebyte.Runtime.Filters.{apply}
use prebyte.Runtime.Resolver.{resolve_member, resolve_index}

-- What the machine is given: numbers, the render settings, the file, and the session `S`.
pub record Services (D S : Type 0) : Type 0 where
  pub numbers : Numbers D
  -- `std::stoull`
  pub stoull : Bytes → Option ℕ
  -- `std::bit_cast<double>(bits)`
  pub of_bits : ℕ → D
  -- `static_cast<double>(size)`
  pub of_size : ℕ → D
  -- `text.contains(part)`
  pub contains : Bytes → Bytes → Bool
  pub settings : EffectiveSettings
  pub current_file : Bytes
  -- What `LoadVar` or, if the flag says so, `LoadBuiltin` pushes for a name.
  pub load_name : Bool → Bytes → SourceSpan → S → Result (Value D × S)
  -- What `LoadArg` pushes for an index.
  pub load_arg : ℕ → SourceSpan → S → Result (Value D × S)
  -- `LuaRuntime::execute` of a predicate
  pub eval_lua : Bytes → SourceSpan → S → Result (Value D × S)
  -- Whether `lookup_function` finds a function
  pub is_function : Bytes → S → Bool
  -- `call_function` of the function that `lookup_function` finds
  pub call_function : Bytes → List (Value D) → S → Result (Value D × S)

-- `make_span`: an empty span with no offset.
unfoldable pub make_span : Bytes → ℕ → ℕ → SourceSpan
make_span file line column =
    let at : SourceLocation = record { offset = 0; line = line; column = column } in
    record { file_path = file; start = at; end = at }

-- `data_view`, whose `substr` throws for an offset behind the end
unfoldable pub data_view : CompiledProgram → ℕ → ℕ → Result Bytes
data_view p offset size =
    if ltb (length p.data_blob) offset
    then err out_of_range
    else ok (take size (drop offset p.data_blob))

unfoldable pub order_text : ExpressionOpcode → Bytes
order_text ExpressionOpcode.lt = str "<"
order_text ExpressionOpcode.gt = str ">"
order_text ExpressionOpcode.le = str "<="
order_text _ = str ">="

-- `compare_with_order`
unfoldable pub compare_with_order : Ordering → ExpressionOpcode → Bool
compare_with_order less_than ExpressionOpcode.lt = true
compare_with_order less_than ExpressionOpcode.le = true
compare_with_order same ExpressionOpcode.le = true
compare_with_order same ExpressionOpcode.ge = true
compare_with_order greater ExpressionOpcode.gt = true
compare_with_order greater ExpressionOpcode.ge = true
compare_with_order _ _ = false

-- `program.expression_instructions[index]`, of which the language says nothing out of range.
unfoldable pub instruction_at : List ExpressionInstruction → ℕ → Result ExpressionInstruction
instruction_at [] index = err out_of_range
instruction_at (i ∷ is) zero = ok i
instruction_at (i ∷ is) (suc index) = instruction_at is index

module _ {D S : Type 0} (services : Services D S) where
  -- `make_runtime_error` of the executor, thrown
  unfoldable pub fail_at {ℓ} : {A : Type ℓ} → Bytes → ℕ → ℕ → Result A
  fail_at message line column = err (
      diagnostic_error (record (plain_diagnostic (str "RUNTIME001") message) {
        span = make_span services.current_file line column;
      }))

  -- `ensure_scalar_comparison`, and what is done behind it
  unfoldable pub equality : Bool → Value D → Value D → ℕ → ℕ → Result (Value D)
  equality expected v w line column =
      if is_structured v || is_structured w
      then fail_at (str "Cannot compare structured values directly") line column
      else ok (
          bool
            (if expected then equals services.numbers v w else not (equals services.numbers v w)))

  -- `ensure_scalar_operand`
  unfoldable pub scalar_operand {ℓ} : {A : Type ℓ} → Bytes → Value D → ℕ → ℕ → Result A → Result A
  scalar_operand op v line column next =
      if is_structured v
      then fail_at (str "Operator '" ++ (op ++ str "' requires scalar operands")) line column
      else next

  abbrev pub ordered : ExpressionOpcode → ℕ → ℕ → Option Ordering → Result (Value D)
  ordered opcode line column none = fail_at (str "Comparison requires scalar operands") line column
  ordered opcode line column (some o) = ok (bool (compare_with_order o opcode))

  unfoldable pub order : ExpressionOpcode → Value D → Value D → ℕ → ℕ → Result (Value D)
  order opcode v w line column = scalar_operand (order_text opcode) v line column (
      scalar_operand (order_text opcode) w line column
        (ordered opcode line column (compare_scalar services.numbers v w)))

  -- `object->contains(key)`
  unfoldable pub has_field : Fields D → Bytes → Bool
  has_field empty_map key = false
  has_field (field entry_key datum entries) key =
      let later = has_field entries key in if equal entry_key key then true else later

  -- The loop over a list.
  unfoldable pub has_item : Items D → Value D → Bool
  has_item empty_array v = false
  has_item (item datum items) v =
      let later = has_item items v in
      if not (is_structured (borrowed datum)) && equals services.numbers (borrowed datum) v
      then true
      else later

  -- `contains_value` of a text, an object, a list and any other value
  abbrev pub in_list : Option (Items D) → Value D → Bool
  in_list none v = false
  in_list (some items) v = has_item items v

  abbrev pub in_object : Option (Fields D) → Bool → Bytes → Bool
  in_object none other key = other
  in_object (some entries) other key = has_field entries key

  abbrev pub in_text : Option Bytes → Bool → Bytes → Bool
  in_text none other part = other
  in_text (some text) other part = services.contains text part

  unfoldable pub contains_value : Value D → Value D → Bool
  contains_value right left =
      let part = to_string services.numbers left in
      in_text (try_as_string_view right)
        (in_object (try_as_object right) (in_list (try_as_list right) left) part) part

  abbrev pub has_text : Option Bytes → Bool
  has_text none = false
  has_text (some text) = true

  unfoldable pub containment : Value D → Value D → ℕ → ℕ → Result (Value D)
  containment left right line column = scalar_operand (str "in") left line column (
      if not (is_list right) && (not (is_object right) && not (has_text (try_as_string_view right)))
      then fail_at (str "Operator 'in' requires string, list, or object on right side") line column
      else ok (bool (contains_value right left)))

  -- The operations of two values that are no jumps.
  unfoldable pub binary : ExpressionOpcode → Value D → Value D → ℕ → ℕ → Result (Value D)
  binary ExpressionOpcode.eq v w line column = equality true v w line column
  binary ExpressionOpcode.ne v w line column = equality false v w line column
  binary ExpressionOpcode.in_ v w line column = containment v w line column
  binary ExpressionOpcode.load_index v w line column =
      resolve_index services.numbers services.stoull services.settings v w
        (make_span services.current_file line column)
  binary opcode v w line column = order opcode v w line column

  -- The operations of one value that are no jumps.
  unfoldable pub unary : ExpressionOpcode → Value D → Value D
  unary ExpressionOpcode.len v = number (services.of_size (length_of v))
  unary ExpressionOpcode.not v = bool (not (to_bool services.numbers v))
  unary opcode v = bool (to_bool services.numbers v)

  abbrev pub Stack : Type 0
  Stack = List (Value D)

  -- `stack.back()` of an empty stack, of which the language says nothing.
  unfoldable pub underflow {ℓ} : {A : Type ℓ} → Result A
  underflow = err out_of_range

  unfoldable pub with_top {ℓ} : {A : Type ℓ} → Stack → (Value D → Stack → Result A) → Result A
  with_top [] f = underflow
  with_top (v ∷ stack) f = f v stack

  -- The loop that pops the arguments of a call, and `std::reverse`.
  unfoldable pub pop_arguments {ℓ} :
      {A : Type ℓ} → ℕ → Stack → Stack → (Stack → Stack → Result A) → Result A
  pop_arguments zero arguments stack f = f arguments stack
  pop_arguments (suc n) arguments [] f = underflow
  pop_arguments (suc n) arguments (v ∷ stack) f = pop_arguments n (v ∷ arguments) stack f

  -- The test of `lookup_function`, and what is done with a function.
  unfoldable pub with_function : Bytes → ℕ → S → Result (Value D × S) → Result (Value D × S)
  with_function name line session next =
      if services.is_function name session
      then next
      else fail_at (str "Unknown function: " ++ name) line 1

  unfoldable pub call : Bytes → Stack → ℕ → S → Result (Value D × S)
  call name arguments line session =
      with_function name line session (services.call_function name arguments session)

  -- The value that an instruction gives without looking at the stack.
  unfoldable pub leaf : CompiledProgram → ExpressionInstruction → S → Option (Result (Value D × S))
  leaf p i session = elim i.opcode [
    | ExpressionOpcode.load_var ↦ some (
        data_view p i.data_offset i.data_length >>= λ name.
        services.load_name false name (make_span services.current_file i.arg0 i.arg1) session)
    | ExpressionOpcode.load_builtin ↦ some (
        data_view p i.data_offset i.data_length >>= λ name.
        services.load_name true name (make_span services.current_file i.arg0 i.arg1) session)
    | ExpressionOpcode.load_arg ↦
        some (services.load_arg i.arg0 (make_span services.current_file i.arg1 1) session)
    | ExpressionOpcode.push_string ↦
        some (data_view p i.data_offset i.data_length >>= λ text. ok (view text, session))
    | ExpressionOpcode.push_bool ↦ some (ok (bool (not (i.arg0 == 0)), session))
    | ExpressionOpcode.push_number ↦
        some (ok (number (services.of_bits (i.arg0 + 4294967296 * i.arg1)), session))
    | ExpressionOpcode.eval_lua ↦ some (
        data_view p i.data_offset i.data_length >>= λ source.
        services.eval_lua source (make_span services.current_file i.arg0 i.arg1) session)
    | _ ↦ none
  ]

  -- Where the machine goes on, with its stack and its session.
  abbrev pub State : Type 0
  State = ℕ × Stack × S

  unfoldable pub jump_unless : Bool → ℕ → ℕ → Stack → S → Result State
  jump_unless true target pc stack session = ok (suc pc, stack, session)
  jump_unless false target pc stack session = ok (target, stack, session)

  -- The other instructions.
  unfoldable pub operate : CompiledProgram → ExpressionInstruction → State → Result State
  operate p i (pc, stack, session) = elim i.opcode [
    | ExpressionOpcode.load_member ↦ with_top stack λ v rest.
        data_view p i.data_offset i.data_length >>= λ name.
        resolve_member services.numbers services.stoull services.settings v name
          (make_span services.current_file i.arg0 i.arg1)
        >>= λ w. ok (suc pc, w ∷ rest, session)
    | ExpressionOpcode.len ↦ with_top stack λ v rest. ok (suc pc, unary i.opcode v ∷ rest, session)
    | ExpressionOpcode.not ↦ with_top stack λ v rest. ok (suc pc, unary i.opcode v ∷ rest, session)
    | ExpressionOpcode.to_bool ↦
        with_top stack λ v rest. ok (suc pc, unary i.opcode v ∷ rest, session)
    | ExpressionOpcode.apply_filter ↦ pop_arguments i.arg0 [] stack λ arguments below.
        with_top below λ input rest. data_view p i.data_offset i.data_length >>= λ name.
        apply services.numbers name (input ∷ arguments) >>= λ v. ok (suc pc, v ∷ rest, session)
    | ExpressionOpcode.call_function ↦ pop_arguments i.arg0 [] stack λ arguments rest.
        data_view p i.data_offset i.data_length >>= λ name.
        call name arguments i.arg1 session >>= λ (v, after). ok (suc pc, v ∷ rest, after)
    | ExpressionOpcode.jump ↦ ok (i.arg0, stack, session)
    | ExpressionOpcode.jump_if_false ↦
        with_top stack λ v rest. jump_unless (to_bool services.numbers v) i.arg0 pc rest session
    | ExpressionOpcode.jump_if_true ↦
        with_top stack
          λ v rest. jump_unless (not (to_bool services.numbers v)) i.arg0 pc rest session
    | ExpressionOpcode.unknown n ↦ ok (pc, stack, session)
    | _ ↦ with_top stack λ right below. with_top below λ left rest.
        binary i.opcode left right i.arg0 i.arg1 >>= λ v. ok (suc pc, v ∷ rest, session)
  ]

  abbrev pub leaf_or :
      Option (Result (Value D × S)) → CompiledProgram → ExpressionInstruction → State → Result State
  leaf_or none p i state = operate p i state
  leaf_or (some r) p i (pc, stack, session) = r >>= λ (v, after). ok (suc pc, v ∷ stack, after)

  -- The `switch` over an instruction.
  unfoldable pub execute : CompiledProgram → ExpressionInstruction → State → Result State
  execute p i (pc, stack, session) = leaf_or (leaf p i session) p i (pc, stack, session)

  -- `Value()`, or what is on top of the stack.
  unfoldable pub result_of : Stack → S → Result (Value D × S)
  result_of [] session = ok (null, session)
  result_of (v ∷ stack) session = ok (v, session)

  -- `while (instruction < end)`
  unfoldable pub run_loop : CompiledProgram → ℕ → ℕ → State → Result (Value D × S)
  run_loop p end zero (pc, stack, session) =
      if ltb pc end then out_of_fuel else result_of stack session
  run_loop p end (suc fuel) (pc, stack, session) =
      let later = instruction_at p.expression_instructions pc >>= λ i.
      execute p i (pc, stack, session) >>= λ state. run_loop p end fuel state in
      if ltb pc end then later else result_of stack session

  -- The `switch` over the instruction of a range of length one; what it leaves goes to the machine.
  unfoldable pub single :
      CompiledProgram → ExpressionInstruction → S → Option (Result (Value D × S))
  single p i session = elim i.opcode [
    | ExpressionOpcode.call_function ↦ some (
        data_view p i.data_offset i.data_length >>= λ name. with_function name i.arg1 session (
          if i.arg0 == 0
          then services.call_function name [] session
          else fail_at (str "Function call arity mismatch for " ++ name) i.arg1 1))
    | ExpressionOpcode.load_var ↦ some (
        data_view p i.data_offset i.data_length >>= λ name.
        services.load_name false name (make_span services.current_file i.arg0 i.arg1) session)
    | ExpressionOpcode.load_builtin ↦ some (
        data_view p i.data_offset i.data_length >>= λ name.
        services.load_name true name (make_span services.current_file i.arg0 i.arg1) session)
    | ExpressionOpcode.load_arg ↦
        some (services.load_arg i.arg0 (make_span services.current_file i.arg1 1) session)
    | ExpressionOpcode.push_string ↦
        some (data_view p i.data_offset i.data_length >>= λ text. ok (view text, session))
    | ExpressionOpcode.push_bool ↦ some (ok (bool (not (i.arg0 == 0)), session))
    | ExpressionOpcode.push_number ↦
        some (ok (number (services.of_bits (i.arg0 + 4294967296 * i.arg1)), session))
    | ExpressionOpcode.eval_lua ↦ some (
        data_view p i.data_offset i.data_length >>= λ source.
        services.eval_lua source (make_span services.current_file i.arg0 i.arg1) session)
    | _ ↦ none
  ]

  abbrev pub single_or : Option (Result (Value D × S)) → Result (Value D × S) → Result (Value D × S)
  single_or none other = other
  single_or (some r) other = r

  -- The loop over a range. Every instruction but one with an unknown opcode goes forward in compiled
  -- code, so the length of the range is fuel enough.
  unfoldable pub run_range : CompiledProgram → InstructionRange → S → Result (Value D × S)
  run_range p range session =
      run_loop p (range.offset + range.length) range.length (range.offset, [], session)

  -- `evaluate_expression`, behind the check of the time that is left
  unfoldable pub evaluate_expression : CompiledProgram → InstructionRange → S → Result (Value D × S)
  evaluate_expression p range session =
      let machine = run_range p range session in
      if range.length == 1
      then (instruction_at p.expression_instructions range.offset >>= λ i.
          single_or (single p i session) machine)
      else machine
