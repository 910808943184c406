-- ===== src/Compiled/Compiler/Expressions.antt =====
-- runtime/compiled/CompiledTemplateCompiler.cpp: the instructions of an expression. What is asked of
-- a `double` is a parameter: its bits, and the tests and the conversion of an index.
use prebyte.Base.{
  ℕ, suc, ◌/◌, ◌%◌, Bool, true, false, Option, none, some, ◌++◌, Bytes, str, equal, ◌||◌, not,
  if◌then◌else◌,
}
use prebyte.Result.{SourceSpan}
use prebyte.Template.Expression.{
  Expression, Expressions, identifier_expr, string_expr, number_expr, bool_expr, unary_expr,
  binary_expr, grouped_expr, member_access_expr, index_access_expr, len_call_expr, lua_call_expr,
  filter_call_expr, function_call_expr, no_expressions, more_expressions,
}
use prebyte.Compiled.Program.{ExpressionOpcode, ExpressionInstruction, InstructionRange}
use prebyte.Compiled.Compiler.State.{
  word, DataSlice, Compiler, pure, ◌>>=◌, ◌>>◌, fail, store_data, emit_expression, expression_size,
  expression_size_from, set_expression_target,
}

-- What the C++ standard says of a `double`.
pub record DoubleOps (D : Type 0) : Type 0 where
  -- `std::bit_cast<std::uint64_t>(value)`
  pub bits : D → ℕ
  -- `value < 0`
  pub is_negative : D → Bool
  -- `std::floor(value) == value`
  pub is_whole : D → Bool
  -- `static_cast<std::uint32_t>(value)`
  pub to_word : D → ℕ

unfoldable pub is_builtin_name : Bytes → Bool
is_builtin_name name =
    equal name (str "__TIME__")
    || equal name (str "__LINE__")
    || equal name (str "__FILE__")
    || equal name (str "__FILENAME__")
    || equal name (str "__DIR__")
    || equal name (str "__EXTENSION__")
    || equal name (str "__DATE__")
    || equal name (str "__TIMESTAMP__")
    || equal name (str "__YEAR__")
    || equal name (str "__MONTH__")
    || equal name (str "__DAY__")
    || equal name (str "__UNIX_EPOCH__")
    || equal name (str "__USER__")
    || equal name (str "__HOST__")
    || equal name (str "__OS__")
    || equal name (str "__WORKING_DIR__")
    || equal name (str "__UUID__")
    || equal name (str "__RANDOM__")

-- An instruction with no data.
abbrev pub plain : ExpressionOpcode → ℕ → ℕ → ExpressionInstruction
plain opcode arg0 arg1 = record {
  opcode = opcode;
  data_offset = 0;
  data_length = 0;
  arg0 = arg0;
  arg1 = arg1;
}

abbrev pub with_slice : ExpressionOpcode → DataSlice → ℕ → ℕ → ExpressionInstruction
with_slice opcode slice arg0 arg1 = record {
  opcode = opcode;
  data_offset = slice.offset;
  data_length = slice.length;
  arg0 = arg0;
  arg1 = arg1;
}

abbrev pub line_of : SourceSpan → ℕ
line_of span = word span.start.line

abbrev pub column_of : SourceSpan → ℕ
column_of span = word span.start.column

unfoldable pub emit : ExpressionInstruction → Compiler Unit
emit i = do emit_expression i; pure tt

-- `store_data`, and an instruction with the slice.
unfoldable pub emit_data : ExpressionOpcode → Bytes → ℕ → ℕ → Compiler Unit
emit_data opcode value arg0 arg1 = do
  slice ← store_data value
  emit (with_slice opcode slice arg0 arg1)

unfoldable pub load_name : Bytes → SourceSpan → Compiler Unit
load_name name span =
    emit_data
      (if is_builtin_name name then ExpressionOpcode.load_builtin else ExpressionOpcode.load_var)
      name (line_of span) (column_of span)

-- The opcode of a comparison.
unfoldable pub comparison_opcode : Bytes → Option ExpressionOpcode
comparison_opcode op =
    if equal op (str "==")
    then some ExpressionOpcode.eq
    else if equal op (str "!=")
    then some ExpressionOpcode.ne
    else if equal op (str "<")
    then some ExpressionOpcode.lt
    else if equal op (str ">")
    then some ExpressionOpcode.gt
    else if equal op (str "<=")
    then some ExpressionOpcode.le
    else if equal op (str ">=")
    then some ExpressionOpcode.ge
    else if equal op (str "in")
    then some ExpressionOpcode.in_
    else none

-- The code of `&&` and of `||`: which jump cuts it short, and what is pushed then.
unfoldable pub compile_short_circuit :
    ExpressionOpcode → ℕ → Compiler Unit → Compiler Unit → Compiler Unit
compile_short_circuit cut value left right = do
  left
  short_jump ← emit_expression (plain cut 0 0)
  right
  emit_expression (plain ExpressionOpcode.to_bool 0 0)
  end_jump ← emit_expression (plain ExpressionOpcode.jump 0 0)
  index ← emit_expression (plain ExpressionOpcode.push_bool value 0)
  set_expression_target short_jump index
  end_index ← expression_size
  set_expression_target end_jump end_index

unfoldable pub compile_logical : Bytes → Compiler Unit → Compiler Unit → SourceSpan → Compiler Unit
compile_logical op left right span =
    if equal op (str "&&")
    then compile_short_circuit ExpressionOpcode.jump_if_false 0 left right
    else if equal op (str "||")
    then compile_short_circuit ExpressionOpcode.jump_if_true 1 left right
    else fail (str "COMPILE001") (str "Unsupported binary operator: " ++ op) span

abbrev pub compile_comparison :
    Option ExpressionOpcode
    → Compiler Unit
    → Compiler Unit
    → SourceSpan
    → Compiler Unit
    → Compiler Unit
compile_comparison none left right span other = other
compile_comparison (some opcode) left right span other = do
  left
  right
  emit (plain opcode (line_of span) (column_of span))

unfoldable pub compile_binary : Bytes → Compiler Unit → Compiler Unit → SourceSpan → Compiler Unit
compile_binary op left right span =
    compile_comparison (comparison_opcode op) left right span (compile_logical op left right span)

-- `path->append("."); path->append(member.member);`
abbrev pub append_member : Option Bytes → Bytes → Option Bytes
append_member none member = none
append_member (some path) member = some (path ++ (str "." ++ member))

unfoldable pub compile_member : Option Bytes → Compiler Unit → Bytes → SourceSpan → Compiler Unit
compile_member (some path) base member span = load_name path span
compile_member none base member span = do
  base
  emit_data ExpressionOpcode.load_member member (line_of span) (column_of span)

unfoldable pub compile_index :
    Bool → Option ℕ → Compiler Unit → Compiler Unit → SourceSpan → Compiler Unit
compile_index is_args (some index) base at span =
    emit (plain ExpressionOpcode.load_arg index (line_of span))
compile_index true none base at span =
    fail (str "COMPILE001")
      (str "ARGS must be accessed as ARGS[index] with a constant non-negative integer") span
compile_index false none base at span = do
  base
  at
  emit (plain ExpressionOpcode.load_index (line_of span) (column_of span))

module _ {D : Type 0} where
  -- `flatten_identifier_path`
  unfoldable pub flatten_identifier_path : Expression D → Option Bytes
  flatten_identifier_path (identifier_expr name span) = some name
  flatten_identifier_path (member_access_expr base member span) =
      append_member (flatten_identifier_path base) member
  flatten_identifier_path _ = none

  -- Whether the base of an index is `ARGS`.
  unfoldable pub is_args : Expression D → Bool
  is_args (identifier_expr name span) = equal name (str "ARGS")
  is_args _ = false

  -- `arguments.size()`
  unfoldable pub count_of : Expressions D → ℕ
  count_of no_expressions = 0
  count_of (more_expressions e es) = suc (count_of es)

module _ {D : Type 0} (double : DoubleOps D) where
  -- A number that may be an index.
  unfoldable pub constant_index : Expression D → Option ℕ
  constant_index (number_expr value lexeme span) =
      if double.is_negative value || not (double.is_whole value)
      then none
      else some (double.to_word value)
  constant_index _ = none

  -- `constant_arg_index`, of the base and the index of an `IndexAccessExpr`
  unfoldable pub constant_arg_index : Expression D → Expression D → Option ℕ
  constant_arg_index base index = if is_args base then constant_index index else none

  unfoldable mutual
    -- `CompilerBuilder::compile_expression_node`
    pub compile_expression_node : Expression D → Compiler Unit
    compile_expression_node (identifier_expr name span) = load_name name span
    compile_expression_node (string_expr value span) =
        emit_data ExpressionOpcode.push_string value 0 0
    compile_expression_node (number_expr value lexeme span) = emit (
        plain ExpressionOpcode.push_number (double.bits value % 4294967296)
          (word (double.bits value / 4294967296)))
    compile_expression_node (bool_expr value span) =
        emit (plain ExpressionOpcode.push_bool (if value then 1 else 0) 0)
    compile_expression_node (unary_expr op operand span) = do
      compile_expression_node operand
      emit (plain ExpressionOpcode.not 0 0)
    compile_expression_node (binary_expr left op right span) =
        compile_binary op (compile_expression_node left) (compile_expression_node right) span
    compile_expression_node (grouped_expr expression span) = compile_expression_node expression
    compile_expression_node (member_access_expr base member span) =
        compile_member (append_member (flatten_identifier_path base) member)
          (compile_expression_node base) member span
    compile_expression_node (index_access_expr base index span) =
        compile_index (is_args base) (constant_arg_index base index) (compile_expression_node base)
          (compile_expression_node index) span
    compile_expression_node (len_call_expr operand span) = do
      compile_expression_node operand
      emit (plain ExpressionOpcode.len 0 0)
    compile_expression_node (lua_call_expr source span) =
        emit_data ExpressionOpcode.eval_lua source (line_of span) (column_of span)
    compile_expression_node (filter_call_expr input name arguments span) = do
      compile_expression_node input
      compile_expression_nodes arguments
      emit_data ExpressionOpcode.apply_filter name (word (count_of arguments)) (line_of span)
    compile_expression_node (function_call_expr name arguments span) = do
      compile_expression_nodes arguments
      emit_data ExpressionOpcode.call_function name (word (count_of arguments)) (line_of span)

    -- `for (const auto& argument : arguments) { compile_expression_node(*argument); }`
    pub compile_expression_nodes : Expressions D → Compiler Unit
    compile_expression_nodes no_expressions = pure tt
    compile_expression_nodes (more_expressions e es) = do
      compile_expression_node e
      compile_expression_nodes es

  -- `CompilerBuilder::compile_expression`
  unfoldable pub compile_expression : Expression D → Compiler InstructionRange
  compile_expression e = do
    start ← expression_size
    compile_expression_node e
    size ← expression_size_from start
    pure (record { offset = start; length = size })
