-- ===== src/Compiled/Compiler/Blocks.antt =====
-- runtime/compiled/CompiledTemplateCompiler.cpp: the instructions of the nodes of a template.
use prebyte.Base.{ℕ, ◌+◌, ◌-◌, Option, none, some, List, [], ◌∷◌, ◌++◌, Bytes}
use prebyte.Result.{SourceSpan, ok}
use prebyte.Template.Expression.{Expression}
use prebyte.Template.Node.{
  FunctionMode, Node, Nodes, Branches, no_nodes, more_nodes, no_branches, more_branches, text_node,
  interpolation_node, include_node, if_node, for_node, set_node, function_def_node, lua_expr_node,
  lua_block_node,
}
use prebyte.Compiled.Program.{TemplateOpcode, TemplateInstruction, InstructionRange, FunctionKind}
use prebyte.Compiled.Compiler.State.{
  word, ForLoopPatch, Compiler, pure, ◌>>=◌, ◌>>◌, store_data, emit_template, template_size,
  function_size, with_arg0, change_template, push_function, change_function, push_loop, mark_else,
  pop_loop,
}
use prebyte.Compiled.Compiler.Expressions.{DoubleOps, compile_expression, line_of, column_of}

abbrev pub bare : TemplateOpcode → ℕ → TemplateInstruction
bare opcode arg0 = record {
  opcode = opcode;
  data_offset = 0;
  data_length = 0;
  arg0 = arg0;
  arg1 = 0;
}

unfoldable pub emit : TemplateInstruction → Compiler Unit
emit i = do emit_template i; pure tt

-- `store_data`, and an instruction with the slice.
unfoldable pub emit_data : TemplateOpcode → Bytes → ℕ → ℕ → Compiler Unit
emit_data opcode value arg0 arg1 = do
  slice ← store_data value
  emit (record {
    opcode = opcode;
    data_offset = slice.offset;
    data_length = slice.length;
    arg0 = arg0;
    arg1 = arg1;
  })

-- An instruction whose data is a range of instructions of an expression.
abbrev pub with_range : TemplateOpcode → InstructionRange → ℕ → ℕ → TemplateInstruction
with_range opcode range arg0 arg1 = record {
  opcode = opcode;
  data_offset = range.offset;
  data_length = range.length;
  arg0 = arg0;
  arg1 = arg1;
}

-- A key, a byte 0 and a value, or a value alone.
unfoldable pub bindings_of : Option Bytes → Bytes → Bytes
bindings_of none value_name = value_name
bindings_of (some key_name) value_name = key_name ++ (0 ∷ value_name)

abbrev pub with_bounds : ForLoopPatch → ℕ → TemplateInstruction → TemplateInstruction
with_bounds patch end i = record i { arg0 = patch.else_instruction; arg1 = end }

-- `program_.template_instructions[patch.scope_instruction]` is given the bounds of its loop.
unfoldable pub complete : Option ForLoopPatch → ℕ → Compiler Unit
complete none end = pure tt
complete (some patch) end = change_template (with_bounds patch end) patch.scope_instruction

-- What stands between `PushScope` and `PopScope`.
unfoldable pub scoped : Compiler Unit → Compiler Unit
scoped body = do
  emit (bare TemplateOpcode.push_scope 0)
  body
  emit (bare TemplateOpcode.pop_scope 0)

-- `if (!for_node.else_body.empty()) { … }`
unfoldable pub compile_else : {D : Type 0} → Nodes D → Compiler Unit → Compiler Unit
compile_else no_nodes body = pure tt
compile_else (more_nodes n ns) body = do
  index ← emit_template (bare TemplateOpcode.else_loop 0)
  mark_else index
  scoped body

-- Between the loop's head and its end.
unfoldable pub compile_loop : {D : Type 0} → Nodes D → Compiler Unit → Compiler Unit → Compiler Unit
compile_loop else_body body other = do
  scope ← emit_template (bare TemplateOpcode.push_scope 0)
  push_loop scope
  body
  emit (bare TemplateOpcode.pop_scope 0)
  compile_else else_body other
  end_index ← emit_template (bare TemplateOpcode.end_for 0)
  patch ← pop_loop
  complete patch end_index

-- `if (false_jump.has_value()) { … arg0 = size; }`
unfoldable pub land : Option ℕ → Compiler Unit
land none = pure tt
land (some landing) = do size ← template_size; change_template (with_arg0 size) landing

-- `for (const std::uint32_t jump : end_jumps) { … arg0 = end_index; }`
unfoldable pub land_all : List ℕ → ℕ → Compiler Unit
land_all [] target = pure tt
land_all (landing ∷ jumps) target = do
  change_template (with_arg0 target) landing
  land_all jumps target

-- A jump behind a branch that is not the last one.
unfoldable pub jump_to_end : {D : Type 0} → Branches D → List ℕ → Compiler (List ℕ)
jump_to_end no_branches jumps = pure jumps
jump_to_end (more_branches condition body later) jumps = do
  landing ← emit_template (bare TemplateOpcode.jump 0)
  pure (jumps ++ (landing ∷ []))

abbrev pub compiled_kind : FunctionMode → FunctionKind
compiled_kind FunctionMode.template = FunctionKind.template
compiled_kind FunctionMode.lua = FunctionKind.lua

-- `program_.logical_path`
unfoldable pub definition_file_of : Compiler Bytes
definition_file_of s = ok (s.program.logical_path, s)

-- The body of a function: its source, or its instructions, which are jumped over.
unfoldable pub compile_body : FunctionMode → ℕ → Bytes → Compiler Unit → Compiler Unit
compile_body FunctionMode.lua index source body =
    change_function (λ f. record f { lua_source = source }) index
compile_body FunctionMode.template index source body = do
  landing ← emit_template (bare TemplateOpcode.jump 0)
  start ← template_size
  body
  end_index ← template_size
  change_function
      (λ f. record f {
        body_range = record { offset = start; length = word (end_index + 4294967296 - start) };
      })
      index
  change_template (with_arg0 end_index) landing

unfoldable pub compile_function :
    Bytes → List Bytes → FunctionMode → Bytes → SourceSpan → Compiler Unit → Compiler Unit
compile_function name parameters mode source span body = do
  definition_file ← definition_file_of
  index ← function_size
  push_function (record {
    kind = compiled_kind mode;
    name = name;
    parameters = parameters;
    body_range = record { offset = 0; length = 0 };
    lua_source = [];
    definition_file = definition_file;
    span = span;
  })
  emit (bare TemplateOpcode.define_function index)
  compile_body mode index source body

module _ {D : Type 0} (double : DoubleOps D) where
  unfoldable pub compile_condition : Option (Expression D) → Compiler (Option ℕ)
  compile_condition none = pure none
  compile_condition (some condition) = do
    range ← compile_expression double condition
    landing ← emit_template (with_range TemplateOpcode.jump_if_false range 0 0)
    pure (some landing)

  unfoldable mutual
    -- `CompilerBuilder::compile_nodes`
    pub compile_nodes : Nodes D → Compiler Unit
    compile_nodes no_nodes = pure tt
    compile_nodes (more_nodes n ns) = do compile_node n; compile_nodes ns

    -- `CompilerBuilder::compile_node`
    pub compile_node : Node D → Compiler Unit
    compile_node (text_node text base) = emit_data TemplateOpcode.emit_text text 0 0
    compile_node (interpolation_node expression base) = do
      range ← compile_expression double expression
      emit (with_range TemplateOpcode.emit_expr range (line_of base.span) (column_of base.span))
    compile_node (lua_expr_node source base) =
        emit_data TemplateOpcode.emit_lua_expr source (line_of base.span) (column_of base.span)
    compile_node (lua_block_node source base) =
        emit_data TemplateOpcode.emit_lua_block source (line_of base.span) (column_of base.span)
    compile_node (include_node path base) =
        emit_data TemplateOpcode.include path (line_of base.span) (column_of base.span)
    compile_node (for_node value_name key_name iterable body else_body base) = do
      range ← compile_expression double iterable
      emit_data TemplateOpcode.for_loop (bindings_of key_name value_name) range.offset range.length
      compile_loop else_body (compile_nodes body) (compile_nodes else_body)
    compile_node (if_node branches base) = do
      jumps ← compile_branches branches []
      end_index ← template_size
      land_all jumps end_index
    compile_node (set_node name expression base) = do
      range ← compile_expression double expression
      emit_data TemplateOpcode.set_local name range.offset range.length
    compile_node (function_def_node name parameters mode body source base) =
        compile_function name parameters mode source base.span (compile_nodes body)

    -- The loop over the branches, with the jumps to their end so far.
    pub compile_branches : Branches D → List ℕ → Compiler (List ℕ)
    compile_branches no_branches jumps = pure jumps
    compile_branches (more_branches condition body later) jumps = do
      false_jump ← compile_condition condition
      scoped (compile_nodes body)
      jumps ← jump_to_end later jumps
      land false_jump
      compile_branches later jumps
