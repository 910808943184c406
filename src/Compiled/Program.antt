-- ===== src/Compiled/Program.antt =====
-- runtime/compiled/CompiledTemplateProgram.h. An opcode is a `std::uint32_t` with names for some of
-- its values, so what a file holds may be none of them. An `std::int64_t` is its pattern of 64 bits.
use prebyte.Base.{ℕ, Bool, List, Bytes}
use prebyte.Result.{SourceSpan}

-- kCompiledTemplateFormatVersion
abbrev pub format_version : ℕ
format_version = 8

pub data TemplateOpcode : Type 0 where
  emit_text emit_expr emit_lua_expr emit_lua_block include for_loop else_loop end_for :
      TemplateOpcode
  push_scope pop_scope set_local define_function jump jump_if_false end : TemplateOpcode
  unknown : ℕ → TemplateOpcode

pub data ExpressionOpcode : Type 0 where
  load_var load_arg load_builtin push_string push_bool push_number eval_lua : ExpressionOpcode
  load_member load_index len eq ne lt gt le ge in_ apply_filter call_function not to_bool :
      ExpressionOpcode
  jump jump_if_false jump_if_true : ExpressionOpcode
  unknown : ℕ → ExpressionOpcode

-- `TemplateInstruction` and `ExpressionInstruction`, which differ in their opcodes only.
pub record Instruction (Opcode : Type 0) : Type 0 where
  pub opcode : Opcode
  pub data_offset : ℕ
  pub data_length : ℕ
  pub arg0 : ℕ
  pub arg1 : ℕ

abbrev pub TemplateInstruction : Type 0
TemplateInstruction = Instruction TemplateOpcode

abbrev pub ExpressionInstruction : Type 0
ExpressionInstruction = Instruction ExpressionOpcode

pub record InstructionRange : Type 0 where
  pub offset : ℕ
  pub length : ℕ

-- `CompiledFunction::Kind`
pub data FunctionKind : Type 0 where
  template lua : FunctionKind
  unknown : ℕ → FunctionKind

pub record CompiledFunction : Type 0 where
  pub kind : FunctionKind
  pub name : Bytes
  pub parameters : List Bytes
  pub body_range : InstructionRange
  pub lua_source : Bytes
  pub definition_file : Bytes
  pub span : SourceSpan

pub record CompiledDependency : Type 0 where
  pub path : Bytes
  pub mtime_ticks : ℕ

pub record CompiledParseOptions : Type 0 where
  pub variable_prefix : Bytes
  pub variable_suffix : Bytes
  pub replace_tabs : Bool
  pub tab_size : ℕ

pub record CompiledProgram : Type 0 where
  pub logical_path : Bytes
  pub source_path : Bytes
  pub parse_options : CompiledParseOptions
  pub template_instructions : List TemplateInstruction
  pub expression_instructions : List ExpressionInstruction
  pub data_blob : Bytes
  pub dependencies : List CompiledDependency
  pub functions : List CompiledFunction
  pub output_size_hint : ℕ
