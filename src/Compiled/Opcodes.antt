-- ===== src/Compiled/Opcodes.antt =====
-- runtime/compiled/CompiledTemplateProgram.h: the numbers of the opcodes.
use prebyte.Base.{ℕ, ◌<◌, List, [], ◌∷◌, ◌≡◌, refl, arith, get_or}
use prebyte.Compiled.Program.{TemplateOpcode, ExpressionOpcode, FunctionKind}

abbrev pub template_opcodes : List TemplateOpcode
template_opcodes =
    TemplateOpcode.emit_text ∷ TemplateOpcode.emit_expr ∷ TemplateOpcode.emit_lua_expr
    ∷ TemplateOpcode.emit_lua_block ∷ TemplateOpcode.include ∷ TemplateOpcode.for_loop
    ∷ TemplateOpcode.else_loop ∷ TemplateOpcode.end_for ∷ TemplateOpcode.push_scope
    ∷ TemplateOpcode.pop_scope ∷ TemplateOpcode.set_local ∷ TemplateOpcode.define_function
    ∷ TemplateOpcode.jump ∷ TemplateOpcode.jump_if_false ∷ TemplateOpcode.end ∷ []

-- `static_cast<std::uint32_t>(opcode)`
abbrev pub template_opcode_code : TemplateOpcode → ℕ
template_opcode_code TemplateOpcode.emit_text = 0
template_opcode_code TemplateOpcode.emit_expr = 1
template_opcode_code TemplateOpcode.emit_lua_expr = 2
template_opcode_code TemplateOpcode.emit_lua_block = 3
template_opcode_code TemplateOpcode.include = 4
template_opcode_code TemplateOpcode.for_loop = 5
template_opcode_code TemplateOpcode.else_loop = 6
template_opcode_code TemplateOpcode.end_for = 7
template_opcode_code TemplateOpcode.push_scope = 8
template_opcode_code TemplateOpcode.pop_scope = 9
template_opcode_code TemplateOpcode.set_local = 10
template_opcode_code TemplateOpcode.define_function = 11
template_opcode_code TemplateOpcode.jump = 12
template_opcode_code TemplateOpcode.jump_if_false = 13
template_opcode_code TemplateOpcode.end = 14
template_opcode_code (TemplateOpcode.unknown n) = n

-- `static_cast<TemplateOpcode>(code)`
unfoldable pub template_opcode_of : ℕ → TemplateOpcode
template_opcode_of n = get_or template_opcodes n (TemplateOpcode.unknown n)

abbrev pub IsNamedTemplate : TemplateOpcode → Type 0
IsNamedTemplate (TemplateOpcode.unknown n) = ⊥
IsNamedTemplate _ = Unit

pub template_opcode_of-template_opcode_code :
    (op : TemplateOpcode) → IsNamedTemplate op → template_opcode_of (template_opcode_code op) ≡ op
unfolding template_opcode_of
template_opcode_of-template_opcode_code TemplateOpcode.emit_text h = refl
template_opcode_of-template_opcode_code TemplateOpcode.emit_expr h = refl
template_opcode_of-template_opcode_code TemplateOpcode.emit_lua_expr h = refl
template_opcode_of-template_opcode_code TemplateOpcode.emit_lua_block h = refl
template_opcode_of-template_opcode_code TemplateOpcode.include h = refl
template_opcode_of-template_opcode_code TemplateOpcode.for_loop h = refl
template_opcode_of-template_opcode_code TemplateOpcode.else_loop h = refl
template_opcode_of-template_opcode_code TemplateOpcode.end_for h = refl
template_opcode_of-template_opcode_code TemplateOpcode.push_scope h = refl
template_opcode_of-template_opcode_code TemplateOpcode.pop_scope h = refl
template_opcode_of-template_opcode_code TemplateOpcode.set_local h = refl
template_opcode_of-template_opcode_code TemplateOpcode.define_function h = refl
template_opcode_of-template_opcode_code TemplateOpcode.jump h = refl
template_opcode_of-template_opcode_code TemplateOpcode.jump_if_false h = refl
template_opcode_of-template_opcode_code TemplateOpcode.end h = refl
template_opcode_of-template_opcode_code (TemplateOpcode.unknown n) h = absurd h

pub template_opcode_code-lt :
    (op : TemplateOpcode) → IsNamedTemplate op → template_opcode_code op < 4294967296
template_opcode_code-lt TemplateOpcode.emit_text h = omega arith
template_opcode_code-lt TemplateOpcode.emit_expr h = omega arith
template_opcode_code-lt TemplateOpcode.emit_lua_expr h = omega arith
template_opcode_code-lt TemplateOpcode.emit_lua_block h = omega arith
template_opcode_code-lt TemplateOpcode.include h = omega arith
template_opcode_code-lt TemplateOpcode.for_loop h = omega arith
template_opcode_code-lt TemplateOpcode.else_loop h = omega arith
template_opcode_code-lt TemplateOpcode.end_for h = omega arith
template_opcode_code-lt TemplateOpcode.push_scope h = omega arith
template_opcode_code-lt TemplateOpcode.pop_scope h = omega arith
template_opcode_code-lt TemplateOpcode.set_local h = omega arith
template_opcode_code-lt TemplateOpcode.define_function h = omega arith
template_opcode_code-lt TemplateOpcode.jump h = omega arith
template_opcode_code-lt TemplateOpcode.jump_if_false h = omega arith
template_opcode_code-lt TemplateOpcode.end h = omega arith
template_opcode_code-lt (TemplateOpcode.unknown n) h = absurd h

abbrev pub expression_opcodes : List ExpressionOpcode
expression_opcodes =
    ExpressionOpcode.load_var ∷ ExpressionOpcode.load_arg ∷ ExpressionOpcode.load_builtin
    ∷ ExpressionOpcode.push_string ∷ ExpressionOpcode.push_bool ∷ ExpressionOpcode.push_number
    ∷ ExpressionOpcode.eval_lua ∷ ExpressionOpcode.load_member ∷ ExpressionOpcode.load_index
    ∷ ExpressionOpcode.len ∷ ExpressionOpcode.eq ∷ ExpressionOpcode.ne ∷ ExpressionOpcode.lt
    ∷ ExpressionOpcode.gt ∷ ExpressionOpcode.le ∷ ExpressionOpcode.ge ∷ ExpressionOpcode.in_
    ∷ ExpressionOpcode.apply_filter ∷ ExpressionOpcode.call_function ∷ ExpressionOpcode.not
    ∷ ExpressionOpcode.to_bool ∷ ExpressionOpcode.jump ∷ ExpressionOpcode.jump_if_false
    ∷ ExpressionOpcode.jump_if_true ∷ []

-- `static_cast<std::uint32_t>(opcode)`
abbrev pub expression_opcode_code : ExpressionOpcode → ℕ
expression_opcode_code ExpressionOpcode.load_var = 0
expression_opcode_code ExpressionOpcode.load_arg = 1
expression_opcode_code ExpressionOpcode.load_builtin = 2
expression_opcode_code ExpressionOpcode.push_string = 3
expression_opcode_code ExpressionOpcode.push_bool = 4
expression_opcode_code ExpressionOpcode.push_number = 5
expression_opcode_code ExpressionOpcode.eval_lua = 6
expression_opcode_code ExpressionOpcode.load_member = 7
expression_opcode_code ExpressionOpcode.load_index = 8
expression_opcode_code ExpressionOpcode.len = 9
expression_opcode_code ExpressionOpcode.eq = 10
expression_opcode_code ExpressionOpcode.ne = 11
expression_opcode_code ExpressionOpcode.lt = 12
expression_opcode_code ExpressionOpcode.gt = 13
expression_opcode_code ExpressionOpcode.le = 14
expression_opcode_code ExpressionOpcode.ge = 15
expression_opcode_code ExpressionOpcode.in_ = 16
expression_opcode_code ExpressionOpcode.apply_filter = 17
expression_opcode_code ExpressionOpcode.call_function = 18
expression_opcode_code ExpressionOpcode.not = 19
expression_opcode_code ExpressionOpcode.to_bool = 20
expression_opcode_code ExpressionOpcode.jump = 21
expression_opcode_code ExpressionOpcode.jump_if_false = 22
expression_opcode_code ExpressionOpcode.jump_if_true = 23
expression_opcode_code (ExpressionOpcode.unknown n) = n

-- `static_cast<ExpressionOpcode>(code)`
unfoldable pub expression_opcode_of : ℕ → ExpressionOpcode
expression_opcode_of n = get_or expression_opcodes n (ExpressionOpcode.unknown n)

abbrev pub IsNamedExpression : ExpressionOpcode → Type 0
IsNamedExpression (ExpressionOpcode.unknown n) = ⊥
IsNamedExpression _ = Unit

pub expression_opcode_of-expression_opcode_code :
    (op : ExpressionOpcode)
    → IsNamedExpression op
    → expression_opcode_of (expression_opcode_code op) ≡ op
unfolding expression_opcode_of
expression_opcode_of-expression_opcode_code ExpressionOpcode.load_var h = refl
expression_opcode_of-expression_opcode_code ExpressionOpcode.load_arg h = refl
expression_opcode_of-expression_opcode_code ExpressionOpcode.load_builtin h = refl
expression_opcode_of-expression_opcode_code ExpressionOpcode.push_string h = refl
expression_opcode_of-expression_opcode_code ExpressionOpcode.push_bool h = refl
expression_opcode_of-expression_opcode_code ExpressionOpcode.push_number h = refl
expression_opcode_of-expression_opcode_code ExpressionOpcode.eval_lua h = refl
expression_opcode_of-expression_opcode_code ExpressionOpcode.load_member h = refl
expression_opcode_of-expression_opcode_code ExpressionOpcode.load_index h = refl
expression_opcode_of-expression_opcode_code ExpressionOpcode.len h = refl
expression_opcode_of-expression_opcode_code ExpressionOpcode.eq h = refl
expression_opcode_of-expression_opcode_code ExpressionOpcode.ne h = refl
expression_opcode_of-expression_opcode_code ExpressionOpcode.lt h = refl
expression_opcode_of-expression_opcode_code ExpressionOpcode.gt h = refl
expression_opcode_of-expression_opcode_code ExpressionOpcode.le h = refl
expression_opcode_of-expression_opcode_code ExpressionOpcode.ge h = refl
expression_opcode_of-expression_opcode_code ExpressionOpcode.in_ h = refl
expression_opcode_of-expression_opcode_code ExpressionOpcode.apply_filter h = refl
expression_opcode_of-expression_opcode_code ExpressionOpcode.call_function h = refl
expression_opcode_of-expression_opcode_code ExpressionOpcode.not h = refl
expression_opcode_of-expression_opcode_code ExpressionOpcode.to_bool h = refl
expression_opcode_of-expression_opcode_code ExpressionOpcode.jump h = refl
expression_opcode_of-expression_opcode_code ExpressionOpcode.jump_if_false h = refl
expression_opcode_of-expression_opcode_code ExpressionOpcode.jump_if_true h = refl
expression_opcode_of-expression_opcode_code (ExpressionOpcode.unknown n) h = absurd h

pub expression_opcode_code-lt :
    (op : ExpressionOpcode) → IsNamedExpression op → expression_opcode_code op < 4294967296
expression_opcode_code-lt ExpressionOpcode.load_var h = omega arith
expression_opcode_code-lt ExpressionOpcode.load_arg h = omega arith
expression_opcode_code-lt ExpressionOpcode.load_builtin h = omega arith
expression_opcode_code-lt ExpressionOpcode.push_string h = omega arith
expression_opcode_code-lt ExpressionOpcode.push_bool h = omega arith
expression_opcode_code-lt ExpressionOpcode.push_number h = omega arith
expression_opcode_code-lt ExpressionOpcode.eval_lua h = omega arith
expression_opcode_code-lt ExpressionOpcode.load_member h = omega arith
expression_opcode_code-lt ExpressionOpcode.load_index h = omega arith
expression_opcode_code-lt ExpressionOpcode.len h = omega arith
expression_opcode_code-lt ExpressionOpcode.eq h = omega arith
expression_opcode_code-lt ExpressionOpcode.ne h = omega arith
expression_opcode_code-lt ExpressionOpcode.lt h = omega arith
expression_opcode_code-lt ExpressionOpcode.gt h = omega arith
expression_opcode_code-lt ExpressionOpcode.le h = omega arith
expression_opcode_code-lt ExpressionOpcode.ge h = omega arith
expression_opcode_code-lt ExpressionOpcode.in_ h = omega arith
expression_opcode_code-lt ExpressionOpcode.apply_filter h = omega arith
expression_opcode_code-lt ExpressionOpcode.call_function h = omega arith
expression_opcode_code-lt ExpressionOpcode.not h = omega arith
expression_opcode_code-lt ExpressionOpcode.to_bool h = omega arith
expression_opcode_code-lt ExpressionOpcode.jump h = omega arith
expression_opcode_code-lt ExpressionOpcode.jump_if_false h = omega arith
expression_opcode_code-lt ExpressionOpcode.jump_if_true h = omega arith
expression_opcode_code-lt (ExpressionOpcode.unknown n) h = absurd h

abbrev pub function_kinds : List FunctionKind
function_kinds = FunctionKind.template ∷ FunctionKind.lua ∷ []

-- `static_cast<std::uint32_t>(opcode)`
abbrev pub function_kind_code : FunctionKind → ℕ
function_kind_code FunctionKind.template = 0
function_kind_code FunctionKind.lua = 1
function_kind_code (FunctionKind.unknown n) = n

-- `static_cast<FunctionKind>(code)`
unfoldable pub function_kind_of : ℕ → FunctionKind
function_kind_of n = get_or function_kinds n (FunctionKind.unknown n)

abbrev pub IsNamedKind : FunctionKind → Type 0
IsNamedKind (FunctionKind.unknown n) = ⊥
IsNamedKind _ = Unit

pub function_kind_of-function_kind_code :
    (op : FunctionKind) → IsNamedKind op → function_kind_of (function_kind_code op) ≡ op
unfolding function_kind_of
function_kind_of-function_kind_code FunctionKind.template h = refl
function_kind_of-function_kind_code FunctionKind.lua h = refl
function_kind_of-function_kind_code (FunctionKind.unknown n) h = absurd h

pub function_kind_code-lt :
    (op : FunctionKind) → IsNamedKind op → function_kind_code op < 4294967296
function_kind_code-lt FunctionKind.template h = omega arith
function_kind_code-lt FunctionKind.lua h = omega arith
function_kind_code-lt (FunctionKind.unknown n) h = absurd h
