-- ===== src/Compiled/Compiler/State.antt =====
-- runtime/compiled/CompiledTemplateCompiler.cpp: the state of `CompilerBuilder` and what writes to
-- it. The program that is built is a part of the state; an exception ends the compilation.
use prebyte.Base.{
  ℕ, zero, suc, ◌+◌, ◌-◌, ◌%◌, Option, none, some, List, [], ◌∷◌, ◌++◌, Bytes, length, equal,
  if◌then◌else◌,
}
use prebyte.Result
use prebyte.Result.{Diagnostic, plain_diagnostic, SourceSpan, diagnostic_error, Result, ok, err}
use prebyte.Compiled.Program.{
  emit_text, emit_expr, emit_lua_expr, Instruction, TemplateInstruction, ExpressionInstruction,
  CompiledFunction, CompiledProgram,
}

-- `static_cast<std::uint32_t>(value)`
unfoldable pub word : ℕ → ℕ
word value = value % 4294967296

pub record DataSlice : Type 0 where
  pub offset : ℕ
  pub length : ℕ

-- `CompilerBuilder::ForLoopPatch`
pub record ForLoopPatch : Type 0 where
  pub scope_instruction : ℕ
  pub else_instruction : ℕ

-- The members of `CompilerBuilder`; the back of the stack of loops is its head.
pub record Builder : Type 0 where
  pub program : CompiledProgram
  pub data_slices : List (Bytes × DataSlice)
  pub for_loop_stack : List ForLoopPatch
  pub output_size_hint : ℕ

abbrev pub Compiler : Type 0 → Type 0
Compiler A = Builder → Result (A × Builder)

unfoldable pub pure : {A : Type 0} → A → Compiler A
pure a s = ok (a, s)

module _ {A B : Type 0} where
  infixl 1 ◌>>=◌ ◌>>◌
  unfoldable pub ◌>>=◌ : Compiler A → (A → Compiler B) → Compiler B
  f >>= g = λ s. Result.◌>>=◌ (f s) λ (a, t). g a t

  abbrev pub ◌>>◌ : Compiler A → Compiler B → Compiler B
  f >> g = f >>= λ _. g

-- `Diagnostic` with the code `COMPILE001`, thrown
unfoldable pub fail : {A : Type 0} → Bytes → Bytes → SourceSpan → Compiler A
fail code message span s =
    err (diagnostic_error (record (plain_diagnostic code message) { span = span }))

-- `data_slices_.find(value)`
unfoldable pub find_slice : List (Bytes × DataSlice) → Bytes → Option DataSlice
find_slice [] value = none
find_slice ((key, slice) ∷ slices) value =
    let later = find_slice slices value in if equal key value then some slice else later

unfoldable pub new_slice : Builder → Bytes → DataSlice
new_slice s value = record {
  offset = word (length s.program.data_blob);
  length = word (length value);
}

unfoldable pub append_data : Builder → Bytes → Builder
append_data s value = record s {
  program = record s.program { data_blob = s.program.data_blob ++ value };
  data_slices = (value, new_slice s value) ∷ s.data_slices;
}

abbrev pub found_slice : Option DataSlice → Bytes → Builder → DataSlice × Builder
found_slice (some slice) value s = (slice, s)
found_slice none value s = (new_slice s value, append_data s value)

-- `CompilerBuilder::store_data`
unfoldable pub store_data : Bytes → Compiler DataSlice
store_data value s = ok (found_slice (find_slice s.data_slices value) value s)

-- The `switch` of `emit_template`.
abbrev pub hint_of : TemplateInstruction → ℕ
hint_of i = elim i.opcode [
  | emit_text ↦ i.data_length
  | emit_expr ↦ 16
  | emit_lua_expr ↦ 16
  | _ ↦ 0
]

unfoldable pub push_template : TemplateInstruction → Builder → Builder
push_template i s = record s {
  program = record s.program {
    template_instructions = s.program.template_instructions ++ (i ∷ []);
  };
  output_size_hint = word (s.output_size_hint + hint_of i);
}

-- `CompilerBuilder::emit_template`, with the index of the instruction
unfoldable pub emit_template : TemplateInstruction → Compiler ℕ
emit_template i s = ok (word (length s.program.template_instructions), push_template i s)

unfoldable pub push_expression : ExpressionInstruction → Builder → Builder
push_expression i s = record s {
  program = record s.program {
    expression_instructions = s.program.expression_instructions ++ (i ∷ []);
  };
}

-- `CompilerBuilder::emit_expression`
unfoldable pub emit_expression : ExpressionInstruction → Compiler ℕ
emit_expression i s = ok (word (length s.program.expression_instructions), push_expression i s)

-- `static_cast<std::uint32_t>(program_.template_instructions.size())` and its kin
unfoldable pub template_size : Compiler ℕ
template_size s = ok (word (length s.program.template_instructions), s)

unfoldable pub expression_size : Compiler ℕ
expression_size s = ok (word (length s.program.expression_instructions), s)

unfoldable pub function_size : Compiler ℕ
function_size s = ok (word (length s.program.functions), s)

-- `static_cast<std::uint32_t>(program_.expression_instructions.size() - start)`
unfoldable pub expression_size_from : ℕ → Compiler ℕ
expression_size_from start s = ok (word (length s.program.expression_instructions - start), s)

-- An element of a list, changed in its place.
unfoldable pub update_at {ℓ} : {A : Type ℓ} → (A → A) → ℕ → List A → List A
update_at change i [] = []
update_at change zero (x ∷ xs) = change x ∷ xs
update_at change (suc i) (x ∷ xs) = x ∷ update_at change i xs

abbrev pub with_arg0 : {Opcode : Type 0} → ℕ → Instruction Opcode → Instruction Opcode
with_arg0 target i = record i { arg0 = target }

-- `program_.template_instructions[index]`, changed
unfoldable pub change_template : (TemplateInstruction → TemplateInstruction) → ℕ → Compiler Unit
change_template change index s = ok (
  tt,
  record s {
    program = record s.program {
      template_instructions = update_at change index s.program.template_instructions;
    };
  },
)

-- `program_.expression_instructions[index].arg0 = target`
unfoldable pub set_expression_target : ℕ → ℕ → Compiler Unit
set_expression_target index target s = ok (
  tt,
  record s {
    program = record s.program {
      expression_instructions =
          update_at (with_arg0 target) index s.program.expression_instructions;
    };
  },
)

unfoldable pub push_function : CompiledFunction → Compiler Unit
push_function f s =
    ok (tt, record s { program = record s.program { functions = s.program.functions ++ (f ∷ []) } })

-- `program_.functions[index]`, changed
unfoldable pub change_function : (CompiledFunction → CompiledFunction) → ℕ → Compiler Unit
change_function change index s = ok (
  tt,
  record s {
    program = record s.program { functions = update_at change index s.program.functions };
  },
)

-- `std::numeric_limits<std::uint32_t>::max()`
abbrev pub word_max : ℕ
word_max = 4294967295

unfoldable pub push_loop : ℕ → Compiler Unit
push_loop scope_instruction s =
    let patch : ForLoopPatch = record {
      scope_instruction = scope_instruction;
      else_instruction = word_max;
    } in
    ok (tt, record s { for_loop_stack = patch ∷ s.for_loop_stack })

-- `for_loop_stack_.back().else_instruction = index`, where the stack is not empty
unfoldable pub set_else : ℕ → List ForLoopPatch → List ForLoopPatch
set_else index [] = []
set_else index (patch ∷ patches) = record patch { else_instruction = index } ∷ patches

unfoldable pub mark_else : ℕ → Compiler Unit
mark_else index s = ok (tt, record s { for_loop_stack = set_else index s.for_loop_stack })

-- `for_loop_stack_.back()` and `for_loop_stack_.pop_back()`, where the stack is not empty
unfoldable pub pop_loop : Compiler (Option ForLoopPatch)
pop_loop s = ok (elim s.for_loop_stack [
  | [] ↦ (none, s)
  | patch ∷ patches ↦ (some patch, record s { for_loop_stack = patches })
])
