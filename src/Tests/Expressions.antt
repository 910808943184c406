-- ===== src/Tests/Expressions.antt =====
-- The expression `a && "x"`, compiled and run, and values compared.
use prebyte.Base.{
  ℕ, suc, ◌<◌, Bool, true, false, not, ◌&&◌, none, [], ◌∷◌, ◌≡◌, refl, arith, str, equal, ◌==◌,
  ◌||◌, if◌then◌else◌,
}
use prebyte.Result.{SourceSpan, default_location, ok}
use prebyte.Template.Expression.{
  Expression, identifier_expr, string_expr, binary_expr, index_access_expr,
}
use prebyte.Compiled.Compiler.Accepted.{Answers, supported, compile_expression_node-Answers}
use prebyte.Config.Settings.{default_settings}
use prebyte.Compiled.Program.{ExpressionOpcode, InstructionRange, CompiledProgram}
use prebyte.Compiled.Compiler.State
use prebyte.Compiled.Compiler.State.{
  DataSlice, Builder, store_data, expression_size, expression_size_from, emit_expression,
  set_expression_target, append_data, find_slice, new_slice, push_expression, update_at, word,
}
use prebyte.Compiled.Compiler.Expressions.{
  DoubleOps, compile_expression, compile_expression_node, compile_binary, comparison_opcode,
  compile_logical, compile_short_circuit, load_name, emit_data, emit, is_builtin_name,
}
use prebyte.Runtime.Data.{Data, pos, negsuc}
use prebyte.Runtime.Value.{
  Numbers, owned, view, number, bool, borrowed, equals, compare_scalar, to_string, is_structured,
  is_zero,
}
use prebyte.Runtime.Value.Compared.{equals_lem, compare_scalar_swap, opposite_option}
use prebyte.Runtime.Machine.{Services, run_range, evaluate_expression}
use prebyte.Runtime.Meaning.{value_of}
use prebyte.Runtime.Compiles.{Stores, store_data_lem}
use prebyte.Runtime.Correct.{IsFaithful}
use prebyte.Runtime.Evaluation.{FewArguments, run_range-value_of}
use prebyte.Runtime.Single.{evaluate_expression-value_of}

-- Two numbers, 0 and 1.
abbrev digit : Bool → ℕ
digit true = 1
digit false = 0

abbrev pub digits : Numbers Bool
digits = record {
  of_int = λ i. elim i [ pos n ↦ not (n == 0) | negsuc n ↦ true ];
  is_nonzero = λ d. d;
  print = λ d. (if d then 49 else 48) ∷ [];
  print_int = λ i. elim i [ pos n ↦ (if not (n == 0) then 49 else 48) ∷ [] | negsuc n ↦ 45 ∷ [] ];
  strtod = λ text. none;
  is_less = λ l r. not l && r;
}

abbrev double : DoubleOps Bool
double = record { bits = digit; is_negative = λ d. false; is_whole = λ d. true; to_word = digit }

-- Every name has the name as its value, and a session counts the names.
abbrev services : Services Bool ℕ
services = record {
  numbers = digits;
  stoull = λ text. none;
  of_bits = λ n. not (n == 0);
  of_size = λ n. not (n == 0);
  contains = λ text part. equal text part;
  settings = default_settings;
  current_file = 102 ∷ [];
  load_name = λ builtin name span session. ok (owned name, suc session);
  load_arg = λ index span session. ok (bool true, session);
  eval_lua = λ source span session. ok (owned source, session);
  is_function = λ name session. false;
  call_function = λ name arguments session. ok (bool true, session);
}

abbrev place : SourceSpan
place = record { file_path = 102 ∷ []; start = default_location; end = default_location }

abbrev conjunction : Expression Bool
conjunction =
    binary_expr (identifier_expr (97 ∷ []) place) (38 ∷ 38 ∷ []) (string_expr (120 ∷ []) place)
      place

abbrev empty_program : CompiledProgram
empty_program = record {
  logical_path = [];
  source_path = [];
  parse_options = record {
    variable_prefix = 123 ∷ [];
    variable_suffix = 125 ∷ [];
    replace_tabs = false;
    tab_size = 4;
  };
  template_instructions = [];
  expression_instructions = [];
  data_blob = [];
  dependencies = [];
  functions = [];
  output_size_hint = 0;
}

abbrev start : Builder
start = record {
  program = empty_program;
  data_slices = [];
  for_loop_stack = [];
  output_size_hint = 0;
}

abbrev conjunction_program : CompiledProgram
conjunction_program = record empty_program {
  expression_instructions =
      record {
        opcode = ExpressionOpcode.load_var;
        data_offset = 0;
        data_length = 1;
        arg0 = 1;
        arg1 = 1;
      }
      ∷ record {
        opcode = ExpressionOpcode.jump_if_false;
        data_offset = 0;
        data_length = 0;
        arg0 = 5;
        arg1 = 0;
      }
      ∷ record {
        opcode = ExpressionOpcode.push_string;
        data_offset = 1;
        data_length = 1;
        arg0 = 0;
        arg1 = 0;
      }
      ∷ record {
        opcode = ExpressionOpcode.to_bool;
        data_offset = 0;
        data_length = 0;
        arg0 = 0;
        arg1 = 0;
      }
      ∷ record {
        opcode = ExpressionOpcode.jump;
        data_offset = 0;
        data_length = 0;
        arg0 = 6;
        arg1 = 0;
      }
      ∷ record {
        opcode = ExpressionOpcode.push_bool;
        data_offset = 0;
        data_length = 0;
        arg0 = 0;
        arg1 = 0;
      }
      ∷ [];
  data_blob = 97 ∷ 120 ∷ [];
}

abbrev slice_at : ℕ → DataSlice
slice_at offset = record { offset = offset; length = 1 }

abbrev behind : Builder
behind = record {
  program = conjunction_program;
  data_slices = (120 ∷ [], slice_at 1) ∷ (97 ∷ [], slice_at 0) ∷ [];
  for_loop_stack = [];
  output_size_hint = 0;
}

abbrev whole : InstructionRange
whole = record { offset = 0; length = 6 }

conjunction_compiled : compile_expression double conjunction start ≡ ok (whole, behind)
unfolding compile_expression State.◌>>=◌ expression_size compile_expression_node compile_binary
    comparison_opcode equal str compile_logical compile_short_circuit load_name emit_data store_data
    emit emit_expression State.pure set_expression_target expression_size_from is_builtin_name
    append_data find_slice new_slice push_expression update_at word
conjunction_compiled = refl

small_bits : (d : Bool) → double.bits d < 18446744073709551616
small_bits true = omega arith
small_bits false = omega arith

same_bits : (d : Bool) → services.of_bits (double.bits d) ≡ d
same_bits true = refl
same_bits false = refl

double-IsFaithful : IsFaithful double services
double-IsFaithful = record { bits = small_bits; back = same_bits }

conjunction-FewArguments : FewArguments conjunction
unfolding FewArguments
conjunction-FewArguments = (tt, tt)

run_range-value_of_example :
    run_range services conjunction_program whole 0 ≡ value_of double services conjunction 0
run_range-value_of_example =
    run_range-value_of double services double-IsFaithful conjunction start behind whole
      conjunction-FewArguments tt conjunction_compiled (omega arith, omega arith)
      conjunction_program [] [] refl refl 0

evaluate_expression-value_of_example :
    evaluate_expression services conjunction_program whole 0
    ≡ value_of double services conjunction 0
evaluate_expression-value_of_example =
    evaluate_expression-value_of double services double-IsFaithful conjunction start behind whole
      conjunction-FewArguments tt conjunction_compiled (omega arith, omega arith)
      conjunction_program [] [] refl refl 0

store_data_lem_example :
    (slice : DataSlice) × (t : Builder) × (store_data (98 ∷ []) behind ≡ ok (slice, t))
    × Stores behind t (98 ∷ []) slice
store_data_lem_example = store_data_lem (98 ∷ []) behind

-- A text, and an item of a list that is the same text.
equals_lem_example : equals digits (view (97 ∷ [])) (borrowed (Data.string (97 ∷ []))) ≡ (
    if is_structured {D = Bool} (view (97 ∷ []))
      || is_structured {D = Bool} (borrowed (Data.string (97 ∷ [])))
    then false
    else equal
        (to_string digits (view (97 ∷ [])))
        (to_string digits (borrowed (Data.string (97 ∷ [])))))
equals_lem_example = equals_lem digits (view (97 ∷ [])) (borrowed (Data.string (97 ∷ [])))

digits_asym : (l r : Bool) → digits.is_less l r ≡ true → digits.is_less r l ≡ false
digits_asym true true h = refl
digits_asym true false h = absurd (cc h)
digits_asym false true h = refl
digits_asym false false h = refl

compare_scalar_swap_example :
    compare_scalar digits (view (98 ∷ [])) (number true)
    ≡ opposite_option digits (compare_scalar digits (number true) (view (98 ∷ [])))
compare_scalar_swap_example = compare_scalar_swap digits digits_asym (number true) (view (98 ∷ []))

int_truth : digits.is_nonzero (digits.of_int (pos 1)) ≡ not (is_zero (pos 1))
unfolding is_zero
int_truth = refl

-- An index of `ARGS` that is no constant.
abbrev open_index : Expression Bool
open_index =
    index_access_expr (identifier_expr (65 ∷ 82 ∷ 71 ∷ 83 ∷ []) place)
      (string_expr (120 ∷ []) place) place

compile_expression_node-Answers_example :
    Answers (supported double open_index) (compile_expression_node double open_index start)
compile_expression_node-Answers_example = compile_expression_node-Answers double open_index start
