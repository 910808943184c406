-- ===== src/Config/Rules.antt =====
-- config/RuleResolver.cpp: one rule, as it is written and as it is applied. `stoull` is
-- `std::stoull`, which throws where it has no number or too large a one.
pub mod Assignment
use prebyte.Base.{
  ℕ, Bool, true, false, not, ◌&&◌, ◌||◌, Option, none, some, List, [], ◌∷◌, ◌++◌, Bytes, str, equal,
  if◌then◌else◌, ◌==◌, drop,
}
use prebyte.Result.{Diagnostic, plain_diagnostic, diagnostic_error, Result, ok, err, ◌>>=◌}
use prebyte.Text.{starts_with, split, trim, to_lower}
use prebyte.Config.Map.{insert}
use prebyte.Config.Settings.{FileRule, RuleMatchKind, extension, exact, EffectiveSettings}

abbrev pub make_rule_error : Bytes → Diagnostic
make_rule_error message = plain_diagnostic (str "CFG003") message

abbrev pub fail {ℓ} : {A : Type ℓ} → Bytes → Result A
fail message = err (diagnostic_error (make_rule_error message))

unfoldable pub parse_bool : Bytes → Result Bool
parse_bool value =
    if equal value (str "true") || equal value (str "1")
    then ok true
    else if equal value (str "false") || equal value (str "0")
    then ok false
    else fail (str "Expected boolean value, got: " ++ value)

abbrev pub some_size : Bytes → Option ℕ → Result ℕ
some_size value none = fail (str "Expected unsigned integer value, got: " ++ value)
some_size value (some n) = ok n

-- An entry of a list of names: blanks around it do not count, and neither does an empty one.
abbrev pub insert_name : List Bytes → Bytes → List Bytes
insert_name names [] = names
insert_name names (c ∷ cs) = insert names (c ∷ cs)

unfoldable pub insert_names : List Bytes → List Bytes → List Bytes
insert_names names [] = names
insert_names names (entry ∷ entries) = insert_names (insert_name names (trim entry)) entries

unfoldable pub parse_name_set : Bytes → List Bytes
parse_name_set value = insert_names [] (split value b',')

unfoldable pub parse_output_encoding : Bytes → Result Bytes
parse_output_encoding value =
    let normalized = to_lower (trim value) in
    if equal normalized (str "utf-8") || equal normalized (str "utf-16")
    then ok normalized
    else fail (str "Unsupported output encoding: " ++ value)

abbrev pub in_front : ℕ → Option (Bytes × Bytes) → Option (Bytes × Bytes)
in_front c none = none
in_front c (some (before, behind)) = some (c ∷ before, behind)

-- `find('=')`: the text in front of the first one, and the text behind it.
unfoldable pub cut_equals : Bytes → Option (Bytes × Bytes)
cut_equals [] = none
cut_equals (c ∷ cs) =
    let later = in_front c (cut_equals cs) in if c == b'=' then some ([], cs) else later

-- `find("::")`
unfoldable pub cut_colons : Bytes → Option (Bytes × Bytes)
cut_colons [] = none
cut_colons (c ∷ cs) =
    let later = in_front c (cut_colons cs) in
    if starts_with (c ∷ cs) (str "::") then some ([], drop 1 cs) else later

-- Neither side of the sign may be empty.
abbrev pub both_sides : Bytes → Option (Bytes × Bytes) → Result (Bytes × Bytes)
both_sides assignment none = fail (str "Invalid rule assignment: " ++ assignment)
both_sides assignment (some ([], value)) = fail (str "Invalid rule assignment: " ++ assignment)
both_sides assignment (some (c ∷ name, [])) = fail (str "Invalid rule assignment: " ++ assignment)
both_sides assignment (some (c ∷ name, v ∷ value)) = ok (c ∷ name, v ∷ value)

unfoldable pub parse_rule_assignment : Bytes → Result (Bytes × Bytes)
parse_rule_assignment assignment = both_sides assignment (cut_equals assignment)

abbrev pub kind_of : Bytes → RuleMatchKind
kind_of [] = exact
kind_of (c ∷ cs) = if c == b'.' then extension else exact

abbrev pub file_rule_of : Bytes → Option (Bytes × Bytes) → Result FileRule
file_rule_of rule none = fail (str "Invalid file rule: " ++ rule)
file_rule_of rule (some (pattern, assignment)) =
    parse_rule_assignment assignment >>= λ (name, value).
    ok (record { kind = kind_of pattern; pattern = pattern; name = name; value = value })

unfoldable pub parse_file_rule : Bytes → Result FileRule
parse_file_rule rule = file_rule_of rule (cut_colons rule)

abbrev pub set_bool : Bytes → (Bool → EffectiveSettings) → Result EffectiveSettings
set_bool value set = parse_bool value >>= λ b. ok (set b)

abbrev pub set_encoding : Bytes → EffectiveSettings → Result EffectiveSettings
set_encoding value s =
    parse_output_encoding value >>= λ encoding. ok (record s { output_encoding = encoding })

module _ (stoull : Bytes → Option ℕ) where
  unfoldable pub parse_size : Bytes → Result ℕ
  parse_size value = some_size value (stoull value)

  abbrev pub set_size : Bytes → (ℕ → EffectiveSettings) → Result EffectiveSettings
  set_size value set = parse_size value >>= λ n. ok (set n)

  unfoldable pub apply_rule : EffectiveSettings → Bytes → Bytes → Result EffectiveSettings
  apply_rule s name value =
      if equal name (str "strict_variables")
      then set_bool value (λ b. record s { strict_variables = b })
      else if equal name (str "case_sensitive_variables")
      then set_bool value (λ b. record s { case_sensitive_variables = b })
      else if equal name (str "default_variable_value")
      then ok (record s { default_variable_value = some value })
      else if equal name (str "variable_prefix")
      then ok (record s { variable_prefix = value })
      else if equal name (str "variable_suffix")
      then ok (record s { variable_suffix = value })
      else if equal name (str "max_variable_length")
      then set_size value
          (λ n. record s { max_variable_length = n; has_max_variable_length = true })
      else if equal name (str "replace_tabs")
      then set_bool value (λ b. record s { replace_tabs = b })
      else if equal name (str "tab_size")
      then set_size value (λ n. record s { tab_size = n })
      else if equal name (str "trim")
      then set_bool value (λ b. record s { trim = b })
      else if equal name (str "allow_includes")
      then set_bool value (λ b. record s { allow_includes = b })
      else if equal name (str "include_path")
      then ok (record s { include_path = value })
      else if equal name (str "output_encoding")
      then set_encoding value s
      else if equal name (str "allow_env")
      then set_bool value (λ b. record s { allow_env = b })
      else if equal name (str "forbidden_env_vars")
      then ok (record s { forbidden_env_vars = parse_name_set value })
      else if equal name (str "error_on_false_input")
      then set_bool value (λ b. record s { error_on_false_input = b })
      else if equal name (str "lua_instruction_limit")
      then set_size value (λ n. record s { lua_instruction_limit = n })
      else if equal name (str "lua_memory_limit_bytes")
      then set_size value (λ n. record s { lua_memory_limit_bytes = n })
      else if equal name (str "max_include_depth")
      then set_size value (λ n. record s { max_include_depth = n })
      else if equal name (str "max_render_time_ms")
      then set_size value (λ n. record s { max_render_time_ms = n })
      else if equal name (str "max_output_size_bytes")
      then set_size value (λ n. record s { max_output_size_bytes = n })
      else if equal name (str "max_loop_iteration")
      then set_size value (λ n. record s { max_loop_iteration = n })
      else if equal name (str "debug")
      then set_bool value (λ b. record s { debug = b })
      else fail (str "Unknown rule: " ++ name)
