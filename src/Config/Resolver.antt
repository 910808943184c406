-- ===== src/Config/Resolver.antt =====
-- config/RuleResolver.cpp: `resolve` and `resolve_for_file`. `filename` and `extension` of a path are
-- those of `std::filesystem::path`.
mod Frame
pub mod Paths
pub mod Files
pub mod Switched
pub mod Debug
use prebyte.Base.{
  ℕ, Bool, true, false, ◌&&◌, ◌||◌, Option, none, some, List, [], ◌∷◌, ◌++◌, Bytes, str, equal,
  if◌then◌else◌,
}
use prebyte.Result.{Result, ok, err, ◌>>=◌}
use prebyte.Config.Map.{Map, assign, insert_all}
use prebyte.Config.Settings.{
  FileRule, RuleMatchKind, extension as by_extension, exact as by_name, SettingsData,
  EffectiveSettings, default_settings, ResolvedConfiguration,
}
use prebyte.Config.Rules.{cut_colons, parse_rule_assignment, parse_file_rule, apply_rule}

-- `rule_arg.contains("::")`
abbrev pub has_colons : Option (Bytes × Bytes) → Bool
has_colons none = false
has_colons (some parts) = true

unfoldable pub add_file_rule : ResolvedConfiguration → Bytes → Result ResolvedConfiguration
add_file_rule c arg =
    parse_file_rule arg >>= λ rule. ok (record c { file_rules = c.file_rules ++ rule ∷ [] })

unfoldable pub add_global_rule : ResolvedConfiguration → Bytes → Result ResolvedConfiguration
add_global_rule c arg = parse_rule_assignment arg >>= λ (name, value).
    ok (record c { global_rules = assign c.global_rules name value })

-- A rule of the command line, for some files or for all.
unfoldable pub add_rule_arg : ResolvedConfiguration → Bytes → Result ResolvedConfiguration
add_rule_arg c arg =
    if has_colons (cut_colons arg) then add_file_rule c arg else add_global_rule c arg

unfoldable pub add_rule_args : ResolvedConfiguration → List Bytes → Result ResolvedConfiguration
add_rule_args c [] = ok c
add_rule_args c (arg ∷ args) = add_rule_arg c arg >>= λ c'. add_rule_args c' args

abbrev pub enable_debug : Bool → ResolvedConfiguration → ResolvedConfiguration
enable_debug debug_enabled c =
    if debug_enabled
    then record c { global_rules = assign c.global_rules (str "debug") (str "true") }
    else c

-- The configuration before the rules of the command line.
abbrev pub from_settings : SettingsData → List Bytes → ResolvedConfiguration
from_settings settings cli_ignore_names = record {
  variables = settings.variables;
  ignore_names = insert_all (insert_all [] settings.ignore_names) cli_ignore_names;
  global_rules = settings.rules;
  file_rules = settings.file_rules;
  base_settings = default_settings;
}

module _ (stoull : Bytes → Option ℕ) where
  -- `for (const auto& [name, value] : global_rules) { apply_rule(…); }`
  unfoldable pub apply_rules : EffectiveSettings → Map Bytes → Result EffectiveSettings
  apply_rules s [] = ok s
  apply_rules s ((name, value) ∷ rules) =
      apply_rule stoull s name value >>= λ s'. apply_rules s' rules

  abbrev pub with_base :
      SettingsData → List Bytes → ResolvedConfiguration → Result ResolvedConfiguration
  with_base settings cli_include_paths c = apply_rules c.base_settings c.global_rules >>= λ base.
      ok (record c {
        base_settings = record base { include_paths = cli_include_paths ++ settings.include_paths };
      })

  -- `RuleResolver::resolve`
  unfoldable pub resolve :
      SettingsData → List Bytes → List Bytes → List Bytes → Bool → Result ResolvedConfiguration
  resolve settings cli_rule_args cli_ignore_names cli_include_paths debug_enabled =
      add_rule_args (from_settings settings cli_ignore_names) cli_rule_args >>= λ c.
      with_base settings cli_include_paths (enable_debug debug_enabled c)

  module _ (filename extension : Bytes → Bytes) where
    unfoldable pub matches : RuleMatchKind → Bytes → Bytes → Bool
    matches by_extension pattern file_path = equal pattern (extension file_path)
    matches by_name pattern file_path = equal pattern (filename file_path)

    unfoldable pub apply_file_rules :
        EffectiveSettings → List FileRule → Bytes → Result EffectiveSettings
    apply_file_rules s [] file_path = ok s
    apply_file_rules s (rule ∷ rules) file_path =
        let skipped = apply_file_rules s rules file_path in
        let applied =
          apply_rule stoull s rule.name rule.value >>= λ s'. apply_file_rules s' rules file_path in
        if matches rule.kind rule.pattern file_path then applied else skipped

    -- `RuleResolver::resolve_for_file`
    unfoldable pub resolve_for_file : ResolvedConfiguration → Bytes → Result EffectiveSettings
    resolve_for_file c file_path = apply_file_rules c.base_settings c.file_rules file_path
