-- ===== src/Tests/Configurations.antt =====
-- The command line and the settings.
use prebyte.Base.{
  ℕ, Bool, true, false, Option, none, some, List, [], ◌∷◌, ◌++◌, ◌≡◌, ◌≢◌, ◌↔◌, refl, Bytes, str,
  equal, if◌then◌else◌,
}
use mathlib.Core.Path.{subst}
use prebyte.Text.{starts_with}
use prebyte.Result.{ok, IfSome}
use prebyte.Command.{
  Command, no_command, render, parse, parse_argument, parse_arguments, positional, batch,
  check_batch,
}
use prebyte.Command.Rounds.{IsConsistent}
use prebyte.Command.Consistent.{parse-IsConsistent}
use prebyte.Config.Map.{Map, find, assign, insert_all}
use prebyte.Config.Map.Lookup.{find-assign, IsDistinct, or_find}
use prebyte.Config.Settings.{
  extension, ProfileConfig, SettingsData, EffectiveSettings, default_settings,
  ResolvedConfiguration,
}
use prebyte.Config.Rules.{apply_rule, parse_bool, parse_rule_assignment}
use prebyte.Config.Rules.Assignment.{IsAssignment, parse_rule_assignment_lem}
use prebyte.Config.Profiles.{overlay, merge_onto, merge}
use prebyte.Config.Profiles.Paths.{paths_of, merge-include_paths}
use prebyte.Config.Profiles.Latest.{latest, merge-latest}
use prebyte.Config.Resolver.{
  add_rule_args, apply_rules, apply_file_rules, matches, resolve, resolve_for_file,
}
use prebyte.Config.Resolver.Paths.{resolve_for_file-include_paths}

-- A batch from stdin for a template.
abbrev arguments : List Bytes
arguments = str "t" ∷ str "-b" ∷ []

abbrev command : Command
command = record (no_command render) { input_path = some (str "t"); batch_from_stdin = true }

command_run : parse arguments ≡ ok command
unfolding parse parse_argument parse_arguments positional batch check_batch equal str starts_with
command_run = refl

parse-IsConsistent_example :
    IsConsistent command × (command.batch_from_stdin ≡ true → command.input_path ≢ none)
parse-IsConsistent_example = parse-IsConsistent arguments command command_run

parse_rule_assignment_lem_example :
    (parse_rule_assignment (str "a=b=c") ≡ ok (str "a", str "b=c"))
    ↔ IsAssignment (str "a=b=c") (str "a") (str "b=c")
parse_rule_assignment_lem_example = parse_rule_assignment_lem (str "a=b=c") (str "a") (str "b=c")

abbrev old_variables : Map Bytes
old_variables = (str "a", str "1") ∷ (str "c", str "3") ∷ []

abbrev new_variables : Map Bytes
new_variables = (str "b", str "2") ∷ (str "c", str "4") ∷ []

find-assign_example :
    find (assign old_variables (str "b") (str "2")) (str "c")
    ≡ (if equal (str "b") (str "c") then some (str "2") else find old_variables (str "c"))
find-assign_example = find-assign old_variables (str "b") (str "2") (str "c")

new_variables-IsDistinct : IsDistinct new_variables
unfolding find equal str
new_variables-IsDistinct = (refl, (refl, tt))

abbrev profile : ProfileConfig
profile = record {
  variables = new_variables;
  include_paths = str "p" ∷ [];
  ignore_names = [];
  rules = [];
  file_rules = [];
}

abbrev settings : SettingsData
settings = record {
  variables = old_variables;
  include_paths = str "q" ∷ [];
  ignore_names = [];
  rules = (str "trim", str "true") ∷ [];
  file_rules =
      record { kind = extension; pattern = str ".c"; name = str "debug"; value = str "1" } ∷ [];
  profiles = (str "dev", profile) ∷ [];
}

abbrev merged : SettingsData
merged = overlay settings profile

merge_run : merge settings (str "dev" ∷ []) ≡ ok merged
unfolding merge merge_onto find equal str
merge_run = refl

merge-include_paths_example :
    merged.include_paths ≡ settings.include_paths ++ paths_of settings.profiles (str "dev" ∷ [])
merge-include_paths_example = merge-include_paths settings merged (str "dev" ∷ []) merge_run

found-IsDistinct :
    (b : Bool)
    → IfSome (λ (p : ProfileConfig). IsDistinct p.variables) (if b then some profile else none)
found-IsDistinct true = new_variables-IsDistinct
found-IsDistinct false = tt

profiles-IsDistinct :
    (name : Bytes) (p : ProfileConfig)
    → find settings.profiles name ≡ some p
    → IsDistinct p.variables
unfolding find
profiles-IsDistinct name p e =
    subst (λ (o : Option ProfileConfig). IfSome (λ (q : ProfileConfig). IsDistinct q.variables) o) e
      (found-IsDistinct (equal (str "dev") name))

merge-latest_example :
    find merged.variables (str "c")
    ≡ or_find
        (latest settings.profiles (str "dev" ∷ []) (str "c"))
        (find settings.variables (str "c"))
merge-latest_example =
    merge-latest settings merged (str "dev" ∷ []) (str "c") profiles-IsDistinct merge_run

-- Every number is read as seven.
abbrev stoull_seven : Bytes → Option ℕ
stoull_seven text = some 7

-- A path is its own name, and has the extension `.c`.
abbrev filename : Bytes → Bytes
filename path = path

abbrev extension_c : Bytes → Bytes
extension_c path = str ".c"

abbrev configuration : ResolvedConfiguration
configuration = record {
  variables = settings.variables;
  ignore_names = [];
  global_rules = (str "trim", str "true") ∷ [];
  file_rules = settings.file_rules;
  base_settings = record default_settings { trim = true; include_paths = str "r" ∷ str "q" ∷ [] };
}

abbrev file_settings : EffectiveSettings
file_settings = record configuration.base_settings { debug = true }

resolve_run : resolve stoull_seven settings [] [] (str "r" ∷ []) false ≡ ok configuration
unfolding resolve add_rule_args apply_rules apply_rule parse_bool insert_all equal str
resolve_run = refl

resolve_for_file_run :
    resolve_for_file stoull_seven filename extension_c configuration (str "f.c") ≡ ok file_settings
unfolding resolve_for_file apply_file_rules matches apply_rule parse_bool equal str
resolve_for_file_run = refl

resolve_for_file-include_paths_example :
    file_settings.include_paths ≡ (str "r" ∷ []) ++ settings.include_paths
resolve_for_file-include_paths_example =
    resolve_for_file-include_paths stoull_seven filename extension_c settings [] [] (str "r" ∷ [])
      false (str "f.c") configuration file_settings resolve_run resolve_for_file_run
