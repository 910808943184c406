-- ===== src/Tests/Debugging.antt =====
-- The debug option, against a rule that turns debugging off.
use prebyte.Base.{ℕ, true, false, Option, some, List, [], ◌∷◌, ◌≡◌, refl, Bytes, str, equal, less}
use prebyte.Text.{starts_with}
use prebyte.Result.{ok, Yields}
use prebyte.Config.Map.{assign, insert_all}
use prebyte.Config.Settings.{exact, SettingsData, default_settings, ResolvedConfiguration}
use prebyte.Config.Rules.{
  apply_rule, parse_bool, parse_rule_assignment, parse_file_rule, cut_equals, cut_colons,
}
use prebyte.Config.Resolver.{
  add_file_rule, matches, resolve_for_file, add_rule_args, add_rule_arg, add_global_rule,
  apply_rules, resolve,
}
use prebyte.Config.Resolver.Debug.{resolve-debug}
use prebyte.Config.Resolver.Files.{rules_for}
use prebyte.Config.Resolver.Switched.{debug_after}

abbrev settings : SettingsData
settings = record {
  variables = [];
  include_paths = [];
  ignore_names = [];
  rules = (str "trim", str "true") ∷ [];
  file_rules = [];
  profiles = [];
}

abbrev rule_arguments : List Bytes
rule_arguments = str "debug=false" ∷ str "x.c::debug=false" ∷ []

abbrev stoull_seven : Bytes → Option ℕ
stoull_seven text = some 7

abbrev debugging : ResolvedConfiguration
debugging = record {
  variables = [];
  ignore_names = [];
  global_rules = (str "debug", str "true") ∷ (str "trim", str "true") ∷ [];
  file_rules =
      record { name = str "debug"; value = str "false"; kind = exact; pattern = str "x.c" } ∷ [];
  base_settings = record default_settings { trim = true; debug = true };
}

debugging_run : resolve stoull_seven settings rule_arguments [] [] true ≡ ok debugging
unfolding resolve add_file_rule parse_file_rule add_rule_args add_rule_arg add_global_rule
    parse_rule_assignment cut_equals cut_colons starts_with assign less apply_rules apply_rule
    parse_bool insert_all equal str
debugging_run = refl

abbrev base_name : Bytes → Bytes
base_name path = path

abbrev no_extension : Bytes → Bytes
no_extension path = []

resolve-debug_example :
    (debugging.base_settings.debug ≡ true)
    × Yields
        (λ s.
          s.debug
          ≡ debug_after true
              (rules_for stoull_seven base_name no_extension debugging.file_rules (str "x.c")))
        (resolve_for_file stoull_seven base_name no_extension debugging (str "x.c"))
resolve-debug_example =
    resolve-debug stoull_seven base_name no_extension settings rule_arguments [] [] debugging
      (str "x.c") (tt, tt) debugging_run

-- The rule for that file turns it off.
off_for_file :
    debug_after true
      (rules_for stoull_seven base_name no_extension debugging.file_rules (str "x.c"))
    ≡ false
unfolding matches equal str
off_for_file = refl
