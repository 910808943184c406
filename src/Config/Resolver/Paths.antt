-- ===== src/Config/Resolver/Paths.antt =====
-- The include paths in `resolve` and `resolve_for_file` of config/RuleResolver.cpp.
use prebyte.Base.{ℕ, Bool, Option, List, [], ◌∷◌, ◌++◌, ◌≡◌, refl, ◌∙◌, Bytes}
use prebyte.Result.{ok, Yields, Yields-bind, Yields-any}
use prebyte.Config.Settings.{FileRule, SettingsData, EffectiveSettings, ResolvedConfiguration}
use prebyte.Config.Rules.{apply_rule}
use prebyte.Config.Resolver.{
  with_base, resolve, apply_rules, add_rule_args, from_settings, enable_debug, matches,
  apply_file_rules, resolve_for_file,
}
use prebyte.Config.Resolver.Frame.{Keeps, if-Keeps, Keeps-from, apply_rule-include_paths}

abbrev paths : EffectiveSettings → List Bytes
paths s = s.include_paths

module _ (stoull : Bytes → Option ℕ) (filename extension : Bytes → Bytes) where
  file_rules-paths :
      (rules : List FileRule) (s : EffectiveSettings) (file : Bytes)
      → Yields (Keeps paths s) (apply_file_rules stoull filename extension s rules file)
  unfolding apply_file_rules Keeps
  file_rules-paths [] s file = refl
  file_rules-paths (rule ∷ rules) s file =
      if-Keeps paths s (matches stoull filename extension rule.kind rule.pattern file) _ _
        (Yields-bind (Keeps paths s) (Keeps paths s) (apply_rule stoull s rule.name rule.value) _
          (apply_rule-include_paths stoull s rule.name rule.value)
          (λ s' e. Keeps-from paths s' s _ e (file_rules-paths rules s' file)))
        (file_rules-paths rules s file)

  with_base-paths :
      (settings : SettingsData) (cli : List Bytes) (c : ResolvedConfiguration)
      → Yields
          (λ c'. c'.base_settings.include_paths ≡ cli ++ settings.include_paths)
          (with_base stoull settings cli c)
  with_base-paths settings cli c =
      Yields-bind (λ _. Unit) _ (apply_rules stoull c.base_settings c.global_rules) _
        (Yields-any (apply_rules stoull c.base_settings c.global_rules)) (λ base _. refl)

  resolve-paths :
      (settings : SettingsData) (rules ignores cli : List Bytes) (debug : Bool)
      → Yields
          (λ c. c.base_settings.include_paths ≡ cli ++ settings.include_paths)
          (resolve stoull settings rules ignores cli debug)
  unfolding resolve
  resolve-paths settings rules ignores cli debug =
      Yields-bind (λ _. Unit) _ (add_rule_args (from_settings settings ignores) rules) _
        (Yields-any (add_rule_args (from_settings settings ignores) rules))
        λ c _. with_base-paths settings cli (enable_debug debug c)

  -- Whatever rules there are, the field `include_paths` of the settings that are resolved for a file
  -- is the list of the paths of the command line and behind them those of the settings, each in their
  -- order. (The rule `include_path` sets another field.)
  pub resolve_for_file-include_paths :
      (settings : SettingsData) (rules ignores cli : List Bytes) (debug : Bool) (file : Bytes)
      → (c : ResolvedConfiguration) (s : EffectiveSettings)
      → resolve stoull settings rules ignores cli debug ≡ ok c
      → resolve_for_file stoull filename extension c file ≡ ok s
      → s.include_paths ≡ cli ++ settings.include_paths
  unfolding resolve_for_file Keeps
  resolve_for_file-include_paths settings rules ignores cli debug file c s e f =
      let kept : s.include_paths ≡ c.base_settings.include_paths =
        rw f at (file_rules-paths c.file_rules c.base_settings file) in
      kept ∙ (rw e at (resolve-paths settings rules ignores cli debug))
