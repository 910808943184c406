-- ===== src/Config/Resolver/Files.antt =====
-- `resolve_for_file` of config/RuleResolver.cpp, against the list of the rules for a file.
use prebyte.Base.{ℕ, Option, List, [], ◌∷◌, ◌≡◌, refl, inl, inr, Bool-cases, Bytes, if◌then◌else◌}
use prebyte.Result.{Result, ok, err, out_of_fuel, ◌>>=◌}
use prebyte.Config.Map.{Map}
use prebyte.Config.Settings.{FileRule, EffectiveSettings, ResolvedConfiguration}
use prebyte.Config.Rules.{apply_rule}
use prebyte.Config.Resolver.{apply_rules, matches, apply_file_rules, resolve_for_file}

module _ (stoull : Bytes → Option ℕ) (filename extension : Bytes → Bytes) where
  -- The rules for a file, in their order, without what they are matched by.
  abbrev pub rules_for : List FileRule → Bytes → Map Bytes
  rules_for [] file = []
  rules_for (rule ∷ rules) file =
      let later = rules_for rules file in
      if matches stoull filename extension rule.kind rule.pattern file
      then (rule.name, rule.value) ∷ later
      else later

  then-congr :
      (m : Result EffectiveSettings) (f g : EffectiveSettings → Result EffectiveSettings)
      → ((s : EffectiveSettings) → f s ≡ g s)
      → (m >>= f) ≡ (m >>= g)
  then-congr (ok s) f g h = h s
  then-congr (err e) f g h = refl
  then-congr out_of_fuel f g h = refl

  file_rules-apply_rules :
      (rules : List FileRule) (s : EffectiveSettings) (file : Bytes)
      → apply_file_rules stoull filename extension s rules file
        ≡ apply_rules stoull s (rules_for rules file)
  unfolding apply_file_rules apply_rules
  file_rules-apply_rules [] s file = refl
  file_rules-apply_rules (rule ∷ rules) s file =
      elim (Bool-cases (matches stoull filename extension rule.kind rule.pattern file)) [
        | inl applies ↦ rw applies (
            then-congr (apply_rule stoull s rule.name rule.value) _ _
              (λ s'. file_rules-apply_rules rules s' file))
        | inr skips ↦ rw skips (file_rules-apply_rules rules s file)
      ]

  -- The settings of a file are made of the base settings by the matching rules, one by one.
  pub resolve_for_file-apply_rules :
      (c : ResolvedConfiguration) (file : Bytes)
      → resolve_for_file stoull filename extension c file
        ≡ apply_rules stoull c.base_settings (rules_for c.file_rules file)
  unfolding resolve_for_file
  resolve_for_file-apply_rules c file = file_rules-apply_rules c.file_rules c.base_settings file
