-- ===== src/Config/Resolver/Switched.antt =====
-- `apply_rule` of config/RuleResolver.cpp under the name `debug`, and a list of rules.
use mathlib.Core.Path.{subst}
use prebyte.Base.{
  ℕ, Bool, true, false, ◌||◌, ◌++◌, Option, [], ◌∷◌, ◌≡◌, refl, inl, inr, Bool-cases, Bytes, str,
  equal, equal_iff, if◌then◌else◌,
}
use prebyte.Result.{ok, ◌>>=◌, Yields, Yields-bind}
use prebyte.Config.Map.{Map}
use prebyte.Config.Settings.{EffectiveSettings}
use prebyte.Config.Rules.{fail, parse_bool, apply_rule}
use prebyte.Config.Resolver.{apply_rules}
use prebyte.Config.Resolver.Frame.{Keeps, apply_rule-debug}

-- The texts of a switch that is on.
abbrev pub is_on : Bytes → Bool
is_on value = equal value (str "true") || equal value (str "1")

-- Whether debugging is on behind some rules: the last of them under its name decides.
abbrev pub debug_after : Bool → Map Bytes → Bool
debug_after before [] = before
debug_after before ((name, value) ∷ rules) =
    debug_after (if equal name (str "debug") then is_on value else before) rules

module _ (stoull : Bytes → Option ℕ) where
  switched :
      (value : Bytes) (s : EffectiveSettings)
      → Yields
          (λ s'. s'.debug ≡ is_on value)
          (parse_bool value >>= λ b. ok (record s { debug = b }))
  unfolding parse_bool
  switched value s =
      choice (equal value (str "true") || equal value (str "1"))
        (equal value (str "false") || equal value (str "0"))
    where
      choice :
          (on off : Bool)
          → Yields
              (λ (s' : EffectiveSettings). s'.debug ≡ on)
              ((if on
                  then ok true
                  else if off
                  then ok false
                  else fail (str "Expected boolean value, got: " ++ value))
                >>= λ b. ok (record s { debug = b }))
      choice true off = refl
      choice false true = refl
      choice false false = tt

  debug_rule :
      (s : EffectiveSettings) (value : Bytes)
      → apply_rule stoull s (str "debug") value
        ≡ (parse_bool value >>= λ b. ok (record s { debug = b }))
  unfolding apply_rule equal str
  debug_rule s value = refl

  named-debug :
      (s : EffectiveSettings) (name value : Bytes)
      → name ≡ str "debug"
      → Yields (λ s'. s'.debug ≡ is_on value) (apply_rule stoull s name value)
  named-debug s name value n = rw (n, debug_rule s value) (switched value s)

  applied-debug :
      (s : EffectiveSettings) (name value : Bytes)
      → Yields
          (λ s'. s'.debug ≡ (if equal name (str "debug") then is_on value else s.debug))
          (apply_rule stoull s name value)
  unfolding Keeps
  applied-debug s name value = elim (Bool-cases (equal name (str "debug"))) [
    | inl same ↦ rw same (named-debug s name value ((equal_iff name (str "debug")).0 same))
    | inr differs ↦ rw differs (apply_rule-debug stoull s name value differs)
  ]

  pub apply_rules-debug_after :
      (rules : Map Bytes) (s : EffectiveSettings)
      → Yields (λ s'. s'.debug ≡ debug_after s.debug rules) (apply_rules stoull s rules)
  unfolding apply_rules
  apply_rules-debug_after [] s = refl
  apply_rules-debug_after ((name, value) ∷ rules) s =
      Yields-bind _ _ (apply_rule stoull s name value) _ (applied-debug s name value) λ s' e.
        subst (λ b. Yields (λ s''. s''.debug ≡ debug_after b rules) (apply_rules stoull s' rules)) e
          (apply_rules-debug_after rules s')
