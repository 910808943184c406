-- ===== src/Config/Resolver/Debug.antt =====
-- `resolve` of config/RuleResolver.cpp with the debug option of the command line.
use mathlib.Core.Path.{subst}
use prebyte.Base.{
  ℕ, Bool, true, false, Option, none, some, List, [], ◌∷◌, ◌≡◌, ◌≢◌, refl, sym, ap, ◌∙◌, inl, inr,
  Bool-cases, Bytes, str, equal, equal_iff, equal_refl, if◌then◌else◌,
}
use prebyte.Result.{ok, ◌>>=◌, Yields, Yields-bind, Yields-any}
use prebyte.Config.Map.{Map, find, assign}
use prebyte.Config.Map.Lookup.{find-assign}
use prebyte.Config.Map.Order.{IsSorted, find-Above, assign-IsSorted}
use prebyte.Config.Settings.{SettingsData, EffectiveSettings, ResolvedConfiguration}
use prebyte.Config.Rules.{
  cut_colons, parse_bool, apply_rule, parse_rule_assignment, parse_file_rule,
}
use prebyte.Config.Resolver.{
  has_colons, with_base, resolve, apply_rules, add_rule_arg, add_file_rule, add_global_rule,
  add_rule_args, from_settings, enable_debug, resolve_for_file,
}
use prebyte.Config.Resolver.Frame.{Keeps, Keeps-from, apply_rule-debug}
use prebyte.Config.Resolver.Files.{rules_for, resolve_for_file-apply_rules}
use prebyte.Config.Resolver.Switched.{debug_after, apply_rules-debug_after}

abbrev debug_of : EffectiveSettings → Bool
debug_of s = s.debug

option_miss :
    (b : Bool) (v : Bytes) (o : Option Bytes)
    → (if b then some v else o) ≡ none
    → (b ≡ false) × (o ≡ none)
option_miss true v o h = absurd (some_ne h)
  where
    some_ne : {v : Bytes} → some v ≢ none
    some_ne = λ e. cc
option_miss false v o h = (refl, h)

find-miss :
    (name value key : Bytes) (rules : Map Bytes)
    → find ((name, value) ∷ rules) key ≡ none
    → (equal name key ≡ false) × (find rules key ≡ none)
unfolding find
find-miss name value key rules h = option_miss (equal name key) value (find rules key) h

none_ne : (v : Bytes) → none ≢ some v
none_ne v = λ e. cc

value_or : Option Bytes → Bytes
value_or none = []
value_or (some v) = v

find-here :
    (name value key found : Bytes) (rules : Map Bytes)
    → find ((name, value) ∷ rules) key ≡ some found
    → equal name key ≡ true
    → value ≡ found
unfolding find value_or
find-here name value key found rules h same = ap value_or (rw same at h)

find-later :
    (name value key found : Bytes) (rules : Map Bytes)
    → find ((name, value) ∷ rules) key ≡ some found
    → equal name key ≡ false
    → find rules key ≡ some found
unfolding find
find-later name value key found rules h differs = rw differs at h

module _ (stoull : Bytes → Option ℕ) where
  debug_rule :
      (s : EffectiveSettings)
      → apply_rule stoull s (str "debug") (str "true") ≡ ok (record s { debug = true })
  unfolding apply_rule equal str parse_bool
  debug_rule s = refl

  -- Rules under other names leave it.
  rules-Keeps :
      (rules : Map Bytes) (s : EffectiveSettings)
      → find rules (str "debug") ≡ none
      → Yields (Keeps debug_of s) (apply_rules stoull s rules)
  unfolding apply_rules Keeps
  rules-Keeps [] s h = refl
  rules-Keeps ((name, value) ∷ rules) s h =
      let (differs, later) = find-miss name value (str "debug") rules h in
      Yields-bind (Keeps debug_of s) (Keeps debug_of s) (apply_rule stoull s name value) _
        (apply_rule-debug stoull s name value differs)
        (λ s' e. Keeps-from debug_of s' s _ e (rules-Keeps rules s' later))

  turned_on :
      (rules : Map Bytes) (s : EffectiveSettings) (name value : Bytes)
      → name ≡ str "debug"
      → value ≡ str "true"
      → find rules (str "debug") ≡ none
      → Yields
          (λ s'. s'.debug ≡ true)
          (apply_rule stoull s name value >>= λ s'. apply_rules stoull s' rules)
  turned_on rules s name value n v later =
      rw (n, v, debug_rule s)
        (Keeps-from debug_of (record s { debug = true }) (record s { debug = true }) _ refl
          (rules-Keeps rules (record s { debug = true }) later))

  -- A rule that turns debugging on does so, whatever stands around it.
  rules-debug :
      (rules : Map Bytes) (s : EffectiveSettings)
      → IsSorted rules
      → find rules (str "debug") ≡ some (str "true")
      → Yields (λ s'. s'.debug ≡ true) (apply_rules stoull s rules)
  unfolding apply_rules find
  rules-debug [] s h e = absurd (none_ne (str "true") e)
  rules-debug ((name, value) ∷ rules) s h e = elim (Bool-cases (equal name (str "debug"))) [
    | inl same ↦
        let n : name ≡ str "debug" = (equal_iff name (str "debug")).0 same in
        turned_on rules s name value n
          (find-here name value (str "debug") (str "true") rules e same)
          (sym (ap (find rules) n) ∙ find-Above name rules h.0)
    | inr differs ↦
        Yields-bind (λ _. Unit) _ (apply_rule stoull s name value) _
          (Yields-any (apply_rule stoull s name value))
          (λ s' _.
            rules-debug rules s' h.1
              (find-later name value (str "debug") (str "true") rules e differs))
  ]

-- The rules that the command line adds stay in order.
abbrev RulesSorted : ResolvedConfiguration → Type 0
RulesSorted c = IsSorted c.global_rules

file_rule-RulesSorted :
    (c : ResolvedConfiguration) (arg : Bytes)
    → RulesSorted c
    → Yields RulesSorted (add_file_rule c arg)
unfolding add_file_rule
file_rule-RulesSorted c arg h =
    Yields-bind (λ _. Unit) RulesSorted (parse_file_rule arg) _ (Yields-any (parse_file_rule arg))
      λ rule _. h

global_rule-RulesSorted :
    (c : ResolvedConfiguration) (arg : Bytes)
    → RulesSorted c
    → Yields RulesSorted (add_global_rule c arg)
unfolding add_global_rule
global_rule-RulesSorted c arg h =
    Yields-bind (λ _. Unit) RulesSorted (parse_rule_assignment arg) _
      (Yields-any (parse_rule_assignment arg)) λ r _. assign-IsSorted c.global_rules r.0 r.1 h

rule_arg-RulesSorted :
    (c : ResolvedConfiguration) (arg : Bytes)
    → RulesSorted c
    → Yields RulesSorted (add_rule_arg c arg)
unfolding add_rule_arg
rule_arg-RulesSorted c arg h = elim (Bool-cases (has_colons (cut_colons arg))) [
  | inl file ↦ rw file (file_rule-RulesSorted c arg h)
  | inr global ↦ rw global (global_rule-RulesSorted c arg h)
]

rule_args-RulesSorted :
    (args : List Bytes) (c : ResolvedConfiguration)
    → RulesSorted c
    → Yields RulesSorted (add_rule_args c args)
unfolding add_rule_args
rule_args-RulesSorted [] c h = h
rule_args-RulesSorted (arg ∷ args) c h =
    Yields-bind RulesSorted RulesSorted (add_rule_arg c arg) _ (rule_arg-RulesSorted c arg h)
      λ c' k. rule_args-RulesSorted args c' k

found_debug :
    (c : ResolvedConfiguration)
    → find (assign c.global_rules (str "debug") (str "true")) (str "debug") ≡ some (str "true")
found_debug c =
    find-assign c.global_rules (str "debug") (str "true") (str "debug")
    ∙ (rw (equal_refl (str "debug")) refl)

-- The base settings.
resolve-base_debug :
    (stoull : Bytes → Option ℕ) (settings : SettingsData) (rules ignores cli : List Bytes)
    → (c : ResolvedConfiguration) → IsSorted settings.rules
    → resolve stoull settings rules ignores cli true ≡ ok c
    → c.base_settings.debug ≡ true
unfolding resolve
resolve-base_debug stoull settings rules ignores cli c h e =
    let resolved : Yields (λ c'. c'.base_settings.debug ≡ true)
        (resolve stoull settings rules ignores cli true) =
      Yields-bind RulesSorted _ (add_rule_args (from_settings settings ignores) rules) _
        (rule_args-RulesSorted rules (from_settings settings ignores) h)
        (λ added k. with_debug added k) in
    rw e at resolved
  where
    with_debug :
        (added : ResolvedConfiguration)
        → RulesSorted added
        → Yields
            (λ c'. c'.base_settings.debug ≡ true)
            (with_base stoull settings cli (enable_debug true added))
    with_debug added k =
        Yields-bind (λ s. s.debug ≡ true) _
          (apply_rules stoull added.base_settings
            (assign added.global_rules (str "debug") (str "true")))
          _
          (rules-debug stoull (assign added.global_rules (str "debug") (str "true"))
            added.base_settings (assign-IsSorted added.global_rules (str "debug") (str "true") k)
            (found_debug added))
          (λ base on. on)

-- With the debug option of the command line, a configuration that is resolved has debugging turned
-- on in its base settings, whatever rules for all files the settings and the command line have. For
-- a file, the settings that are resolved then have it on unless the last of the rules for that file
-- under the name `debug` turns it off. The rules of the settings are in the order of their names, as
-- in every `std::map`.
pub resolve-debug :
    (stoull : Bytes → Option ℕ) (filename extension : Bytes → Bytes) (settings : SettingsData)
    (rules ignores cli : List Bytes) (c : ResolvedConfiguration) (file : Bytes)
    → IsSorted settings.rules
    → resolve stoull settings rules ignores cli true ≡ ok c
    → (c.base_settings.debug ≡ true)
      × Yields
          (λ s. s.debug ≡ debug_after true (rules_for stoull filename extension c.file_rules file))
          (resolve_for_file stoull filename extension c file)
resolve-debug stoull filename extension settings rules ignores cli c file h e =
    let on = resolve-base_debug stoull settings rules ignores cli c h e in
    let matching = rules_for stoull filename extension c.file_rules file in
    (
      on,
      rw (resolve_for_file-apply_rules stoull filename extension c file) (
          subst
            (λ b.
              Yields (λ s. s.debug ≡ debug_after b matching)
                (apply_rules stoull c.base_settings matching))
            on (apply_rules-debug_after stoull matching c.base_settings)),
    )
