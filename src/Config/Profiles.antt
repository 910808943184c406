-- ===== src/Config/Profiles.antt =====
-- config/ProfileMerger.cpp: the settings with the chosen profiles laid over them.
pub mod Latest
pub mod Paths
use prebyte.Base.{Option, none, some, List, [], ◌∷◌, ◌++◌, Bytes, str}
use prebyte.Result.{plain_diagnostic, diagnostic_error, Result, ok, err, ◌>>=◌}
use prebyte.Config.Map.{find, assign_all}
use prebyte.Config.Settings.{ProfileConfig, SettingsData}

-- One profile laid over the settings.
unfoldable pub overlay : SettingsData → ProfileConfig → SettingsData
overlay merged profile = record merged {
  variables = assign_all merged.variables profile.variables;
  include_paths = merged.include_paths ++ profile.include_paths;
  ignore_names = merged.ignore_names ++ profile.ignore_names;
  rules = assign_all merged.rules profile.rules;
  file_rules = merged.file_rules ++ profile.file_rules;
}

abbrev pub overlay_found : Bytes → SettingsData → Option ProfileConfig → Result SettingsData
overlay_found name merged none =
    err (diagnostic_error (plain_diagnostic (str "CFG002") (str "Unknown profile: " ++ name)))
overlay_found name merged (some profile) = ok (overlay merged profile)

-- The loop of `merge`: a profile is looked up in the settings, not in what is merged so far.
unfoldable pub merge_onto : SettingsData → SettingsData → List Bytes → Result SettingsData
merge_onto settings merged [] = ok merged
merge_onto settings merged (name ∷ names) =
    overlay_found name merged (find settings.profiles name) >>= λ next.
    merge_onto settings next names

-- `ProfileMerger::merge`
unfoldable pub merge : SettingsData → List Bytes → Result SettingsData
merge settings profile_names = merge_onto settings settings profile_names
