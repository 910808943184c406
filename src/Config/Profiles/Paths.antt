-- ===== src/Config/Profiles/Paths.antt =====
-- The include paths in `merge` of config/ProfileMerger.cpp.
use prebyte.Base.{
  Option, none, some, List, [], ◌∷◌, ◌++◌, ◌≡◌, sym, ◌∙◌, Bytes, append-nil, append_assoc,
}
use prebyte.Result.{ok, ◌>>=◌, Yields, Yields-map}
use prebyte.Config.Map.{Map, find}
use prebyte.Config.Settings.{ProfileConfig, SettingsData}
use prebyte.Config.Profiles.{overlay, overlay_found, merge_onto, merge}

abbrev pub profile_paths : Option ProfileConfig → List Bytes
profile_paths none = []
profile_paths (some profile) = profile.include_paths

-- The paths of the named profiles, one profile after the other.
abbrev pub paths_of : Map ProfileConfig → List Bytes → List Bytes
paths_of profiles [] = []
paths_of profiles (name ∷ names) = profile_paths (find profiles name) ++ paths_of profiles names

module _ (settings : SettingsData) where
  abbrev Extends : List Bytes → List Bytes → SettingsData → Type 0
  Extends paths more out = out.include_paths ≡ paths ++ more

  step-Extends :
      (name : Bytes) (names : List Bytes) (merged : SettingsData) (o : Option ProfileConfig)
      → ((next : SettingsData)
          → Yields
              (Extends next.include_paths (paths_of settings.profiles names))
              (merge_onto settings next names))
      → Yields
          (Extends merged.include_paths (profile_paths o ++ paths_of settings.profiles names))
          (overlay_found name merged o >>= λ next. merge_onto settings next names)
  unfolding overlay
  step-Extends name names merged none rest = tt
  step-Extends name names merged (some p) rest =
      Yields-map
        (Extends (merged.include_paths ++ p.include_paths) (paths_of settings.profiles names)) _
        (merge_onto settings (overlay merged p) names)
        (λ out k.
          k ∙ append_assoc merged.include_paths p.include_paths (paths_of settings.profiles names))
        (rest (overlay merged p))

  onto-Extends :
      (names : List Bytes) (merged : SettingsData)
      → Yields
          (Extends merged.include_paths (paths_of settings.profiles names))
          (merge_onto settings merged names)
  unfolding merge_onto
  onto-Extends [] merged = sym (append-nil merged.include_paths)
  onto-Extends (name ∷ names) merged =
      step-Extends name names merged (find settings.profiles name) (onto-Extends names)

-- The merged settings look for included files in the paths of the settings first, and then in those
-- of the named profiles, in the order in which these are named.
pub merge-include_paths :
    (settings merged : SettingsData) (names : List Bytes)
    → merge settings names ≡ ok merged
    → merged.include_paths ≡ settings.include_paths ++ paths_of settings.profiles names
unfolding merge
merge-include_paths settings merged names e = rw e at (onto-Extends settings names settings)
