-- ===== src/Config/Profiles/Latest.antt =====
-- The variables in `merge` of config/ProfileMerger.cpp.
use prebyte.Base.{Option, none, some, List, [], ◌∷◌, ◌≡◌, refl, ◌∙◌, Bytes}
use prebyte.Result.{ok, ◌>>=◌, Yields, Yields-map}
use prebyte.Config.Map.{Map, find}
use prebyte.Config.Map.Lookup.{IsDistinct, or_find, find-assign_all}
use prebyte.Config.Settings.{ProfileConfig, SettingsData}
use prebyte.Config.Profiles.{overlay, overlay_found, merge_onto, merge}

abbrev pub profile_value : Option ProfileConfig → Bytes → Option Bytes
profile_value none variable = none
profile_value (some profile) variable = find profile.variables variable

-- The value in the last of the named profiles that has the variable.
abbrev pub latest : Map ProfileConfig → List Bytes → Bytes → Option Bytes
latest profiles [] variable = none
latest profiles (name ∷ names) variable =
    or_find (latest profiles names variable) (profile_value (find profiles name) variable)

or_find_assoc : (a b c : Option Bytes) → or_find a (or_find b c) ≡ or_find (or_find a b) c
or_find_assoc none b c = refl
or_find_assoc (some a) b c = refl

module _ (settings : SettingsData) (variable : Bytes)
    (distinct : (name : Bytes) (p : ProfileConfig)
      → find settings.profiles name ≡ some p
      → IsDistinct p.variables) where
  -- What the loop yields, from what is merged so far.
  IsLatest : List Bytes → SettingsData → SettingsData → Type 0
  IsLatest names merged out =
      find out.variables variable
      ≡ or_find (latest settings.profiles names variable) (find merged.variables variable)

  step-IsLatest :
      (name : Bytes) (names : List Bytes) (merged : SettingsData) (o : Option ProfileConfig)
      → find settings.profiles name ≡ o
      → ((next : SettingsData) → Yields (IsLatest names next) (merge_onto settings next names))
      → Yields
          (λ out.
            find out.variables variable
            ≡ or_find
                (or_find (latest settings.profiles names variable) (profile_value o variable))
                (find merged.variables variable))
          (overlay_found name merged o >>= λ next. merge_onto settings next names)
  unfolding IsLatest overlay
  step-IsLatest name names merged none e rest = tt
  step-IsLatest name names merged (some p) e rest =
      let laid = find-assign_all p.variables merged.variables variable (distinct name p e) in
      Yields-map (IsLatest names (overlay merged p)) _
        (merge_onto settings (overlay merged p) names)
        (λ out k.
          k
          ∙ (rw laid (
              or_find_assoc (latest settings.profiles names variable) (find p.variables variable)
                (find merged.variables variable))))
        (rest (overlay merged p))

  onto-IsLatest :
      (names : List Bytes) (merged : SettingsData)
      → Yields (IsLatest names merged) (merge_onto settings merged names)
  unfolding merge_onto IsLatest
  onto-IsLatest [] merged = refl
  onto-IsLatest (name ∷ names) merged =
      step-IsLatest name names merged (find settings.profiles name) refl (onto-IsLatest names)

-- A variable of the merged settings has the value of the last of the named profiles that sets it,
-- and that of the settings if none does, where no profile has a variable twice.
pub merge-latest :
    (settings merged : SettingsData) (names : List Bytes) (variable : Bytes)
    → ((name : Bytes) (p : ProfileConfig)
        → find settings.profiles name ≡ some p
        → IsDistinct p.variables)
    → merge settings names ≡ ok merged
    → find merged.variables variable
      ≡ or_find (latest settings.profiles names variable) (find settings.variables variable)
unfolding merge IsLatest
merge-latest settings merged names variable distinct e =
    rw e at (onto-IsLatest settings variable distinct names settings)
