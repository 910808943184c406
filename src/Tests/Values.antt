-- ===== src/Tests/Values.antt =====
-- Texts replaced by the filter `replace`, and members with a greatest length.
use prebyte.Base.{Bool, true, none, [], ◌∷◌, ◌≡◌, refl, str}
use prebyte.Result.{Ensures, default_location, SourceSpan}
use prebyte.Config.Settings.{EffectiveSettings, default_settings}
use prebyte.Text.{to_lower, split, join, starts_with}
use prebyte.Runtime.Data.{Data, field, empty_map}
use prebyte.Runtime.Value.{Value, owned, object}
use prebyte.Runtime.Filters.{replace_all, replace_from, to_upper}
use prebyte.Runtime.Filters.Cased.{IsWithout, to_lower_lem}
use prebyte.Runtime.Filters.Replaced.{replace_all-join, replace_all_self}
use prebyte.Runtime.Resolver.{resolve_member, resolve_index}
use prebyte.Runtime.Resolver.Bounded.{Fits, resolve-Fits}
use prebyte.Tests.Expressions.{digits}

-- `a-b` with `+-` for `-`
replace_all-join_example :
    replace_all (str "a-b") (b'-' ∷ []) (str "+-") ≡ join (split (str "a-b") b'-') (str "+-")
replace_all-join_example = replace_all-join (str "a-b") (str "+-") b'-'

replaced : replace_all (str "a-b") (str "-") (str "+-") ≡ str "a+-b"
unfolding replace_all replace_from str starts_with
replaced = refl

replace_all_self_example : replace_all (str "aaab") (str "aa") (str "aa") ≡ str "aaab"
replace_all_self_example = replace_all_self (str "aaab") (str "aa")

to_lower_lem_example :
    IsWithout b'A' b'Z' (to_lower (str "A1b"))
    × IsWithout b'a' b'z' (to_upper (str "A1b"))
    × (to_lower (to_upper (str "A1b")) ≡ to_lower (str "A1b"))
    × (to_upper (to_lower (str "A1b")) ≡ to_upper (str "A1b"))
to_lower_lem_example = to_lower_lem (str "A1b")

-- Two bytes at most.
abbrev short : EffectiveSettings
short = record default_settings { max_variable_length = 2; has_max_variable_length = true }

abbrev nowhere : SourceSpan
nowhere = record { file_path = []; start = default_location; end = default_location }

abbrev person : Value Bool
person = object (field (str "name") (Data.string (str "Ada")) empty_map)

resolve-Fits_example :
    Ensures (Fits short) (resolve_member digits (λ text. none) short person (str "name") nowhere)
    × Ensures
        (Fits short)
        (resolve_index digits (λ text. none) short person (owned (str "name")) nowhere)
resolve-Fits_example =
    resolve-Fits short refl digits (λ text. none) person (owned (str "name")) (str "name") nowhere
