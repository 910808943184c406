-- ===== src/Runtime/Resolver.antt =====
-- runtime/expression/ValueResolver.cpp: members and elements of a value.
pub mod Bounded
use prebyte.Base.{
  ℕ, Bool, true, ◌&&◌, Option, none, some, [], ◌∷◌, ◌++◌, Bytes, str, ltb, length, take,
  if◌then◌else◌,
}
use prebyte.Text.{trim, is_digit}
use prebyte.Result
use prebyte.Result.{SourceSpan, plain_diagnostic, diagnostic_error, Result, ok, err, out_of_range}
use prebyte.Config.Settings.{EffectiveSettings}
use prebyte.Runtime.Value.{
  Numbers, Value, null, owned, is_null, is_object, is_list, is_structured, try_as_string_view,
  to_string, member, index,
}

-- `make_runtime_error`, thrown
unfoldable pub fail_at {ℓ} : {A : Type ℓ} → Bytes → SourceSpan → Result A
fail_at message span =
    err (diagnostic_error (record (plain_diagnostic (str "RUNTIME001") message) { span = span }))

-- `value.resize(max)`, where the value is longer
unfoldable pub bounded : EffectiveSettings → Bytes → Bytes
bounded settings value =
    if settings.has_max_variable_length && ltb settings.max_variable_length (length value)
    then take settings.max_variable_length value
    else value

-- `normalize_string`
unfoldable pub normalize_string : EffectiveSettings → Bytes → Bytes
normalize_string settings value = bounded settings (if settings.trim then trim value else value)

unfoldable pub all_digits : Bytes → Bool
all_digits [] = true
all_digits (c ∷ cs) = is_digit c && all_digits cs

module _ {D : Type 0} where
  abbrev pub normalized : EffectiveSettings → Option Bytes → Value D → Value D
  normalized settings none v = v
  normalized settings (some text) v = owned (normalize_string settings text)

  -- `normalize_value`
  unfoldable pub normalize_value : EffectiveSettings → Value D → Value D
  normalize_value settings v = normalized settings (try_as_string_view v) v

  abbrev pub default_or_null : EffectiveSettings → Option Bytes → Value D
  default_or_null settings none = null
  default_or_null settings (some text) = owned (normalize_string settings text)

  -- `resolve_missing_path`
  unfoldable pub resolve_missing_path : EffectiveSettings → Bytes → SourceSpan → Result (Value D)
  resolve_missing_path settings path span =
      if settings.strict_variables
      then fail_at (str "Unknown variable: " ++ path) span
      else ok (default_or_null settings settings.default_variable_value)

module _ {D : Type 0} (numbers : Numbers D) (stoull : Bytes → Option ℕ)
    (settings : EffectiveSettings) where
  abbrev pub found_or : Option (Value D) → Result (Value D) → Result (Value D)
  found_or none other = other
  found_or (some v) other = ok (normalize_value settings v)

  -- `resolve_member`
  unfoldable pub resolve_member : Value D → Bytes → SourceSpan → Result (Value D)
  resolve_member base name span =
      if is_null base
      then resolve_missing_path settings name span
      else found_or (member numbers base name) (
          if is_object base
          then resolve_missing_path settings name span
          else fail_at (str "Cannot access member '" ++ (name ++ str "' on non-object value")) span)

  abbrev pub parsed_index : Option ℕ → Result (Option ℕ)
  parsed_index none = err out_of_range
  parsed_index (some i) = ok (some i)

  -- `parse_index_value`; `std::stoull` throws for a text that is out of its range
  unfoldable pub parse_digits : Bytes → Result (Option ℕ)
  parse_digits [] = ok none
  parse_digits (c ∷ cs) = if all_digits (c ∷ cs) then parsed_index (stoull (c ∷ cs)) else ok none

  unfoldable pub parse_index_value : Value D → Result (Option ℕ)
  parse_index_value at = parse_digits (to_string numbers at)

  abbrev pub element_at : Value D → SourceSpan → Option ℕ → Result (Value D)
  element_at base span none = fail_at (str "List index must be non-negative integer") span
  element_at base span (some i) =
      found_or (index numbers base i) (resolve_missing_path settings (str "[index]") span)

  unfoldable pub keyed : Value D → Value D → SourceSpan → Result (Value D)
  keyed base at span =
      if is_structured at
      then fail_at (str "Object key must be scalar value") span
      else found_or (member numbers base (to_string numbers at))
          (resolve_missing_path settings (to_string numbers at) span)

  -- `resolve_index`
  unfoldable pub resolve_index : Value D → Value D → SourceSpan → Result (Value D)
  resolve_index base at span =
      if is_null base
      then resolve_missing_path settings (str "[index]") span
      else if is_list base
      then Result.◌>>=◌ (parse_index_value at) (element_at base span)
      else if is_object base
      then keyed base at span
      else fail_at (str "Cannot index non-container value") span
