-- ===== src/Runtime/Filters.antt =====
-- runtime/expression/FilterRegistry.cpp: the filters. The position of an error is not known to them.
pub mod Replaced
pub mod Cased
use prebyte.Base.{ℕ, zero, suc, ◌-◌, List, [], ◌∷◌, ◌++◌, Bytes, str, equal, length, if◌then◌else◌}
use prebyte.Text.{trim, to_lower, starts_with, within}
use prebyte.Result.{plain_diagnostic, diagnostic_error, Result, ok, err, ◌>>=◌}
use prebyte.Runtime.Value.{Numbers, Value, owned, is_structured, is_null, to_string}

-- `make_runtime_error`, thrown
unfoldable pub fail {ℓ} : {A : Type ℓ} → Bytes → Result A
fail message = err (diagnostic_error (plain_diagnostic (str "RUNTIME001") message))

-- The body of the loop of `upper`.
unfoldable pub upper_byte : ℕ → ℕ
upper_byte c = if within 97 122 c then c - 32 else c

unfoldable pub to_upper : Bytes → Bytes
to_upper [] = []
to_upper (c ∷ cs) = upper_byte c ∷ to_upper cs

-- `while ((pos = value.find(from, pos)) != npos) { … }`: what stands before `pos` is behind, and
-- `skipped` bytes of the match are still to be left out.
unfoldable pub replace_from : Bytes → Bytes → ℕ → Bytes → Bytes
replace_from from to skipped [] = []
replace_from from to (suc skipped) (c ∷ cs) = replace_from from to skipped cs
replace_from from to zero (c ∷ cs) =
    let matched = to ++ replace_from from to (length from - 1) cs in
    let kept = c ∷ replace_from from to 0 cs in if starts_with (c ∷ cs) from then matched else kept

-- `if (from.empty()) { … }`
unfoldable pub replace_all : Bytes → Bytes → Bytes → Bytes
replace_all value [] to = value
replace_all value (b ∷ from) to = replace_from (b ∷ from) to 0 value

module _ {D : Type 0} (numbers : Numbers D) where
  unfoldable pub scalar_string : Bytes → Value D → Result Bytes
  scalar_string name v =
      if is_structured v
      then fail (str "Filter '" ++ (name ++ str "' requires scalar input"))
      else ok (to_string numbers v)

  abbrev pub wrong_arity : Bytes → Result (Value D)
  wrong_arity name = fail (str "Wrong filter arity for " ++ name)

  unfoldable pub apply_trim : List (Value D) → Result (Value D)
  apply_trim (v ∷ []) = do text ← scalar_string (str "trim") v; ok (owned (trim text))
  apply_trim _ = wrong_arity (str "trim")

  unfoldable pub apply_upper : List (Value D) → Result (Value D)
  apply_upper (v ∷ []) = do text ← scalar_string (str "upper") v; ok (owned (to_upper text))
  apply_upper _ = wrong_arity (str "upper")

  unfoldable pub apply_lower : List (Value D) → Result (Value D)
  apply_lower (v ∷ []) = do text ← scalar_string (str "lower") v; ok (owned (to_lower text))
  apply_lower _ = wrong_arity (str "lower")

  unfoldable pub apply_default : List (Value D) → Result (Value D)
  apply_default (v ∷ w ∷ []) = ok (if is_null v then w else v)
  apply_default _ = wrong_arity (str "default")

  unfoldable pub apply_replace : List (Value D) → Result (Value D)
  apply_replace (v ∷ f ∷ t ∷ []) = do
    value ← scalar_string (str "replace") v
    from ← scalar_string (str "replace") f
    to ← scalar_string (str "replace") t
    ok (owned (replace_all value from to))
  apply_replace _ = wrong_arity (str "replace")

  -- `FilterRegistry::apply`
  unfoldable pub apply : Bytes → List (Value D) → Result (Value D)
  apply name arguments =
      if equal name (str "trim")
      then apply_trim arguments
      else if equal name (str "upper")
      then apply_upper arguments
      else if equal name (str "lower")
      then apply_lower arguments
      else if equal name (str "default")
      then apply_default arguments
      else if equal name (str "replace")
      then apply_replace arguments
      else fail (str "Unknown filter: " ++ name)
