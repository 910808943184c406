-- ===== src/Runtime/Resolver/Bounded.antt =====
-- runtime/expression/ValueResolver.cpp: the length of the texts that members and elements give.
use prebyte.Base.{
  ℕ, zero, suc, ◌≤◌, ltb, true, Option, none, some, List, [], ◌∷◌, Bytes, length, take, ◌≡◌, refl,
  arith, inl, inr, Bool-cases, if◌then◌else◌,
}
use prebyte.Text.{trim}
use prebyte.Result.{SourceSpan, Result, Ensures, Ensures-bind, Ensures-if, IfSome}
use prebyte.Config.Settings.{EffectiveSettings}
use prebyte.Runtime.Value.{
  Numbers, Value, is_null, is_object, is_list, is_structured, try_as_string_view, to_string, member,
  index,
}
use prebyte.Runtime.Resolver.{
  fail_at, bounded, normalize_string, normalized, normalize_value, default_or_null,
  resolve_missing_path, found_or, resolve_member, all_digits, parsed_index, parse_digits,
  parse_index_value, element_at, keyed, resolve_index,
}

-- A value that is a text has no more bytes than the settings allow.
abbrev pub Fits : {D : Type 0} → EffectiveSettings → Value D → Type 0
Fits settings v = IfSome (λ text. length text ≤ settings.max_variable_length) (try_as_string_view v)

length-take_le : {A : Type 0} (n : ℕ) (xs : List A) → length (take n xs) ≤ n
length-take_le zero xs = omega arith
length-take_le (suc n) [] = omega arith
length-take_le (suc n) (x ∷ xs) = let rest = length-take_le n xs in omega (arith, rest)

module _ (settings : EffectiveSettings) (has_max : settings.has_max_variable_length ≡ true) where
  length-bounded : (value : Bytes) → length (bounded settings value) ≤ settings.max_variable_length
  unfolding bounded
  length-bounded value = elim (Bool-cases (ltb settings.max_variable_length (length value))) [
    | inl longer ↦ rw (has_max, longer) (length-take_le settings.max_variable_length value)
    | inr fits ↦ rw (has_max, fits) (ground (arith, fits))
  ]

  length-normalize_string :
      (value : Bytes) → length (normalize_string settings value) ≤ settings.max_variable_length
  unfolding normalize_string
  length-normalize_string value = length-bounded (if settings.trim then trim value else value)

  module _ {D : Type 0} (numbers : Numbers D) (stoull : Bytes → Option ℕ) where
    normalize_value-Fits : (v : Value D) → Fits settings (normalize_value settings v)
    unfolding normalize_value try_as_string_view
    normalize_value-Fits v = normalized_Fits (try_as_string_view v) refl
      where
        normalized_Fits :
            (o : Option Bytes) → try_as_string_view v ≡ o → Fits settings (normalized settings o v)
        normalized_Fits none e = rw e tt
        normalized_Fits (some text) e = length-normalize_string text

    resolve_missing_path-Fits :
        (path : Bytes) (span : SourceSpan)
        → Ensures (Fits {D = D} settings) (resolve_missing_path settings path span)
    unfolding resolve_missing_path try_as_string_view fail_at
    resolve_missing_path-Fits path span =
        Ensures-if (Fits {D = D} settings) settings.strict_variables _ _ (λ strict. tt)
          λ lenient. default_Fits settings.default_variable_value
      where
        default_Fits : (o : Option Bytes) → Fits {D = D} settings (default_or_null settings o)
        default_Fits none = tt
        default_Fits (some text) = length-normalize_string text

    found_or-Fits :
        (o : Option (Value D)) (other : Result (Value D))
        → Ensures (Fits settings) other
        → Ensures (Fits settings) (found_or numbers stoull settings o other)
    found_or-Fits none other h = h
    found_or-Fits (some v) other h = normalize_value-Fits v

    fail_at-Fits :
        (message : Bytes) (span : SourceSpan)
        → Ensures (Fits {D = D} settings) (fail_at message span)
    unfolding fail_at
    fail_at-Fits message span = tt

    resolve_member-Fits :
        (base : Value D) (name : Bytes) (span : SourceSpan)
        → Ensures (Fits settings) (resolve_member numbers stoull settings base name span)
    unfolding resolve_member
    resolve_member-Fits base name span =
        Ensures-if (Fits settings) (is_null base) _ _ (λ empty. resolve_missing_path-Fits name span)
          λ full. found_or-Fits (member numbers base name) _ (
            Ensures-if (Fits settings) (is_object base) _ _
              (λ yes. resolve_missing_path-Fits name span) λ no. fail_at-Fits _ span)

    parse_index_value_Ensures :
        (at : Value D)
        → Ensures (λ (o : Option ℕ). Unit) (parse_index_value numbers stoull settings at)
    unfolding parse_index_value parse_digits
    parse_index_value_Ensures at = digits_Ensures (to_string numbers at)
      where
        parsed_Ensures :
            (o : Option ℕ)
            → Ensures (λ (o : Option ℕ). Unit) (parsed_index numbers stoull settings o)
        parsed_Ensures none = tt
        parsed_Ensures (some i) = tt

        digits_Ensures :
            (text : Bytes)
            → Ensures (λ (o : Option ℕ). Unit) (parse_digits numbers stoull settings text)
        digits_Ensures [] = tt
        digits_Ensures (c ∷ cs) =
            Ensures-if (λ (o : Option ℕ). Unit) (all_digits (c ∷ cs)) _ _
              (λ yes. parsed_Ensures (stoull (c ∷ cs))) λ no. tt

    element_at-Fits :
        (base : Value D) (span : SourceSpan) (o : Option ℕ)
        → Ensures (Fits settings) (element_at numbers stoull settings base span o)
    element_at-Fits base span none = fail_at-Fits _ span
    element_at-Fits base span (some i) =
        found_or-Fits (index numbers base i) _ (resolve_missing_path-Fits _ span)

    keyed-Fits :
        (base at : Value D) (span : SourceSpan)
        → Ensures (Fits settings) (keyed numbers stoull settings base at span)
    unfolding keyed
    keyed-Fits base at span =
        Ensures-if (Fits settings) (is_structured at) _ _ (λ yes. fail_at-Fits _ span)
          λ no.
            found_or-Fits (member numbers base (to_string numbers at)) _
              (resolve_missing_path-Fits _ span)

    resolve_index-Fits :
        (base at : Value D) (span : SourceSpan)
        → Ensures (Fits settings) (resolve_index numbers stoull settings base at span)
    unfolding resolve_index
    resolve_index-Fits base at span =
        Ensures-if (Fits settings) (is_null base) _ _ (λ empty. resolve_missing_path-Fits _ span)
          λ full.
            Ensures-if (Fits settings) (is_list base) _ _
              (λ yes.
                Ensures-bind (λ (o : Option ℕ). Unit) (Fits settings)
                  (parse_index_value numbers stoull settings at) _ (parse_index_value_Ensures at)
                  λ o any. element_at-Fits base span o)
              λ no.
                Ensures-if (Fits settings) (is_object base) _ _ (λ yes. keyed-Fits base at span)
                  λ other. fail_at-Fits _ span

    -- If the settings have a greatest length of variables, what `resolve_member` and
    -- `resolve_index` give, when it is a text, has at most that many bytes: a member, an element,
    -- a value by key, and the default of what is missing. Neither runs out of fuel.
    pub resolve-Fits :
        (base at : Value D) (name : Bytes) (span : SourceSpan)
        → Ensures (Fits settings) (resolve_member numbers stoull settings base name span)
          × Ensures (Fits settings) (resolve_index numbers stoull settings base at span)
    resolve-Fits base at name span =
        (resolve_member-Fits base name span, resolve_index-Fits base at span)
