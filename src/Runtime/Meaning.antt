-- ===== src/Runtime/Meaning.antt =====
-- What an expression means, without instructions or a stack: its parts from the left to the right,
-- and of `&&` and `||` the right part only where it counts.
use prebyte.Base.{
  ℕ, Bool, true, false, not, ◌++◌, Option, none, some, List, [], ◌∷◌, Bytes, str, equal,
  if◌then◌else◌,
}
use prebyte.Result.{SourceSpan, Result, ok, err, out_of_range, ◌>>=◌}
use prebyte.Template.Expression.{
  Expression, Expressions, identifier_expr, string_expr, number_expr, bool_expr, unary_expr,
  binary_expr, grouped_expr, member_access_expr, index_access_expr, len_call_expr, lua_call_expr,
  filter_call_expr, function_call_expr, no_expressions, more_expressions,
}
use prebyte.Compiled.Compiler.Expressions.{DoubleOps, line_of, column_of}
use prebyte.Compiled.Compiler.Described.{
  one_of, builtin_variables, spelled, names_args, whole_number,
}
use prebyte.Runtime.Value.{
  Value, bool, number, view, to_bool, Ordering, less_than, greater, compare_scalar, length_of,
}
use prebyte.Runtime.Filters.{apply}
use prebyte.Runtime.Resolver.{resolve_member, resolve_index}
use prebyte.Runtime.Machine.{
  Services, make_span, fail_at, scalar_operand, equality, containment, call,
}

-- The orderings of which a comparison holds.
abbrev pub is_before : Ordering → Bool
is_before less_than = true
is_before _ = false

abbrev pub is_behind : Ordering → Bool
is_behind greater = true
is_behind _ = false

module _ {D S : Type 0} (double : DoubleOps D) (services : Services D S) where
  abbrev pub Action : Type 0 → Type 0
  Action A = S → Result (A × S)

  -- A value and then what is done with it, from the left to the right.
  abbrev pub bind : {A B : Type 0} → Action A → (A → Action B) → Action B
  bind m f session = m session >>= λ (a, after). f a after

  abbrev pub lift : {A : Type 0} → Result A → Action A
  lift r session = r >>= λ a. ok (a, session)

  abbrev pub place : ℕ → ℕ → SourceSpan
  place line column = make_span services.current_file line column

  unfoldable pub name_value : Bytes → SourceSpan → Action (Value D)
  name_value name span =
      services.load_name (one_of name builtin_variables) name
        (place (line_of span) (column_of span))

  -- The second part counts if the first one is as the flag says.
  unfoldable pub short_circuit : Bool → Action (Value D) → Action (Value D) → Action (Value D)
  short_circuit true left right = bind left λ v.
      if to_bool services.numbers v
      then bind right (λ w. lift (ok (bool (to_bool services.numbers w))))
      else lift (ok (bool false))
  short_circuit false left right = bind left λ v.
      if to_bool services.numbers v
      then lift (ok (bool true))
      else bind right (λ w. lift (ok (bool (to_bool services.numbers w))))

  unfoldable pub logical_value : Bytes → Action (Value D) → Action (Value D) → Action (Value D)
  logical_value op left right =
      if equal op (str "&&")
      then short_circuit true left right
      else if equal op (str "||")
      then short_circuit false left right
      else lift (err out_of_range)

  -- Two values compared, at a line and a column.
  abbrev pub Comparison : Type 0
  Comparison = Value D → Value D → ℕ → ℕ → Result (Value D)

  abbrev pub tested : (Ordering → Bool) → Option Ordering → ℕ → ℕ → Result (Value D)
  tested holds none line column =
      fail_at services (str "Comparison requires scalar operands") line column
  tested holds (some o) line column = ok (bool (holds o))

  -- Two scalars that have an ordering.
  unfoldable pub ordering : Bytes → (Ordering → Bool) → Comparison
  ordering op holds v w line column = scalar_operand services op v line column (
      scalar_operand services op w line column
        (tested holds (compare_scalar services.numbers v w) line column))

  -- What a comparison does, by its operator.
  unfoldable pub comparison : Bytes → Option Comparison
  comparison op =
      if equal op (str "==")
      then some (equality services true)
      else if equal op (str "!=")
      then some (equality services false)
      else if equal op (str "<")
      then some (ordering op is_before)
      else if equal op (str ">")
      then some (ordering op is_behind)
      else if equal op (str "<=")
      then some (ordering op λ o. not (is_behind o))
      else if equal op (str ">=")
      then some (ordering op λ o. not (is_before o))
      else if equal op (str "in")
      then some (containment services)
      else none

  abbrev pub compared :
      Option Comparison
      → Action (Value D)
      → Action (Value D)
      → SourceSpan
      → Action (Value D)
      → Action (Value D)
  compared none left right span other = other
  compared (some compare) left right span other =
      bind left λ v. bind right λ w. lift (compare v w (line_of span) (column_of span))

  abbrev pub member_value : Option Bytes → Action (Value D) → Bytes → SourceSpan → Action (Value D)
  member_value (some path) base member span = name_value path span
  member_value none base member span = bind base λ v. lift (
      resolve_member services.numbers services.stoull services.settings v member
        (place (line_of span) (column_of span)))

  abbrev pub index_value :
      Bool → Option ℕ → Action (Value D) → Action (Value D) → SourceSpan → Action (Value D)
  index_value true (some index) base at span = services.load_arg index (place (line_of span) 1)
  index_value true none base at span = lift (err out_of_range)
  index_value false constant base at span = bind base λ v. bind at λ w. lift (
      resolve_index services.numbers services.stoull services.settings v w
        (place (line_of span) (column_of span)))

  unfoldable mutual
    pub value_of : Expression D → Action (Value D)
    value_of (identifier_expr name span) = name_value name span
    value_of (string_expr value span) = lift (ok (view value))
    value_of (number_expr value lexeme span) = lift (ok (number value))
    value_of (bool_expr value span) = lift (ok (bool value))
    value_of (unary_expr op operand span) =
        bind (value_of operand) λ v. lift (ok (bool (not (to_bool services.numbers v))))
    value_of (binary_expr left op right span) =
        compared (comparison op) (value_of left) (value_of right) span
          (logical_value op (value_of left) (value_of right))
    value_of (grouped_expr expression span) = value_of expression
    value_of (member_access_expr base member span) =
        member_value (spelled base (str "." ++ member)) (value_of base) member span
    value_of (index_access_expr base index span) =
        index_value (names_args base) (whole_number double index) (value_of base) (value_of index)
          span
    value_of (len_call_expr operand span) =
        bind (value_of operand) λ v. lift (ok (number (services.of_size (length_of v))))
    value_of (lua_call_expr source span) =
        services.eval_lua source (place (line_of span) (column_of span))
    value_of (filter_call_expr input name arguments span) =
        bind (value_of input)
          λ v. bind (values_of arguments) λ vs. lift (apply services.numbers name (v ∷ vs))
    value_of (function_call_expr name arguments span) =
        bind (values_of arguments) λ vs. call services name vs (line_of span)

    pub values_of : Expressions D → Action (List (Value D))
    values_of no_expressions = lift (ok [])
    values_of (more_expressions e es) =
        bind (value_of e) λ v. bind (values_of es) λ vs. lift (ok (v ∷ vs))
