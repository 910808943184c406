-- ===== src/Compiled/Compiler/Described.antt =====
-- What the language says of the parts of an expression, apart from how the compiler finds them: the
-- operators, the names of built-in variables, dotted paths and constant indices.
use prebyte.Base.{
  Bool, true, false, not, ◌&&◌, ◌||◌, Option, none, some, List, [], ◌∷◌, ◌++◌, ◌≡◌, refl, sym, ap,
  ◌∙◌, Bytes, str, equal, append_assoc, if◌then◌else◌, ℕ,
}
use prebyte.Template.Expression.{
  Expression, identifier_expr, string_expr, number_expr, bool_expr, unary_expr, binary_expr,
  grouped_expr, member_access_expr, index_access_expr, len_call_expr, lua_call_expr,
  filter_call_expr, function_call_expr,
}
use prebyte.Compiled.Compiler.Expressions.{
  DoubleOps, is_builtin_name, comparison_opcode, append_member, flatten_identifier_path, is_args,
  constant_index, constant_arg_index,
}

abbrev pub one_of : Bytes → List Bytes → Bool
one_of name [] = false
one_of name (other ∷ others) = equal name other || one_of name others

abbrev pub binary_operators : List Bytes
binary_operators =
    str "=="
    ∷ str "!="
    ∷ str "<"
    ∷ str ">"
    ∷ str "<="
    ∷ str ">="
    ∷ str "in"
    ∷ str "&&"
    ∷ str "||"
    ∷ []

abbrev pub builtin_variables : List Bytes
builtin_variables =
    str "__TIME__"
    ∷ str "__LINE__"
    ∷ str "__FILE__"
    ∷ str "__FILENAME__"
    ∷ str "__DIR__"
    ∷ str "__EXTENSION__"
    ∷ str "__DATE__"
    ∷ str "__TIMESTAMP__"
    ∷ str "__YEAR__"
    ∷ str "__MONTH__"
    ∷ str "__DAY__"
    ∷ str "__UNIX_EPOCH__"
    ∷ str "__USER__"
    ∷ str "__HOST__"
    ∷ str "__OS__"
    ∷ str "__WORKING_DIR__"
    ∷ str "__UUID__"
    ∷ str "__RANDOM__"
    ∷ []

abbrev pub is_some {ℓ} : {A : Type ℓ} → Option A → Bool
is_some none = false
is_some (some a) = true

or_false : (b : Bool) → (b || false) ≡ b
or_false true = refl
or_false false = refl

or_assoc : (a b c : Bool) → ((a || b) || c) ≡ (a || (b || c))
or_assoc true b c = refl
or_assoc false b c = refl

pub is_builtin_name-one_of : (name : Bytes) → is_builtin_name name ≡ one_of name builtin_variables
unfolding is_builtin_name
is_builtin_name-one_of name = simp (or_assoc, or_false)

if-is_some :
    {A : Type 0} (b : Bool) (a : A) (o : Option A) (rest all : Bool)
    → (is_some o || rest) ≡ all
    → (is_some (if b then some a else o) || rest) ≡ (b || all)
if-is_some true a o rest all h = refl
if-is_some false a o rest all h = h

-- The comparisons and the two logical operators are all there are.
pub operators_lem :
    (op : Bytes)
    → (is_some (comparison_opcode op) || (equal op (str "&&") || equal op (str "||")))
      ≡ one_of op binary_operators
unfolding comparison_opcode
operators_lem op = if-is_some (equal op (str "==")) _ _ _ _ (
    if-is_some (equal op (str "!=")) _ _ _ _ (
      if-is_some (equal op (str "<")) _ _ _ _ (
        if-is_some (equal op (str ">")) _ _ _ _ (
          if-is_some (equal op (str "<=")) _ _ _ _ (
            if-is_some (equal op (str ">=")) _ _ _ _ (
              if-is_some (equal op (str "in")) _ _ _ _
                (ap (λ b. equal op (str "&&") || b) (sym (or_false (equal op (str "||")))))))))))

-- A path, with what is behind it.
abbrev before : Option Bytes → Bytes → Option Bytes
before none rest = none
before (some path) rest = some (path ++ rest)

append_member-before :
    (o : Option Bytes) (member rest : Bytes)
    → before (append_member o member) rest ≡ before o (str "." ++ (member ++ rest))
append_member-before none member rest = refl
append_member-before (some path) member rest = ap some (
    append_assoc path (str "." ++ member) rest
    ∙ ap (λ x. path ++ x) (append_assoc (str ".") member rest))

append_member-nil :
    (o : Option Bytes) (member : Bytes) → append_member o member ≡ before o (str "." ++ member)
append_member-nil none member = refl
append_member-nil (some path) member = refl

module _ {D : Type 0} where
  -- The name that an expression of names and dots spells, with what is behind it.
  unfoldable pub spelled : Expression D → Bytes → Option Bytes
  spelled (identifier_expr name span) rest = some (name ++ rest)
  spelled (member_access_expr base member span) rest = spelled base (str "." ++ (member ++ rest))
  spelled _ rest = none

  -- The name `ARGS`, with no dots.
  unfoldable pub names_args : Expression D → Bool
  names_args (identifier_expr name span) = one_of name (str "ARGS" ∷ [])
  names_args _ = false

  pub is_args-names_args : (e : Expression D) → is_args e ≡ names_args e
  unfolding is_args names_args
  is_args-names_args (identifier_expr name span) = sym (or_false (equal name (str "ARGS")))
  is_args-names_args (string_expr value span) = refl
  is_args-names_args (number_expr value lexeme span) = refl
  is_args-names_args (bool_expr value span) = refl
  is_args-names_args (unary_expr op operand span) = refl
  is_args-names_args (binary_expr left op right span) = refl
  is_args-names_args (grouped_expr expression span) = refl
  is_args-names_args (member_access_expr base member span) = refl
  is_args-names_args (index_access_expr base index span) = refl
  is_args-names_args (len_call_expr operand span) = refl
  is_args-names_args (lua_call_expr source span) = refl
  is_args-names_args (filter_call_expr input name arguments span) = refl
  is_args-names_args (function_call_expr name arguments span) = refl

  flatten-spelled :
      (e : Expression D) (rest : Bytes) → before (flatten_identifier_path e) rest ≡ spelled e rest
  unfolding flatten_identifier_path spelled
  flatten-spelled (identifier_expr name span) rest = refl
  flatten-spelled (member_access_expr base member span) rest =
      append_member-before (flatten_identifier_path base) member rest
      ∙ flatten-spelled base (str "." ++ (member ++ rest))
  flatten-spelled (string_expr value span) rest = refl
  flatten-spelled (number_expr value lexeme span) rest = refl
  flatten-spelled (bool_expr value span) rest = refl
  flatten-spelled (unary_expr op operand span) rest = refl
  flatten-spelled (binary_expr left op right span) rest = refl
  flatten-spelled (grouped_expr expression span) rest = refl
  flatten-spelled (index_access_expr base index span) rest = refl
  flatten-spelled (len_call_expr operand span) rest = refl
  flatten-spelled (lua_call_expr source span) rest = refl
  flatten-spelled (filter_call_expr input name arguments span) rest = refl
  flatten-spelled (function_call_expr name arguments span) rest = refl

  pub append_member-spelled :
      (e : Expression D) (member : Bytes)
      → append_member (flatten_identifier_path e) member ≡ spelled e (str "." ++ member)
  append_member-spelled e member =
      append_member-nil (flatten_identifier_path e) member ∙ flatten-spelled e (str "." ++ member)

-- The constant index of `ARGS`.
abbrev pub args_index : Bool → Option ℕ → Option ℕ
args_index true o = o
args_index false o = none

guards :
    (n w : Bool) (k : ℕ)
    → (if n || not w then none else some k) ≡ (if w && not n then some k else none)
guards true true k = refl
guards true false k = refl
guards false true k = refl
guards false false k = refl

if-args_index : (b : Bool) (o : Option ℕ) → (if b then o else none) ≡ args_index b o
if-args_index true o = refl
if-args_index false o = refl

module _ {D : Type 0} (double : DoubleOps D) where
  abbrev pub whole_at_least_zero : D → Bool
  whole_at_least_zero d = double.is_whole d && not (double.is_negative d)

  -- A numeral that is a whole number, and not below zero.
  unfoldable pub whole_number : Expression D → Option ℕ
  whole_number (number_expr value lexeme span) =
      if whole_at_least_zero value then some (double.to_word value) else none
  whole_number _ = none

  constant_index-whole_number : (e : Expression D) → constant_index double e ≡ whole_number e
  unfolding constant_index whole_number
  constant_index-whole_number (number_expr value lexeme span) =
      guards (double.is_negative value) (double.is_whole value) (double.to_word value)
  constant_index-whole_number (identifier_expr name span) = refl
  constant_index-whole_number (string_expr value span) = refl
  constant_index-whole_number (bool_expr value span) = refl
  constant_index-whole_number (unary_expr op operand span) = refl
  constant_index-whole_number (binary_expr left op right span) = refl
  constant_index-whole_number (grouped_expr expression span) = refl
  constant_index-whole_number (member_access_expr base member span) = refl
  constant_index-whole_number (index_access_expr base index span) = refl
  constant_index-whole_number (len_call_expr operand span) = refl
  constant_index-whole_number (lua_call_expr source span) = refl
  constant_index-whole_number (filter_call_expr input name arguments span) = refl
  constant_index-whole_number (function_call_expr name arguments span) = refl

  pub constant_arg_index_lem :
      (base index : Expression D)
      → constant_arg_index double base index ≡ args_index (names_args base) (whole_number index)
  unfolding constant_arg_index
  constant_arg_index_lem base index =
      if-args_index (is_args base) (constant_index double index)
      ∙ (rw (is_args-names_args base, constant_index-whole_number index) refl)
