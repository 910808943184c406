-- ===== src/Command.antt =====
-- cli/CommandParser.cpp and app/Command.h: the arguments of the program. A path is the text that it
-- is made of.
pub mod Rounds
pub mod Consistent
use prebyte.Base.{
  Bool, true, false, not, ◌||◌, Option, none, some, List, [], ◌∷◌, ◌++◌, Bytes, str, equal,
  if◌then◌else◌, drop,
}
use prebyte.Result.{Diagnostic, plain_diagnostic, diagnostic_error, Result, ok, err, ◌>>=◌}
use prebyte.Text.{starts_with}

pub data CommandMode : Type 0 where
  render list_rules list_vars list_profiles list_ignores explain help version : CommandMode

pub record Command : Type 0 where
  pub mode : CommandMode
  pub input_path : Option Bytes
  pub output_path : Option Bytes
  pub inline_input : Option Bytes
  pub render_args : List Bytes
  pub include_paths : List Bytes
  pub define_args : List Bytes
  pub rule_args : List Bytes
  pub ignore_names : List Bytes
  pub profile_names : List Bytes
  pub settings_path : Option Bytes
  pub batch_path : Option Bytes
  pub explain_topic : Option Bytes
  pub batch_from_stdin : Bool
  pub benchmark : Bool
  pub debug : Bool

-- A command before anything is read.
abbrev pub no_command : CommandMode → Command
no_command mode = record {
  mode = mode;
  input_path = none;
  output_path = none;
  inline_input = none;
  render_args = [];
  include_paths = [];
  define_args = [];
  rule_args = [];
  ignore_names = [];
  profile_names = [];
  settings_path = none;
  batch_path = none;
  explain_topic = none;
  batch_from_stdin = false;
  benchmark = false;
  debug = false;
}

abbrev pub make_cli_error : Bytes → Diagnostic
make_cli_error message = plain_diagnostic (str "CLI001") message

abbrev pub fail {ℓ} : {A : Type ℓ} → Bytes → Result A
fail message = err (diagnostic_error (make_cli_error message))

-- `arg == a || arg == b`
abbrev pub either : Bytes → Bytes → Bytes → Bool
either arg a b = equal arg a || equal arg b

unfoldable pub parse_list_mode : Bytes → Option CommandMode
parse_list_mode value =
    if equal value (str "rules")
    then some list_rules
    else if equal value (str "vars")
    then some list_vars
    else if equal value (str "profiles")
    then some list_profiles
    else if either value (str "ignore") (str "ignores")
    then some list_ignores
    else none

abbrev pub is_render : CommandMode → Bool
is_render render = true
is_render _ = false

-- How far a round of the loop has come: it has read its argument, or that and the next one as its
-- value, or it has turned on `collect_render_args`.
pub data Progress : Type 0 where
  next_argument : Command → Progress
  skip_value : Command → Progress
  collect_rest : Command → Progress

-- An option that takes the next argument as its value.
abbrev pub with_value : List Bytes → Bytes → (Bytes → Command) → Result Progress
with_value [] message set = fail message
with_value (value ∷ rest) message set = ok (skip_value (set value))

abbrev pub both_batches : Bytes
both_batches = str "Batch input cannot be specified from both a file and stdin"

abbrev pub batch_file : Bytes → Command → Result Progress
batch_file value c =
    if c.batch_from_stdin
    then fail both_batches
    else ok (skip_value (record c { batch_path = some value }))

abbrev pub batch_stdin : Option Bytes → Command → Result Progress
batch_stdin (some path) c = fail both_batches
batch_stdin none c = ok (next_argument (record c { batch_from_stdin = true }))

-- `-b`: a value that is not an option names a file.
unfoldable pub batch : List Bytes → Command → Result Progress
batch [] c = batch_stdin c.batch_path c
batch (value ∷ rest) c =
    if starts_with value (str "-") then batch_stdin c.batch_path c else batch_file value c

abbrev pub take_input : Option Bytes → Bytes → Command → Command
take_input none arg c = record c { input_path = some arg }
take_input (some path) arg c = record c { render_args = c.render_args ++ arg ∷ [] }

unfoldable pub positional : Bytes → Command → Result Progress
positional arg c =
    if not (is_render c.mode)
    then fail (str "Positional input path is only valid for render mode")
    else ok (next_argument (take_input c.input_path arg c))

unfoldable pub terminator : Command → Result Progress
terminator c =
    if not (is_render c.mode)
    then fail (str "Render argument terminator is only valid for render mode")
    else ok (collect_rest c)

abbrev pub inline_define : Bytes → Command → Result Progress
inline_define arg c =
    if equal arg (str "-D")
    then fail (str "Missing inline define value")
    else ok (next_argument (record c { define_args = c.define_args ++ drop 2 arg ∷ [] }))

-- A round of the loop: an argument, and those behind it.
unfoldable pub parse_argument : Command → Bytes → List Bytes → Result Progress
parse_argument c arg rest =
    if equal arg (str "--")
    then terminator c
    else if either arg (str "-o") (str "--output")
    then with_value rest (str "Missing output path")
        (λ value. record c { output_path = some value })
    else if either arg (str "-I") (str "--include-path")
    then with_value rest (str "Missing include path")
        (λ value. record c { include_paths = c.include_paths ++ value ∷ [] })
    else if either arg (str "-d") (str "--define")
    then with_value rest (str "Missing define value")
        (λ value. record c { define_args = c.define_args ++ value ∷ [] })
    else if starts_with arg (str "-D")
    then inline_define arg c
    else if either arg (str "-r") (str "--rule")
    then with_value rest (str "Missing rule value")
        (λ value. record c { rule_args = c.rule_args ++ value ∷ [] })
    else if either arg (str "-s") (str "--settings")
    then with_value rest (str "Missing settings path")
        (λ value. record c { settings_path = some value })
    else if either arg (str "-i") (str "--ignore")
    then with_value rest (str "Missing ignore value")
        (λ value. record c { ignore_names = c.ignore_names ++ value ∷ [] })
    else if either arg (str "-p") (str "--profile")
    then with_value rest (str "Missing profile value")
        (λ value. record c { profile_names = c.profile_names ++ value ∷ [] })
    else if either arg (str "-b") (str "--batch")
    then batch rest c
    else if equal arg (str "--benchmark")
    then ok (next_argument (record c { benchmark = true }))
    else if either arg (str "-X") (str "--debug")
    then ok (next_argument (record c { debug = true }))
    else if not (starts_with arg (str "-"))
    then positional arg c
    else fail (str "Unknown argument: " ++ arg)

-- The rounds with `collect_render_args`.
unfoldable pub collect : Command → List Bytes → Command
collect c [] = c
collect c (arg ∷ rest) = collect (record c { render_args = c.render_args ++ arg ∷ [] }) rest

-- How the loop goes on: behind the argument, behind its value, or by collecting what is left.
abbrev pub resume :
    (Command → Result Command) → (Command → Result Command) → List Bytes → Progress → Result Command
resume next skipped rest (next_argument c) = next c
resume next skipped rest (skip_value c) = skipped c
resume next skipped rest (collect_rest c) = ok (collect c rest)

unfoldable pub parse_arguments : Command → List Bytes → Result Command
parse_arguments c [] = ok c
parse_arguments c (arg ∷ []) = parse_argument c arg [] >>= resume ok ok []
parse_arguments c (arg ∷ next ∷ rest) =
    parse_argument c arg (next ∷ rest)
    >>= resume (λ c'. parse_arguments c' (next ∷ rest)) (λ c'. parse_arguments c' rest)
        (next ∷ rest)

abbrev pub require_template : Option Bytes → Command → Result Command
require_template none c = fail (str "Batch input from stdin requires a template file argument")
require_template (some path) c = ok c

-- Behind the loop.
unfoldable pub check_batch : Command → Result Command
check_batch c = if c.batch_from_stdin then require_template c.input_path c else ok c

abbrev pub parse_from : CommandMode → List Bytes → Result Command
parse_from mode args = parse_arguments (no_command mode) args >>= check_batch

abbrev pub list_from : Option CommandMode → List Bytes → Result Command
list_from none rest = fail (str "Usage: list rules|vars|profiles|ignore|ignores")
list_from (some mode) rest = parse_from mode rest

unfoldable pub parse_list : List Bytes → Result Command
parse_list [] = fail (str "Usage: list rules|vars|profiles|ignore|ignores")
parse_list (value ∷ rest) = list_from (parse_list_mode value) rest

abbrev pub parse_explain : List Bytes → Result Command
parse_explain [] = fail (str "Missing topic after explain flag")
parse_explain (topic ∷ rest) = ok (record (no_command explain) { explain_topic = some topic })

-- `CommandParser::parse`
unfoldable pub parse : List Bytes → Result Command
parse [] = parse_from render []
parse (arg ∷ rest) =
    if equal arg (str "list")
    then parse_list rest
    else if either arg (str "-h") (str "--help")
    then ok (no_command help)
    else if either arg (str "-v") (str "--version")
    then ok (no_command version)
    else if either arg (str "-e") (str "--explain")
    then parse_explain rest
    else parse_from render (arg ∷ rest)
