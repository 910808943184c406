-- ===== src/Command/Consistent.antt =====
-- The commands of `CommandParser::parse`: cli/CommandParser.cpp.
use prebyte.Base.{
  Bool, true, Option, none, some, List, [], ◌∷◌, ◌≡◌, ◌≢◌, refl, sym, ◌∙◌, Bytes, if◌then◌else◌,
}
use mathlib.Core.Bool.{false≢true}
use prebyte.Result.{Result, ok, Ensures, Ensures-if, Ensures-bind}
use prebyte.Command.{
  Command, CommandMode, render, parse_list_mode, no_command, is_render, Progress, next_argument,
  skip_value, collect_rest, parse_argument, collect, resume, parse_arguments, require_template,
  check_batch, parse_from, list_from, parse_list, parse_explain, parse,
}
use prebyte.Command.Rounds.{IsConsistent, IsSound, no_command-IsConsistent, parse_argument-IsSound}

collect-IsConsistent :
    (c : Command) (rest : List Bytes)
    → IsConsistent c
    → is_render c.mode ≡ true
    → IsConsistent (collect c rest)
unfolding collect
collect-IsConsistent c [] h e = h
collect-IsConsistent c (arg ∷ rest) h e =
    collect-IsConsistent _ rest
      (record {
        one_batch = h.one_batch;
        no_render = λ other. absurd (false≢true (sym other ∙ e));
        no_inline = h.no_inline;
      })
      e

resume-IsConsistent :
    (next skipped : Command → Result Command) (rest : List Bytes) (p : Progress)
    → ((c : Command) → IsConsistent c → Ensures IsConsistent (next c))
    → ((c : Command) → IsConsistent c → Ensures IsConsistent (skipped c))
    → IsSound p
    → Ensures IsConsistent (resume next skipped rest p)
resume-IsConsistent next skipped rest (next_argument c) hn hs h = hn c h
resume-IsConsistent next skipped rest (skip_value c) hn hs h = hs c h
resume-IsConsistent next skipped rest (collect_rest c) hn hs h = collect-IsConsistent c rest h.0 h.1

parse_arguments-IsConsistent :
    (args : List Bytes) (c : Command)
    → IsConsistent c
    → Ensures IsConsistent (parse_arguments c args)
unfolding parse_arguments
parse_arguments-IsConsistent [] c h = h
parse_arguments-IsConsistent (arg ∷ []) c h =
    Ensures-bind IsSound IsConsistent (parse_argument c arg []) _
      (parse_argument-IsSound c h arg [])
      λ p k. resume-IsConsistent ok ok [] p (λ _ x. x) (λ _ x. x) k
parse_arguments-IsConsistent (arg ∷ next ∷ rest) c h =
    Ensures-bind IsSound IsConsistent (parse_argument c arg (next ∷ rest)) _
      (parse_argument-IsSound c h arg (next ∷ rest))
      λ p k.
        resume-IsConsistent (λ c'. parse_arguments c' (next ∷ rest)) (λ c'. parse_arguments c' rest)
          (next ∷ rest) p (parse_arguments-IsConsistent (next ∷ rest))
          (parse_arguments-IsConsistent rest) k

-- A batch from stdin has a template.
abbrev HasTemplate : Command → Type 0
HasTemplate c = c.batch_from_stdin ≡ true → c.input_path ≢ none

abbrev IsAccepted : Command → Type 0
IsAccepted c = IsConsistent c × HasTemplate c

require_template-IsAccepted :
    (path : Option Bytes) (c : Command)
    → c.input_path ≡ path
    → IsConsistent c
    → Ensures IsAccepted (require_template path c)
require_template-IsAccepted none c e h = tt
require_template-IsAccepted (some path) c e h = (h, λ _ gone. cc)

check_batch-IsAccepted : (c : Command) → IsConsistent c → Ensures IsAccepted (check_batch c)
unfolding check_batch
check_batch-IsAccepted c h =
    Ensures-if IsAccepted c.batch_from_stdin _ _
      (λ _. require_template-IsAccepted c.input_path c refl h)
      λ off. (h, λ on. absurd (false≢true (sym off ∙ on)))

parse_from-IsAccepted :
    (mode : CommandMode) (args : List Bytes) → Ensures IsAccepted (parse_from mode args)
parse_from-IsAccepted mode args =
    Ensures-bind IsConsistent IsAccepted (parse_arguments (no_command mode) args) check_batch
      (parse_arguments-IsConsistent args (no_command mode) (no_command-IsConsistent mode))
      check_batch-IsAccepted

list-IsAccepted : (args : List Bytes) → Ensures IsAccepted (parse_list args)
unfolding parse_list
list-IsAccepted [] = tt
list-IsAccepted (value ∷ rest) = from (parse_list_mode value)
  where
    from : (mode : Option CommandMode) → Ensures IsAccepted (list_from mode rest)
    from none = tt
    from (some mode) = parse_from-IsAccepted mode rest

alone-IsAccepted : (mode : CommandMode) → IsAccepted (no_command mode)
alone-IsAccepted mode = (no_command-IsConsistent mode, λ on. absurd (false≢true on))

explain-IsAccepted : (args : List Bytes) → Ensures IsAccepted (parse_explain args)
explain-IsAccepted [] = tt
explain-IsAccepted (topic ∷ rest) = (
  record { one_batch = λ _. refl; no_render = λ _. (refl, refl); no_inline = refl },
  λ on. absurd (false≢true on),
)

if-IsAccepted :
    (b : Bool) (m n : Result Command)
    → Ensures IsAccepted m
    → Ensures IsAccepted n
    → Ensures IsAccepted (if b then m else n)
if-IsAccepted b m n h k = Ensures-if IsAccepted b m n (λ _. h) (λ _. k)

alone-Ensures : (mode : CommandMode) → Ensures IsAccepted (ok (no_command mode))
alone-Ensures mode = alone-IsAccepted mode

parse-Ensures : (args : List Bytes) → Ensures IsAccepted (parse args)
unfolding parse
parse-Ensures [] = parse_from-IsAccepted render []
parse-Ensures (arg ∷ rest) =
    search
      (if-IsAccepted, list-IsAccepted, alone-Ensures, explain-IsAccepted, parse_from-IsAccepted)
      depth 10

-- Every command that is parsed has at most one source of its batch, and a template for a batch from
-- stdin; in a mode other than render it has no input path and no arguments for the template; it
-- never has an inline input.
pub parse-IsConsistent :
    (args : List Bytes) (c : Command)
    → parse args ≡ ok c
    → IsConsistent c × (c.batch_from_stdin ≡ true → c.input_path ≢ none)
parse-IsConsistent args c e = rw e at (parse-Ensures args)
