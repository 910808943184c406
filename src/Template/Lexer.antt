-- ===== src/Template/Lexer.antt =====
-- template/lexer/: `TemplateLexer`, which turns the source into tokens.
pub mod Cursor
pub mod Errors
pub mod State
pub mod Strings
pub mod Keywords
pub mod Texts
pub mod Tag
mod Location
mod Loop
pub mod Placed
pub mod Spans
mod Progress
pub mod Quoted
pub mod Ended
pub mod Stuck
mod Rounds
pub mod Termination
use prebyte.Base.{
  ℕ, zero, suc, ◌+◌, ◌*◌, true, false, List, [], ◌∷◌, ◌++◌, Bytes, str, if◌then◌else◌, length,
}
use prebyte.Result.{diagnostic_error, Result, ok, err, out_of_fuel, ◌>>=◌}
use prebyte.Template.Token.{TemplateToken, end_of_file}
use Errors.{make_lexer_error}
use State.{Delimiters, Lexer, initial, make_token}
use Texts.{lex_text}
use Tag.{lex_inside_tag}

-- A choice by `is_at_end`.
abbrev pub at_end {ℓ} : {A : Type ℓ} → Bytes → A → A → A
at_end [] stop go = stop
at_end (_ ∷ _) stop go = go

-- Two units of fuel for each byte, and two more (`Lexer/Termination`).
abbrev pub enough : Bytes → ℕ
enough source = 2 * length source + 2

module _ (d : Delimiters) where
  -- One round of the loop.
  unfoldable pub round : Lexer → Result Lexer
  round lx = if lx.inside_tag then lex_inside_tag d lx else ok (lex_text d lx)

  -- Behind the loop.
  unfoldable pub finish : Lexer → Result (List TemplateToken)
  finish lx =
      if lx.inside_tag
      then err (diagnostic_error (make_lexer_error (str "Unclosed tag") d.file_path lx.at))
      else ok (lx.tokens ++ make_token d end_of_file [] lx.at lx.at false false ∷ [])

  -- The loop runs while there is source left; each round costs a unit of fuel.
  unfoldable pub run : ℕ → Lexer → Result (List TemplateToken)
  run zero lx = out_of_fuel
  run (suc fuel) lx = let more = round lx >>= run fuel in at_end lx.rest (finish lx) more

  unfoldable pub lex : Bytes → Result (List TemplateToken)
  lex source = run (enough source) (initial source)
