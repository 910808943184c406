-- ===== src/Template/Parser.antt =====
-- template/parser/: `TemplateParser`, which turns tokens into nodes.
pub mod Stream
pub mod Names
pub mod Expressions
pub mod Directives
pub mod Blocks
pub mod Reads
pub mod Rules
pub mod Levels
pub mod Tags
pub mod Bodies
pub mod Termination
pub mod Bindings
use prebyte.Base.{ℕ, zero, suc, ◌+◌, Bool, false, Option, List, [], ◌∷◌, Bytes, str, length}
use prebyte.Result.{Result, ok, err, out_of_fuel, diagnostic_error, SourceSpan, SourceLocation}
use prebyte.Template.Token.{TemplateTokenType, TemplateToken, end_of_file}
use prebyte.Template.Node.{Nodes, no_nodes, more_nodes}
use Stream.{
  Stream as TokenStream, Parser, pure, exhausted, ◌>>=◌, ◌>>◌, make_error, is_at_end, consume,
  is_terminator_ahead, when,
}
use Blocks.{parse_node}

module _ {D : Type 0} (stod : Bytes → Option D) (enable_loops : Bool) where
  -- The loop ends at a terminator, or at the end of the tokens. The bodies of a node have the fuel
  -- that is left, as the loop itself.
  unfoldable pub parse_nodes_until : ℕ → List TemplateTokenType → Parser (Nodes D)
  parse_nodes_until zero terminators = exhausted
  parse_nodes_until (suc fuel) terminators = when is_at_end (pure no_nodes) (
      when (is_terminator_ahead terminators) (pure no_nodes) (do
        node ← parse_node stod enable_loops fuel (parse_nodes_until fuel)
        later ← parse_nodes_until fuel terminators
        pure (more_nodes node later)))

  unfoldable pub parse_from : ℕ → Parser (Nodes D)
  parse_from fuel = do
    children ← parse_nodes_until fuel []
    consume end_of_file (str "Expected end of file")
    pure children

-- The value of a parse, without the tokens that are left.
abbrev pub drop_stream {ℓ} : {A : Type ℓ} → Result (A × TokenStream) → Result A
drop_stream (ok (a, rest)) = ok a
drop_stream (err e) = err e
drop_stream out_of_fuel = out_of_fuel

-- `TemplateParser(tokens).parse_document()`. With no token `peek` throws at once.
abbrev pub no_location : SourceLocation
no_location = record { offset = 0; line = 1; column = 1 }

abbrev pub no_token : TemplateToken
no_token = record {
  type = end_of_file;
  lexeme = [];
  span = record { file_path = []; start = no_location; end = no_location };
  trim_left = false;
  trim_right = false;
}

-- `tokens_.back()` behind a first token.
abbrev pub last_token : TemplateToken → List TemplateToken → TemplateToken
last_token t [] = t
last_token t (u ∷ ts) = last_token u ts

module _ {D : Type 0} (stod : Bytes → Option D) (enable_loops : Bool) where
  -- The fuel is one more than the number of tokens (`Parser/Termination`).
  unfoldable pub parse_document : List TemplateToken → Result (Nodes D)
  parse_document [] =
      err (diagnostic_error (make_error no_token (str "Empty template token stream")))
  parse_document (t ∷ ts) = drop_stream (
      parse_from stod enable_loops (length (t ∷ ts) + 1)
        (record { rest = t ∷ ts; back = last_token t ts }))
