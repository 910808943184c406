-- ===== src/Template/Compile.antt =====
-- runtime/compiled/CompiledTemplateCompiler.cpp: `compile_source` begins with `TemplateLexer::lex` and
-- `TemplateParser::parse_document`, with loops enabled.
use prebyte.Base.{true, Option, List, [], ◌∷◌, ◌≡◌, ◌≢◌, ◌⊎◌, refl, Bytes}
use prebyte.Result.{Result, ok, err, out_of_fuel, ◌>>=◌, Yields}
use prebyte.Template.Token.{TemplateToken, end_of_file, is}
use prebyte.Template.Node.{Nodes}
use prebyte.Template.Lexer.{lex}
use prebyte.Template.Lexer.State.{Delimiters}
use prebyte.Template.Lexer.Ended.{IsEnded, lex-IsEnded}
use prebyte.Template.Lexer.Termination.{lex-ne-out_of_fuel}
use prebyte.Template.Parser.{parse_document, last_token}
use prebyte.Template.Parser.Termination.{parse_document-ne-out_of_fuel}

-- From a source to its document.
unfoldable pub document : {D : Type 0} → (Bytes → Option D) → Delimiters → Bytes → Result (Nodes D)
document stod d source = lex d source >>= parse_document stod true

last_token-is :
    (t : TemplateToken) (ts : List TemplateToken)
    → IsEnded (t ∷ ts)
    → is (last_token t ts).type end_of_file ≡ true
last_token-is t [] h = h
last_token-is t (u ∷ ts) h = last_token-is u ts h

module _ {D : Type 0} (stod : Bytes → Option D) where
  parse-ne :
      (tokens : List TemplateToken) → IsEnded tokens → parse_document stod true tokens ≢ out_of_fuel
  parse-ne [] h = absurd h
  parse-ne (t ∷ ts) h = parse_document-ne-out_of_fuel stod true t ts (last_token-is t ts h)

  then-ne :
      (m : Result (List TemplateToken))
      → Yields IsEnded m
      → m ≢ out_of_fuel
      → (m >>= parse_document stod true) ≢ out_of_fuel
  then-ne (ok tokens) h ne = parse-ne tokens h
  then-ne (err e) h ne = λ e. cc
  then-ne out_of_fuel h ne = absurd (ne refl)

  -- Lexing and parsing end on every source, with a document or an exception, if one of the
  -- delimiters is not empty: no loop and no recursion of the lexer or the parser runs forever.
  pub document-ne-out_of_fuel :
      (d : Delimiters) (source : Bytes)
      → (d.tag_prefix ≢ []) ⊎ (d.tag_suffix ≢ [])
      → document stod d source ≢ out_of_fuel
  unfolding document
  document-ne-out_of_fuel d source ne =
      then-ne (lex d source) (lex-IsEnded d source) (lex-ne-out_of_fuel d source ne)
