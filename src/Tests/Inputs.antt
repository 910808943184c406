-- ===== src/Tests/Inputs.antt =====
-- The inputs of the tests.
use prebyte.Base.{ℕ, false, Option, none, some, List, [], ◌∷◌, ◌+◌, length, Bytes, str}
use prebyte.Result.{SourceLocation}
use prebyte.Template.Token.{
  TemplateToken, text, tag_open, tag_close, identifier, end_of_file, TemplateTokenType,
}
use prebyte.Template.Lexer.State.{Delimiters}

abbrev pub mustaches : Delimiters
mustaches = record { file_path = str "t"; tag_prefix = str "{{"; tag_suffix = str "}}" }

abbrev pub in_line : ℕ → SourceLocation
in_line offset = record { offset = offset; line = 1; column = 1 + offset }

abbrev pub token_at : TemplateTokenType → Bytes → ℕ → ℕ → TemplateToken
token_at type lexeme start end = record {
  type = type;
  lexeme = lexeme;
  span = record { file_path = str "t"; start = in_line start; end = in_line end };
  trim_left = false;
  trim_right = false;
}

abbrev pub greeting : Bytes
greeting = str "a{{b}}"

abbrev pub greeting_first : TemplateToken
greeting_first = token_at text (str "a") 0 1

abbrev pub greeting_rest : List TemplateToken
greeting_rest =
    token_at tag_open (str "{{") 1 3
    ∷ token_at identifier (str "b") 3 4
    ∷ token_at tag_close (str "}}") 4 6
    ∷ token_at end_of_file [] 6 6
    ∷ []

abbrev pub greeting_tokens : List TemplateToken
greeting_tokens = greeting_first ∷ greeting_rest

-- Every numeral is read as the number of its bytes.
abbrev pub stod_length : Bytes → Option ℕ
stod_length [] = none
stod_length (c ∷ cs) = some (length (c ∷ cs))
