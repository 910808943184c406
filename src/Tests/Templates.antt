-- ===== src/Tests/Templates.antt =====
-- The lexer and the parser on small templates.
use prebyte.Base.{true, false, [], ◌∷◌, ◌≡◌, ◌≢◌, inl, refl, str, equal, length}
use prebyte.Text.{
  starts_with, is_space, is_digit, is_alpha, is_identifier_start, is_identifier_part,
}
use prebyte.Result.{ok, Yields, out_of_fuel}
use prebyte.Template.Token.{is, end_of_file}
use prebyte.Template.Lexer.{round, finish, run, lex}
use prebyte.Template.Lexer.Cursor.{step, scan_while, advance_literal}
use prebyte.Template.Lexer.Keywords.{find_word, lookup_keyword}
use prebyte.Template.Lexer.Texts.{open_tag, read_text, lex_text}
use prebyte.Template.Lexer.Tag.{
  find_byte, find_literal, lex_identifier_or_keyword, lex_inside_tag, lex_tag_token,
  try_lex_tag_close, try_lex_tag_punctuation,
}
use prebyte.Template.Lexer.Spans.{lex-Ordered}
use prebyte.Template.Lexer.Ended.{IsEnded, lex-IsEnded}
use prebyte.Template.Lexer.Stuck.{no_delimiters, run-out_of_fuel}
use prebyte.Template.Lexer.Quoted.{IsScanned, quoted, scan_string-quoted}
use prebyte.Template.Lexer.State.{initial, start_location}
use prebyte.Template.Lexer.Placed.{Ordered}
use prebyte.Template.Lexer.Termination.{lex-ne-out_of_fuel}
use prebyte.Template.Parser.{parse_document, last_token}
use prebyte.Template.Parser.Levels.{expression-Takes}
use prebyte.Template.Parser.Rules.{Takes}
use prebyte.Template.Parser.Expressions.{parse_expression}
use prebyte.Template.Parser.Termination.{parse_document-ne-out_of_fuel}
use prebyte.Template.Compile.{document, document-ne-out_of_fuel}
use prebyte.Tests.Inputs.{
  mustaches, greeting, greeting_first, greeting_rest, greeting_tokens, stod_length,
}

greeting_run : lex mustaches greeting ≡ ok greeting_tokens
unfolding lex run round finish str equal starts_with is_space is_digit is_alpha is_identifier_start
    is_identifier_part is step scan_while advance_literal find_word lookup_keyword open_tag
    read_text lex_text find_byte find_literal lex_identifier_or_keyword lex_inside_tag lex_tag_token
    try_lex_tag_close try_lex_tag_punctuation
greeting_run = refl

lex-Ordered_example : Ordered greeting 0 greeting_tokens (length greeting)
lex-Ordered_example = lex-Ordered mustaches greeting greeting_run

prefixed : mustaches.tag_prefix ≢ []
unfolding str
prefixed = λ e. cc

closed : is (last_token greeting_first greeting_rest).type end_of_file ≡ true
unfolding is
closed = refl

lex-IsEnded_example : Yields IsEnded (lex mustaches greeting)
lex-IsEnded_example = lex-IsEnded mustaches greeting

parse_document-ne-out_of_fuel_example :
    parse_document stod_length true (greeting_first ∷ greeting_rest) ≢ out_of_fuel
parse_document-ne-out_of_fuel_example =
    parse_document-ne-out_of_fuel stod_length true greeting_first greeting_rest closed

lex-ne-out_of_fuel_example : lex mustaches greeting ≢ out_of_fuel
lex-ne-out_of_fuel_example = lex-ne-out_of_fuel mustaches greeting (inl prefixed)

document-ne-out_of_fuel_example : document stod_length mustaches greeting ≢ out_of_fuel
document-ne-out_of_fuel_example =
    document-ne-out_of_fuel stod_length mustaches greeting (inl prefixed)

expression-Takes_example : Takes 6 (parse_expression stod_length 6)
expression-Takes_example = expression-Takes stod_length 6

scan_string-quoted_example :
    IsScanned
      (str "t")
      start_location
      (str "a\"b\\")
      (str " }}")
      start_location
      (quoted (str "a\"b\\") (str " }}"))
scan_string-quoted_example =
    scan_string-quoted (str "t") start_location (str "a\"b\\") (str " }}") start_location

not_blank : is_space b'a' ≡ false
unfolding is_space
not_blank = refl

run-out_of_fuel_example : run (no_delimiters (str "t")) 100 (initial (b'a' ∷ [])) ≡ out_of_fuel
run-out_of_fuel_example = run-out_of_fuel (str "t") b'a' [] 100 not_blank refl
