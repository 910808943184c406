-- ===== src/Template/Lexer/Tag.antt =====
-- template/lexer/TemplateLexerTag.cpp and TemplateLexerLiterals.cpp: one token inside a tag.
use prebyte.Base.{
  ℕ, true, false, ◌&&◌, Option, none, some, List, [], ◌∷◌, ◌++◌, Bytes, str, ◌==◌, if◌then◌else◌,
}
use prebyte.Result.{SourceLocation, diagnostic_error, Result, ok, err, ◌>>=◌, or_else}
use prebyte.Text.{starts_with, is_space, is_digit, is_identifier_start, is_identifier_part}
use prebyte.Template.Token.{
  TemplateTokenType, tag_close, identifier, string, number, dot, left_paren, right_paren,
  left_bracket, right_bracket, comma, pipe, equal, bang, less, greater, less_equal, greater_equal,
  and_and, or_or, equal_equal, bang_equal,
}
use prebyte.Template.Lexer.Cursor.{Scan, scan_while, advance_literal}
use prebyte.Template.Lexer.Errors.{make_lexer_error}
use prebyte.Template.Lexer.Strings.{scan_string}
use prebyte.Template.Lexer.Keywords.{Rule, rule, lookup_keyword}
use prebyte.Template.Lexer.State.{Delimiters, Lexer, peek, match_literal, make_token, add_token}

abbrev pub two_char_punctuation : List Rule
two_char_punctuation =
    rule (str "&&") and_and
    ∷ rule (str "||") or_or
    ∷ rule (str "==") equal_equal
    ∷ rule (str "<=") less_equal
    ∷ rule (str ">=") greater_equal
    ∷ rule (str "!=") bang_equal
    ∷ []

abbrev pub one_char_punctuation : List Rule
one_char_punctuation =
    rule (str "!") bang
    ∷ rule (str "(") left_paren
    ∷ rule (str "|") pipe
    ∷ rule (str "[") left_bracket
    ∷ rule (str ")") right_paren
    ∷ rule (str "]") right_bracket
    ∷ rule (str ".") dot
    ∷ rule (str ",") comma
    ∷ rule (str "=") equal
    ∷ rule (str "<") less
    ∷ rule (str ">") greater
    ∷ []

-- The first row whose lexeme the rest begins with.
unfoldable pub find_literal : Bytes → List Rule → Option Rule
unfolding starts_with
find_literal rest [] = none
find_literal rest (r ∷ rules) =
    if match_literal rest r.word then some r else find_literal rest rules

-- The first row whose lexeme has the first byte of the rest.
unfoldable pub find_byte : Bytes → List Rule → Option Rule
find_byte rest [] = none
find_byte rest (r ∷ rules) = if peek rest 0 == peek r.word 0 then some r else find_byte rest rules

-- The digits, and a fraction if a digit follows the dot.
abbrev pub digits : SourceLocation → Bytes → Scan
digits at rest = scan_while (λ r. is_digit (peek r 0)) at rest

abbrev pub join_scans : Scan → Scan → Scan
join_scans s t = record t { value = s.value ++ t.value }

unfoldable pub scan_number : SourceLocation → Bytes → Scan
scan_number at rest =
    let whole = digits at rest in
    let point = advance_literal (b'.' ∷ []) whole.at whole.rest in
    if peek whole.rest 0 == b'.' && is_digit (peek whole.rest 1)
    then join_scans whole (join_scans point (digits point.at point.rest))
    else whole

abbrev pub type_or_identifier : Option TemplateTokenType → TemplateTokenType
type_or_identifier none = identifier
type_or_identifier (some keyword) = keyword

module _ (d : Delimiters) where
  -- The two forms of a closing delimiter.
  unfoldable pub try_lex_tag_close : Lexer → Option Lexer
  try_lex_tag_close lx =
      let plain = advance_literal d.tag_suffix lx.at lx.rest in
      let dashed = advance_literal (b'-' ∷ d.tag_suffix) lx.at lx.rest in
      if match_literal lx.rest d.tag_suffix
      then some (record lx {
        rest = plain.rest;
        at = plain.at;
        tokens = lx.tokens ++ make_token d tag_close d.tag_suffix lx.at plain.at false false ∷ [];
        inside_tag = false;
      })
      else if peek lx.rest 0 == b'-' && match_literal lx.rest (b'-' ∷ d.tag_suffix)
      then some (record lx {
        rest = dashed.rest;
        at = dashed.at;
        tokens = lx.tokens ++ make_token d tag_close d.tag_suffix lx.at dashed.at false true ∷ [];
        inside_tag = false;
        trim_next_text_left = true;
      })
      else none

  unfoldable pub lex_identifier_or_keyword : Lexer → Lexer
  lex_identifier_or_keyword lx =
      let s = scan_while (λ rest. is_identifier_part (peek rest 0)) lx.at lx.rest in
      add_token d (type_or_identifier (lookup_keyword s.value)) s lx

  unfoldable pub lex_number : Lexer → Lexer
  lex_number lx = add_token d number (scan_number lx.at lx.rest) lx

  abbrev failure {ℓ} : {A : Type ℓ} → Bytes → SourceLocation → Result A
  failure message at = err (diagnostic_error (make_lexer_error message d.file_path at))

  unfoldable pub lex_string : Lexer → Result Lexer
  lex_string lx =
      let quote = advance_literal (b'"' ∷ []) lx.at lx.rest in
      scan_string d.file_path lx.at false quote.at quote.rest >>= λ s. ok (add_token d string s lx)

  abbrev pub add_punctuation : Lexer → Option Rule → Option Rule → Option Lexer
  add_punctuation lx (some r) one =
      some
        (add_token d r.type (record (advance_literal r.word lx.at lx.rest) { value = r.word }) lx)
  add_punctuation lx none (some r) = some (
      add_token d r.type (record (advance_literal (b' ' ∷ []) lx.at lx.rest) { value = r.word }) lx)
  add_punctuation lx none none = none

  -- The two-byte lexemes come first.
  unfoldable pub try_lex_tag_punctuation : Lexer → Option Lexer
  try_lex_tag_punctuation lx =
      add_punctuation lx (find_literal lx.rest two_char_punctuation)
        (find_byte lx.rest one_char_punctuation)

  -- `lex_inside_tag` behind the white space, at the byte `ch`.
  unfoldable pub lex_tag_token : ℕ → Lexer → Result Lexer
  lex_tag_token ch lx = or_else (try_lex_tag_close lx) (
      if is_identifier_start ch
      then ok (lex_identifier_or_keyword lx)
      else if is_digit ch
      then ok (lex_number lx)
      else if ch == b'"'
      then lex_string lx
      else or_else (try_lex_tag_punctuation lx)
          (failure (str "Unexpected character in tag: " ++ ch ∷ []) lx.at))

  -- The byte behind the white space, if there is one.
  abbrev pub after_space : Bytes → Lexer → Result Lexer
  after_space [] lx = ok lx
  after_space (ch ∷ _) lx = lex_tag_token ch lx

  unfoldable pub lex_inside_tag : Lexer → Result Lexer
  lex_inside_tag lx =
      let s = scan_while (λ rest. is_space (peek rest 0)) lx.at lx.rest in
      let skipped = record lx { rest = s.rest; at = s.at } in after_space s.rest skipped
