-- ===== src/Template/Lexer/Keywords.antt =====
-- template/lexer/TemplateLexerKeywords.cpp
use prebyte.Base.{◌≡◌, refl, Option, none, some, List, [], ◌∷◌, Bytes, str, equal, if◌then◌else◌}
use prebyte.Template.Token.{
  TemplateTokenType, boolean, keyword_for, keyword_in, keyword_if, keyword_else_if, keyword_else,
  keyword_end_if, keyword_end_for, keyword_include, keyword_set, keyword_fn, keyword_end_fn,
  keyword_lua, keyword_lua_block, keyword_end_lua,
}

-- A row of a table of lexemes: `KeywordRule`, `PunctuationRule`.
pub record Rule : Type 0 where
  pub word : Bytes
  pub type : TemplateTokenType

abbrev pub rule : Bytes → TemplateTokenType → Rule
rule w t = record { word = w; type = t }

abbrev pub keyword_rules : List Rule
keyword_rules =
    rule (str "if") keyword_if
    ∷ rule (str "for") keyword_for
    ∷ rule (str "in") keyword_in
    ∷ rule (str "elseif") keyword_else_if
    ∷ rule (str "else") keyword_else
    ∷ rule (str "endif") keyword_end_if
    ∷ rule (str "endfor") keyword_end_for
    ∷ rule (str "include") keyword_include
    ∷ rule (str "set") keyword_set
    ∷ rule (str "fn") keyword_fn
    ∷ rule (str "endfn") keyword_end_fn
    ∷ rule (str "lua") keyword_lua
    ∷ rule (str "lua:block") keyword_lua_block
    ∷ rule (str "endlua") keyword_end_lua
    ∷ rule (str "true") boolean
    ∷ rule (str "false") boolean
    ∷ []

-- The first row that holds the lexeme.
unfoldable pub find_word : Bytes → List Rule → Option TemplateTokenType
unfolding equal
find_word lexeme [] = none
find_word lexeme (r ∷ rules) = if equal lexeme r.word then some r.type else find_word lexeme rules

unfoldable pub lookup_keyword : Bytes → Option TemplateTokenType
unfolding find_word str
lookup_keyword lexeme = find_word lexeme keyword_rules

lookup_keyword_runs : lookup_keyword (str "endif") ≡ some keyword_end_if
unfolding lookup_keyword
lookup_keyword_runs = refl
