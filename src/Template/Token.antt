-- ===== src/Template/Token.antt =====
-- template/lexer/TemplateToken.h: the kinds of tokens, and a token.
use prebyte.Base.{ℕ, Bool, Bytes, ◌==◌}
use prebyte.Result.{SourceSpan}

pub data TemplateTokenType : Type 0 where
  end_of_file text tag_open tag_close identifier string number boolean : TemplateTokenType
  keyword_for keyword_in keyword_if keyword_else_if keyword_else keyword_end_if : TemplateTokenType
  keyword_end_for keyword_include keyword_set keyword_fn keyword_end_fn : TemplateTokenType
  keyword_lua keyword_lua_block keyword_end_lua : TemplateTokenType
  dot left_paren right_paren left_bracket right_bracket comma pipe equal bang : TemplateTokenType
  less greater less_equal greater_equal and_and or_or equal_equal bang_equal : TemplateTokenType

-- The underlying value of each enumerator.
abbrev pub index : TemplateTokenType → ℕ
index end_of_file = 0
index text = 1
index tag_open = 2
index tag_close = 3
index identifier = 4
index string = 5
index number = 6
index boolean = 7
index keyword_for = 8
index keyword_in = 9
index keyword_if = 10
index keyword_else_if = 11
index keyword_else = 12
index keyword_end_if = 13
index keyword_end_for = 14
index keyword_include = 15
index keyword_set = 16
index keyword_fn = 17
index keyword_end_fn = 18
index keyword_lua = 19
index keyword_lua_block = 20
index keyword_end_lua = 21
index dot = 22
index left_paren = 23
index right_paren = 24
index left_bracket = 25
index right_bracket = 26
index comma = 27
index pipe = 28
index equal = 29
index bang = 30
index less = 31
index greater = 32
index less_equal = 33
index greater_equal = 34
index and_and = 35
index or_or = 36
index equal_equal = 37
index bang_equal = 38

-- `type == kind`
unfoldable pub is : TemplateTokenType → TemplateTokenType → Bool
is kind type = index kind == index type

pub record TemplateToken : Type 0 where
  pub type : TemplateTokenType
  pub lexeme : Bytes
  pub span : SourceSpan
  pub trim_left : Bool
  pub trim_right : Bool
