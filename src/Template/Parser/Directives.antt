-- ===== src/Template/Parser/Directives.antt =====
-- template/parser/TemplateParserDirectives.cpp and TemplateParserNodes.cpp: one tag. The body of a
-- block is read by `parse_nodes_until`, which is an argument here.
use prebyte.Base.{ℕ, zero, suc, Bool, false, ◌&&◌, Option, [], ◌∷◌, ◌++◌, Bytes, str, if◌then◌else◌}
use prebyte.Result.{SourceSpan}
use prebyte.Template.Token.{
  TemplateTokenType, TemplateToken, tag_open, tag_close, identifier, string, keyword_include,
  keyword_set, keyword_lua, keyword_lua_block, keyword_end_lua, equal as equal_sign,
}
use prebyte.Template.Expression.{Expression, lua_call_expr}
use prebyte.Template.Node.{
  NodeBase, Node, interpolation_node, include_node, set_node, lua_expr_node, lua_block_node,
}
use prebyte.Template.Parser.Names.{is_reserved_name}
use prebyte.Template.Parser.Stream.{
  Stream, Parser, pure, exhausted, ◌>>=◌, ◌>>◌, fail_at, fail_here, check, is_at_end, advance,
  consume, on_match, when, with_end,
}
use prebyte.Template.Parser.Expressions.{parse_expression}

-- The base of a node from its first to its last tag, with `apply_trim_flags`.
abbrev pub trimmed_base : TemplateToken → TemplateToken → NodeBase
trimmed_base start end = record {
  span = with_end start.span end.span.end;
  trim_left = start.trim_left;
  trim_right = end.trim_right;
}

-- The base of a node with no trim flags.
abbrev pub plain_base : SourceSpan → NodeBase
plain_base span = record { span = span; trim_left = false; trim_right = false }

-- `check(TagOpen) && check(type, 1)`
abbrev pub tag_is : TemplateTokenType → Stream → Bool
tag_is type s = check tag_open 0 s && check type 1 s

-- The loop of `parse_raw_body_until`.
unfoldable pub raw_loop : ℕ → TemplateTokenType → Parser Bytes
raw_loop zero terminator = exhausted
raw_loop (suc fuel) terminator = when is_at_end (pure []) (
    when (tag_is terminator) (pure [])
      (do token ← advance; later ← raw_loop fuel terminator; pure (token.lexeme ++ later)))

abbrev pub require_body : Bytes → Parser Bytes
require_body [] = fail_here (str "Expected raw Lua block body")
require_body (c ∷ cs) = pure (c ∷ cs)

unfoldable pub parse_raw_body_until : ℕ → TemplateTokenType → Parser Bytes
parse_raw_body_until fuel terminator = do source ← raw_loop fuel terminator; require_body source

-- A closing tag, `{{ keyword }}`: its last token.
unfoldable pub close_block : TemplateTokenType → Bytes → Bytes → Bytes → Parser TemplateToken
close_block keyword before expected after = do
  consume tag_open before
  consume keyword expected
  consume tag_close after

abbrev pub close_lua : Parser TemplateToken
close_lua =
    close_block keyword_end_lua (str "Expected tag start before endlua")
      (str "Expected endlua keyword") (str "Expected tag end after endlua")

-- A name that may be bound, or an error at its token.
abbrev pub unreserved : Bytes → TemplateToken → Parser Bytes
unreserved message token =
    if is_reserved_name token.lexeme
    then fail_at token (message ++ token.lexeme)
    else pure token.lexeme

module _ {D : Type 0} (stod : Bytes → Option D) (fuel : ℕ) where
  unfoldable pub parse_lua_expr : Parser (Node D)
  parse_lua_expr = do
    start ← consume tag_open (str "Expected tag start")
    consume keyword_lua (str "Expected lua keyword")
    source ← consume string (str "Expected Lua string literal")
    end ← consume tag_close (str "Expected tag end after lua expression")
    pure (lua_expr_node source.lexeme (plain_base (with_end start.span end.span.end)))

  unfoldable pub parse_lua_block : Parser (Node D)
  parse_lua_block = do
    start ← consume tag_open (str "Expected tag start")
    consume keyword_lua_block (str "Expected lua:block keyword")
    consume tag_close (str "Expected tag end after lua:block")
    source ← parse_raw_body_until fuel keyword_end_lua
    end ← close_lua
    pure (lua_block_node source (plain_base (with_end start.span end.span.end)))

  unfoldable pub parse_if_condition : Bytes → Parser (Expression D)
  parse_if_condition branch_name =
      on_match keyword_lua_block
        (λ start. do
          consume tag_close (str "Expected tag end after " ++ branch_name ++ str " lua:block")
          source ← parse_raw_body_until fuel keyword_end_lua
          end ← close_lua
          pure (lua_call_expr source (with_end start.span end.span.end)))
        (do
          condition ← parse_expression stod fuel
          consume tag_close (str "Expected tag end after " ++ branch_name ++ str " expression")
          pure condition)

  unfoldable pub parse_include : Parser (Node D)
  parse_include = do
    start ← consume tag_open (str "Expected tag start")
    consume keyword_include (str "Expected include keyword")
    path ← consume string (str "Expected include path string")
    end ← consume tag_close (str "Expected tag end after include")
    pure (include_node path.lexeme (trimmed_base start end))

  unfoldable pub parse_set_statement : Parser (Node D)
  parse_set_statement = do
    start ← consume tag_open (str "Expected tag start")
    consume keyword_set (str "Expected set keyword")
    token ← consume identifier (str "Expected variable name after set")
    name ← unreserved (str "Reserved variable name: ") token
    consume equal_sign (str "Expected '=' after set variable name")
    expression ← parse_expression stod fuel
    end ← consume tag_close (str "Expected tag end after set expression")
    pure (set_node name expression (trimmed_base start end))

  unfoldable pub parse_interpolation : Parser (Node D)
  parse_interpolation = do
    start ← consume tag_open (str "Expected tag start")
    expression ← parse_expression stod fuel
    end ← consume tag_close (str "Expected tag end after expression")
    pure (interpolation_node expression (trimmed_base start end))
