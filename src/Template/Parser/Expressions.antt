-- ===== src/Template/Parser/Expressions.antt =====
-- template/parser/TemplateParserExpressions.cpp. The levels from `pipe` down to `primary` take the
-- method `parse_expression` of the next depth as an argument. A loop costs a unit of fuel for each
-- round, and so does each `!` of a chain.
use prebyte.Base.{ℕ, zero, suc, Option, none, some, List, [], ◌∷◌, Bytes, str, equal, if◌then◌else◌}
use prebyte.Result.{err, out_of_range}
use prebyte.Template.Token.{
  TemplateTokenType, TemplateToken, identifier, string, number, boolean, keyword_in, keyword_lua,
  dot, left_paren, right_paren, left_bracket, right_bracket, comma, pipe, bang, less, greater,
  less_equal, greater_equal, and_and, or_or, equal_equal, bang_equal,
}
use prebyte.Template.Expression.{
  Expression, Expressions, identifier_expr, string_expr, number_expr, bool_expr, unary_expr,
  binary_expr, grouped_expr, member_access_expr, index_access_expr, len_call_expr, lua_call_expr,
  filter_call_expr, function_call_expr, no_expressions, more_expressions, span_of,
}
use prebyte.Template.Parser.Stream.{
  Parser, pure, exhausted, ◌>>=◌, ◌>>◌, fail_at, fail_here, check, check_any, on_match,
  on_match_any, consume, when, with_end,
}

-- kMaxParserExpressionDepth
abbrev pub max_parser_expression_depth : ℕ
max_parser_expression_depth = 64

abbrev pub comparison_types : List TemplateTokenType
comparison_types = less ∷ greater ∷ less_equal ∷ greater_equal ∷ keyword_in ∷ []

-- A callee must be an identifier: an error at the parenthesis that opens the call.
abbrev pub callee_name : Option Bytes → TemplateToken → Parser Bytes
callee_name none paren = fail_at paren (str "Function call requires identifier callee")
callee_name (some name) paren = pure name

module _ {D : Type 0} where
  abbrev pub binary : Expression D → TemplateToken → Expression D → Expression D
  binary left op right =
      binary_expr left op.lexeme right (with_end (span_of left) (span_of right).end)

  -- The loop of `parse_or`, `parse_and` and `parse_equality`.
  unfoldable pub binary_loop :
      ℕ → List TemplateTokenType → Parser (Expression D) → Expression D → Parser (Expression D)
  binary_loop zero types operand left = exhausted
  binary_loop (suc fuel) types operand left =
      on_match_any types
        (λ op. do right ← operand; binary_loop fuel types operand (binary left op right))
        (pure left)

  unfoldable pub binary_level :
      ℕ → List TemplateTokenType → Parser (Expression D) → Parser (Expression D)
  binary_level fuel types operand = do left ← operand; binary_loop fuel types operand left

  -- `do { … } while (match(Comma))`
  unfoldable pub parse_arguments : ℕ → Parser (Expression D) → Parser (Expressions D)
  parse_arguments zero parse_expression = exhausted
  parse_arguments (suc fuel) parse_expression = do
    first ← parse_expression
    later ← on_match comma (λ _. parse_arguments fuel parse_expression) (pure no_expressions)
    pure (more_expressions first later)

  -- What may stand between parentheses.
  unfoldable pub parse_argument_list : ℕ → Parser (Expression D) → Parser (Expressions D)
  parse_argument_list fuel parse_expression =
      when (check right_paren 0) (pure no_expressions) (parse_arguments fuel parse_expression)

  abbrev pub is_identifier : Expression D → Option Bytes
  is_identifier (identifier_expr name span) = some name
  is_identifier _ = none

  -- `std::stod` of a numeral, which throws `std::out_of_range` beyond the range of `double`.
  unfoldable pub number_value : Option D → Parser D
  number_value none s = err out_of_range
  number_value (some value) s = pure value s

module _ {D : Type 0} (stod : Bytes → Option D) (fuel : ℕ)
    (parse_expression : Parser (Expression D)) where
  unfoldable pub parse_lua_call : TemplateToken → Parser (Expression D)
  parse_lua_call start = do
    consume left_paren (str "Expected '(' after lua")
    source ← consume string (str "Expected Lua string literal")
    end ← consume right_paren (str "Expected ')' after Lua string")
    pure (lua_call_expr source.lexeme (with_end start.span end.span.end))

  -- `len(…)`, or any other identifier.
  unfoldable pub parse_identifier : TemplateToken → Parser (Expression D)
  parse_identifier token =
      if equal token.lexeme (str "len")
      then on_match left_paren
          (λ _. do
            operand ← parse_expression
            end ← consume right_paren (str "Expected ')' after len expression")
            pure (len_call_expr operand (with_end token.span end.span.end)))
          (pure (identifier_expr token.lexeme token.span))
      else pure (identifier_expr token.lexeme token.span)

  unfoldable pub parse_number : TemplateToken → Parser (Expression D)
  parse_number token = do
    value ← number_value (stod token.lexeme)
    pure (number_expr value token.lexeme token.span)

  unfoldable pub parse_grouped : TemplateToken → Parser (Expression D)
  parse_grouped start = do
    expression ← parse_expression
    end ← consume right_paren (str "Expected ')' after expression")
    pure (grouped_expr expression (with_end start.span end.span.end))

  unfoldable pub parse_primary : Parser (Expression D)
  parse_primary = on_match keyword_lua parse_lua_call (
      on_match identifier parse_identifier (
        on_match string (λ token. pure (string_expr token.lexeme token.span))
          (on_match number parse_number (
            on_match boolean
              (λ token. pure (bool_expr (equal token.lexeme (str "true")) token.span))
              (on_match left_paren parse_grouped (fail_here (str "Expected expression")))))))

  unfoldable pub parse_member : Expression D → Parser (Expression D)
  parse_member base = do
    member ← consume identifier (str "Expected member name after '.'")
    pure (member_access_expr base member.lexeme (with_end (span_of base) member.span.end))

  unfoldable pub parse_call : Expression D → TemplateToken → Parser (Expression D)
  parse_call callee paren = do
    name ← callee_name (is_identifier callee) paren
    arguments ← parse_argument_list fuel parse_expression
    end ← consume right_paren (str "Expected ')' after function arguments")
    pure (function_call_expr name arguments (with_end (span_of callee) end.span.end))

  unfoldable pub parse_index : Expression D → Parser (Expression D)
  parse_index base = do
    index ← parse_expression
    end ← consume right_bracket (str "Expected ']' after index expression")
    pure (index_access_expr base index (with_end (span_of base) end.span.end))

  unfoldable pub postfix_loop : ℕ → Expression D → Parser (Expression D)
  postfix_loop zero expression = exhausted
  postfix_loop (suc rounds) expression =
      on_match dot (λ _. do next ← parse_member expression; postfix_loop rounds next)
        (on_match left_paren
          (λ paren. do next ← parse_call expression paren; postfix_loop rounds next)
          (on_match left_bracket (λ _. do next ← parse_index expression; postfix_loop rounds next)
            (pure expression)))

  unfoldable pub parse_postfix : Parser (Expression D)
  parse_postfix = do expression ← parse_primary; postfix_loop fuel expression

  unfoldable pub parse_unary : ℕ → Parser (Expression D)
  parse_unary zero = exhausted
  parse_unary (suc rounds) =
      on_match bang
        (λ op. do
          operand ← parse_unary rounds
          pure (unary_expr op.lexeme operand (with_end op.span (span_of operand).end)))
        parse_postfix

  -- One comparison, and no second one behind it.
  unfoldable pub parse_comparison : Parser (Expression D)
  parse_comparison = do
    left ← parse_unary fuel
    on_match_any comparison_types
        (λ op. do
          right ← parse_unary fuel
          when (check_any comparison_types 0)
              (fail_here (str "Chained comparison operators are not supported"))
              (pure (binary left op right)))
        (pure left)

  abbrev pub parse_equality : Parser (Expression D)
  parse_equality = binary_level fuel (equal_equal ∷ bang_equal ∷ []) parse_comparison

  abbrev pub parse_and : Parser (Expression D)
  parse_and = binary_level fuel (and_and ∷ []) parse_equality

  abbrev pub parse_or : Parser (Expression D)
  parse_or = binary_level fuel (or_or ∷ []) parse_and

  -- The arguments of a filter, and the end of its call.
  unfoldable pub parse_filter_call : Expression D → TemplateToken → Parser (Expression D)
  parse_filter_call input filter =
      on_match left_paren
        (λ _. do
          arguments ← parse_argument_list fuel parse_expression
          end ← consume right_paren (str "Expected ')' after filter arguments")
          pure (
              filter_call_expr input filter.lexeme arguments
                (with_end (span_of input) end.span.end)))
        (pure (
          filter_call_expr input filter.lexeme no_expressions
            (with_end (span_of input) filter.span.end)))

  unfoldable pub pipe_loop : ℕ → Expression D → Parser (Expression D)
  pipe_loop zero expression = exhausted
  pipe_loop (suc rounds) expression =
      on_match pipe
        (λ _. do
          filter ← consume identifier (str "Expected filter name after '|'")
          next ← parse_filter_call expression filter
          pipe_loop rounds next)
        (pure expression)

  unfoldable pub parse_pipe : Parser (Expression D)
  parse_pipe = do expression ← parse_or; pipe_loop fuel expression

module _ {D : Type 0} (stod : Bytes → Option D) (fuel : ℕ) where
  -- `left` is what the depth counter has left: kMaxParserExpressionDepth - expression_depth_.
  unfoldable pub parse_nested : ℕ → Parser (Expression D)
  parse_nested zero = fail_here (str "Expression nesting is too deep")
  parse_nested (suc left) = parse_pipe stod fuel (parse_nested left)

  unfoldable pub parse_expression : Parser (Expression D)
  parse_expression = parse_nested max_parser_expression_depth
