-- ===== src/Template/Parser/Levels.antt =====
-- The loops of the levels of template/parser/TemplateParserExpressions.cpp.
use prebyte.Base.{ℕ, zero, suc, ◌≤◌, Option, none, some, List, [], ◌∷◌, arith, Bytes, str, All}
use prebyte.Template.Token.{
  TemplateTokenType, TemplateToken, identifier, dot, bang, pipe, left_bracket, left_paren, comma,
  and_and, or_or, equal_equal, bang_equal,
}
use prebyte.Template.Expression.{Expression}
use prebyte.Template.Parser.Stream.{Parser, pure, ◌>>=◌, check_any, fail_here, when, on_match_any}
use prebyte.Template.Parser.Reads.{Any, NotEnd, Reads-exhausted}
use prebyte.Template.Parser.Rules.{
  Keeps, Takes, keeps_rules, consume-Keeps, Takes-Keeps, Takes-le, bind-Keeps, bind-Takes,
  bind-Takes_lt, on_match-Takes, on_match-Takes_lt, on_match-Keeps_lt, on_match_any-Keeps_lt,
  fail_here-Takes, fail_here-Keeps, pure-Keeps, when-Keeps, on_match-Keeps,
}
use prebyte.Template.Parser.Expressions.{
  parse_lua_call, parse_identifier, number_value, parse_number, parse_grouped, parse_primary,
  parse_member, callee_name, parse_call, parse_index, postfix_loop, parse_postfix, parse_unary,
  parse_comparison, comparison_types, binary, binary_loop, binary_level, parse_or,
  parse_filter_call, pipe_loop, parse_pipe, parse_arguments, parse_argument_list, parse_nested,
  parse_expression, max_parser_expression_depth,
}

number_value-Keeps : {D : Type 0} (b : ℕ) (o : Option D) → Keeps b (number_value o)
unfolding number_value pure
number_value-Keeps b none = record { at = λ s c l. tt }
number_value-Keeps b (some v) = pure-Keeps b v

callee_name-Keeps : (b : ℕ) (o : Option Bytes) (t : TemplateToken) → Keeps b (callee_name o t)
callee_name-Keeps b none t = search keeps_rules
callee_name-Keeps b (some name) t = search keeps_rules

module _ {D : Type 0} (stod : Bytes → Option D) (fuel : ℕ) (expr : Parser (Expression D))
    (reads : Takes fuel expr) where
  expr-Keeps : (b : ℕ) → b ≤ fuel → Keeps b expr
  expr-Keeps b le = Takes-Keeps fuel b expr le reads

  arguments-Takes : (rounds : ℕ) → rounds ≤ fuel → Takes rounds (parse_arguments rounds expr)
  unfolding parse_arguments
  arguments-Takes zero le = Reads-exhausted 1 Any
  arguments-Takes (suc r) le = bind-Takes_lt r _ _ (Takes-le fuel (suc r) expr le reads) λ first.
      bind-Keeps r _ _
        (on_match-Keeps r comma _ _ tt
          (λ _. Takes-Keeps r r _ (omega arith) (arguments-Takes r (omega arith))) (pure-Keeps r _))
        (λ later. pure-Keeps r _)

  arguments-Keeps : (b : ℕ) → b ≤ fuel → Keeps b (parse_arguments fuel expr)
  arguments-Keeps b le = Takes-Keeps fuel b _ le (arguments-Takes fuel (omega arith))

  argument_list-Keeps : (b : ℕ) → b ≤ fuel → Keeps b (parse_argument_list fuel expr)
  unfolding parse_argument_list
  argument_list-Keeps b le = when-Keeps b _ _ _ (pure-Keeps b _) (arguments-Keeps b le)

  module _ (b : ℕ) (le : b ≤ fuel) where
    lua_call-Keeps : (t : TemplateToken) → Keeps b (parse_lua_call stod fuel expr t)
    unfolding parse_lua_call
    lua_call-Keeps t = search keeps_rules depth 12

    identifier-Keeps : (t : TemplateToken) → Keeps b (parse_identifier stod fuel expr t)
    unfolding parse_identifier
    identifier-Keeps t = search (keeps_rules, expr-Keeps) depth 12

    number-Keeps : (t : TemplateToken) → Keeps b (parse_number stod fuel expr t)
    unfolding parse_number
    number-Keeps t = search (keeps_rules, number_value-Keeps) depth 12

    grouped-Keeps : (t : TemplateToken) → Keeps b (parse_grouped stod fuel expr t)
    unfolding parse_grouped
    grouped-Keeps t = search (keeps_rules, expr-Keeps) depth 12

    primary-Takes : Takes b (parse_primary stod fuel expr)
    unfolding parse_primary
    primary-Takes =
        search
          (
            on_match-Takes, fail_here-Takes, pure-Keeps, tt, lua_call-Keeps, identifier-Keeps,
            number-Keeps, grouped-Keeps,
          )
          depth 20

    member-Keeps : (e : Expression D) → Keeps b (parse_member stod fuel expr e)
    unfolding parse_member
    member-Keeps e = search keeps_rules depth 12

    call-Keeps : (e : Expression D) (t : TemplateToken) → Keeps b (parse_call stod fuel expr e t)
    unfolding parse_call
    call-Keeps e t = search (keeps_rules, callee_name-Keeps, argument_list-Keeps) depth 12

    index-Keeps : (e : Expression D) → Keeps b (parse_index stod fuel expr e)
    unfolding parse_index
    index-Keeps e = search (keeps_rules, expr-Keeps) depth 12

  postfix_loop-Keeps :
      (b : ℕ) → b ≤ fuel → (e : Expression D) → Keeps b (postfix_loop stod fuel expr b e)
  unfolding postfix_loop
  postfix_loop-Keeps zero le e = Reads-exhausted 0 Any
  postfix_loop-Keeps (suc r) le e =
      let le' : r ≤ fuel = omega arith in
      let loop = postfix_loop-Keeps r le' in
      on_match-Keeps_lt r dot _ _ tt (λ _. bind-Keeps r _ _ (member-Keeps r le' e) loop)
        (on_match-Keeps_lt r left_paren _ _ tt (λ t. bind-Keeps r _ _ (call-Keeps r le' e t) loop)
          (on_match-Keeps_lt r left_bracket _ _ tt
            (λ _. bind-Keeps r _ _ (index-Keeps r le' e) loop) (pure-Keeps (suc r) e)))

  postfix-Takes : Takes fuel (parse_postfix stod fuel expr)
  unfolding parse_postfix
  postfix-Takes =
      bind-Takes fuel _ _ (primary-Takes fuel (omega arith)) (postfix_loop-Keeps fuel (omega arith))

  unary-Takes : (b : ℕ) → b ≤ fuel → Takes b (parse_unary stod fuel expr b)
  unfolding parse_unary
  unary-Takes zero le = Reads-exhausted 1 Any
  unary-Takes (suc r) le =
      on_match-Takes_lt r bang _ _ tt
        (λ op.
          bind-Keeps r _ _ (Takes-Keeps r r _ (omega arith) (unary-Takes r (omega arith)))
            (λ _. pure-Keeps r _))
        (Takes-le fuel (suc r) _ le postfix-Takes)

  unary_fuel : Takes fuel (parse_unary stod fuel expr fuel)
  unary_fuel = unary-Takes fuel (omega arith)

  comparison-Takes : Takes fuel (parse_comparison stod fuel expr)
  unfolding parse_comparison
  comparison-Takes =
      bind-Takes fuel _ _ unary_fuel (λ left. comparison-Keeps fuel (omega arith) left)
    where
      comparison-Keeps :
          (b : ℕ)
          → b ≤ fuel
          → (left : Expression D)
          → Keeps b (
              on_match_any comparison_types
                (λ op. do
                  right ← parse_unary stod fuel expr fuel
                  when
                      (check_any comparison_types 0)
                      (fail_here (str "Chained comparison operators are not supported"))
                      (pure (binary left op right)))
                (pure left))
      comparison-Keeps zero le left = record { at = λ s c l. elim l [ ] }
      comparison-Keeps (suc r) le left =
          on_match_any-Keeps_lt r comparison_types _ _ (tt, (tt, (tt, (tt, (tt, tt)))))
            (λ op.
              bind-Keeps r _ _ (Takes-Keeps fuel r _ (omega arith) unary_fuel)
                (λ right. when-Keeps r _ _ _ (fail_here-Keeps r _) (pure-Keeps r _)))
            (pure-Keeps (suc r) left)

  module _ (types : List TemplateTokenType) (operand : Parser (Expression D))
      (ne : All NotEnd types) (takes : Takes fuel operand) where
    binary_loop-Keeps :
        (b : ℕ) → b ≤ fuel → (left : Expression D) → Keeps b (binary_loop b types operand left)
    unfolding binary_loop
    binary_loop-Keeps zero le left = Reads-exhausted 0 Any
    binary_loop-Keeps (suc r) le left =
        on_match_any-Keeps_lt r types _ _ ne
          (λ op.
            bind-Keeps r _ _ (Takes-Keeps fuel r operand (omega arith) takes)
              (λ right. binary_loop-Keeps r (omega arith) (binary left op right)))
          (pure-Keeps (suc r) left)

    binary_level-Takes : Takes fuel (binary_level fuel types operand)
    unfolding binary_level
    binary_level-Takes = bind-Takes fuel operand _ takes (binary_loop-Keeps fuel (omega arith))

  or-Takes : Takes fuel (parse_or stod fuel expr)
  or-Takes =
      binary_level-Takes (or_or ∷ []) _ (tt, tt)
        (binary_level-Takes (and_and ∷ []) _ (tt, tt)
          (binary_level-Takes (equal_equal ∷ bang_equal ∷ []) _ (tt, (tt, tt)) comparison-Takes))

  filter_call-Keeps :
      (b : ℕ)
      → b ≤ fuel
      → (input : Expression D) (filter : TemplateToken)
      → Keeps b (parse_filter_call stod fuel expr input filter)
  unfolding parse_filter_call
  filter_call-Keeps b le input filter = search (keeps_rules, argument_list-Keeps) depth 12

  pipe_loop-Keeps : (b : ℕ) → b ≤ fuel → (e : Expression D) → Keeps b (pipe_loop stod fuel expr b e)
  unfolding pipe_loop
  pipe_loop-Keeps zero le e = Reads-exhausted 0 Any
  pipe_loop-Keeps (suc r) le e =
      let le' : r ≤ fuel = omega arith in
      on_match-Keeps_lt r pipe _ _ tt
        (λ _.
          bind-Keeps r _ _ (consume-Keeps r identifier _ tt)
            (λ filter. bind-Keeps r _ _ (filter_call-Keeps r le' e filter) (pipe_loop-Keeps r le')))
        (pure-Keeps (suc r) e)

  pipe-Takes : Takes fuel (parse_pipe stod fuel expr)
  unfolding parse_pipe
  pipe-Takes = bind-Takes fuel _ _ or-Takes (pipe_loop-Keeps fuel (omega arith))

module _ {D : Type 0} (stod : Bytes → Option D) (fuel : ℕ) where
  nested-Takes : (left : ℕ) → Takes fuel (parse_nested stod fuel left)
  unfolding parse_nested
  nested-Takes zero = fail_here-Takes fuel _
  nested-Takes (suc left) = pipe-Takes stod fuel _ (nested-Takes left)

  -- Where fewer than `fuel` tokens are left and the last of all is the end of the file, an
  -- expression never runs out of fuel, and where it is parsed it has read a token at least.
  pub expression-Takes : Takes fuel (parse_expression stod fuel)
  unfolding parse_expression
  expression-Takes = nested-Takes max_parser_expression_depth
