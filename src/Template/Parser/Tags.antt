-- ===== src/Template/Parser/Tags.antt =====
-- The loops of the single tags of template/parser/TemplateParserDirectives.cpp.
use prebyte.Base.{ℕ, zero, suc, Option, [], ◌∷◌, arith, Bytes}
use prebyte.Result.{Ensures-if}
use prebyte.Template.Token.{TemplateTokenType, TemplateToken, tag_open}
use prebyte.Template.Parser.Stream.{consume, when, is_at_end}
use prebyte.Template.Parser.Reads.{
  Any, NotEnd, open-Within, advance_then, Reads-exhausted, Reads-when_at, Reads-consume,
}
use prebyte.Template.Parser.Rules.{
  Keeps, Takes, keeps_rules, Takes-Keeps, fail_at-Keeps, bind-Keeps, bind-Takes_lt, pure-Keeps,
  fail_here-Keeps, if-Keeps,
}
use prebyte.Template.Parser.Levels.{expression-Takes}
use prebyte.Template.Parser.Expressions.{parse_expression}
use prebyte.Template.Parser.Directives.{
  tag_is, raw_loop, require_body, parse_raw_body_until, close_block, unreserved, parse_lua_expr,
  parse_lua_block, parse_if_condition, parse_include, parse_set_statement, parse_interpolation,
}

pub opening-Takes : (b : ℕ) (message : Bytes) → Takes b (consume tag_open message)
opening-Takes b message = Reads-consume b tag_open message tt

raw_loop-Keeps : (b : ℕ) (type : TemplateTokenType) → Keeps b (raw_loop b type)
unfolding raw_loop when
raw_loop-Keeps zero type = Reads-exhausted 0 Any
raw_loop-Keeps (suc r) type =
    Reads-when_at (suc r) 0 Any is_at_end _ _ (λ s c l e. (pure-Keeps (suc r) []).at s c l)
      λ s c l e.
        Ensures-if _ (tag_is type s) _ _ (λ _. (pure-Keeps (suc r) []).at s c l)
          λ _.
            advance_then r 0 _ s (omega arith) c l (open-Within s c e)
              λ t. bind-Keeps r _ _ (raw_loop-Keeps r type) (λ later. pure-Keeps r _)

require_body-Keeps : (b : ℕ) (source : Bytes) → Keeps b (require_body source)
require_body-Keeps b [] = fail_here-Keeps b _
require_body-Keeps b (c ∷ cs) = pure-Keeps b _

pub raw_body-Keeps : (b : ℕ) (type : TemplateTokenType) → Keeps b (parse_raw_body_until b type)
unfolding parse_raw_body_until
raw_body-Keeps b type = bind-Keeps b _ _ (raw_loop-Keeps b type) (require_body-Keeps b)

pub unreserved-Keeps :
    (b : ℕ) (message : Bytes) (t : TemplateToken) → Keeps b (unreserved message t)
unreserved-Keeps b message t = if-Keeps b _ _ _ (fail_at-Keeps b t _) (pure-Keeps b _)

pub close_block-Keeps :
    (b : ℕ) (type : TemplateTokenType) (x y z : Bytes)
    → NotEnd type
    → Keeps b (close_block type x y z)
unfolding close_block
close_block-Keeps b type x y z ne = search (keeps_rules, ne)

module _ {D : Type 0} (stod : Bytes → Option D) (fuel : ℕ) where
  pub expression-Keeps : Keeps fuel (parse_expression stod fuel)
  expression-Keeps = Takes-Keeps fuel fuel _ (omega arith) (expression-Takes stod fuel)

  pub if_condition-Keeps : (name : Bytes) → Keeps fuel (parse_if_condition stod fuel name)
  unfolding parse_if_condition
  if_condition-Keeps name =
      search (keeps_rules, expression-Keeps, raw_body-Keeps, close_block-Keeps) depth 14

  pub lua_expr-Takes : Takes (suc fuel) (parse_lua_expr stod fuel)
  unfolding parse_lua_expr
  lua_expr-Takes =
      bind-Takes_lt fuel _ _ (opening-Takes (suc fuel) _) λ start. search keeps_rules depth 14

  pub lua_block-Takes : Takes (suc fuel) (parse_lua_block stod fuel)
  unfolding parse_lua_block
  lua_block-Takes =
      bind-Takes_lt fuel _ _ (opening-Takes (suc fuel) _)
        λ start. search (keeps_rules, raw_body-Keeps, close_block-Keeps) depth 14

  pub include-Takes : Takes (suc fuel) (parse_include stod fuel)
  unfolding parse_include
  include-Takes =
      bind-Takes_lt fuel _ _ (opening-Takes (suc fuel) _) λ start. search keeps_rules depth 14

  pub set-Takes : Takes (suc fuel) (parse_set_statement stod fuel)
  unfolding parse_set_statement
  set-Takes =
      bind-Takes_lt fuel _ _ (opening-Takes (suc fuel) _)
        λ start. search (keeps_rules, expression-Keeps, unreserved-Keeps) depth 18

  pub interpolation-Takes : Takes (suc fuel) (parse_interpolation stod fuel)
  unfolding parse_interpolation
  interpolation-Takes =
      bind-Takes_lt fuel _ _ (opening-Takes (suc fuel) _)
        λ start. search (keeps_rules, expression-Keeps) depth 14
