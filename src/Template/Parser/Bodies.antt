-- ===== src/Template/Parser/Bodies.antt =====
-- The loops of the tags that hold other nodes, and of the choice between all tags, in
-- template/parser/TemplateParserDirectives.cpp and TemplateParserNodes.cpp.
use prebyte.Base.{
  ℕ, zero, suc, ◌≤◌, Bool, true, false, ◌&&◌, ◌≡◌, refl, if◌then◌else◌, Option, List, [], ◌∷◌,
  arith, Bytes,
}
use prebyte.Template.Token.{
  TemplateTokenType, TemplateToken, identifier, comma, text, tag_open, keyword_else_if,
}
use prebyte.Template.Node.{FunctionMode, lua, template, Node, Nodes}
use prebyte.Template.Parser.Stream.{Stream, Parser, check, fail_at}
use prebyte.Template.Parser.Reads.{
  Any, popped-Within, advance_then, Reads-exhausted, Reads-when_at, Reads-consume, Reads-advance,
  Reads-map,
}
use prebyte.Template.Parser.Rules.{
  Keeps, Takes, keeps_rules, Takes-Keeps, bind-Keeps, bind-Takes_lt, pure-Keeps, fail_here-Takes,
  on_match-Keeps, when-Takes,
}
use prebyte.Template.Parser.Tags.{
  opening-Takes, unreserved-Keeps, raw_body-Keeps, close_block-Keeps, expression-Keeps,
  if_condition-Keeps, lua_expr-Takes, lua_block-Takes, include-Takes, set-Takes,
  interpolation-Takes,
}
use prebyte.Template.Parser.Directives.{tag_is}
use prebyte.Template.Parser.Blocks.{
  distinct_names, parse_loop_bindings, unseen, parse_parameters, parse_else_branch, else_if_loop,
  parse_if_block, parse_else_body, parse_for_block, parse_function_body, parse_function_definition,
  fail_next, parse_tag, parse_node,
}

distinct_names-Keeps :
    (b : ℕ) (name value : Bytes) (t : TemplateToken) → Keeps b (distinct_names name value t)
distinct_names-Keeps b name value t = search keeps_rules

loop_bindings-Keeps : (b : ℕ) → Keeps b parse_loop_bindings
unfolding parse_loop_bindings
loop_bindings-Keeps b = search (keeps_rules, unreserved-Keeps, distinct_names-Keeps) depth 14

unseen-Keeps :
    (b : ℕ) (seen : List Bytes) (name : Bytes) (t : TemplateToken) → Keeps b (unseen seen name t)
unseen-Keeps b seen name t = search keeps_rules

parameters-Takes : (b : ℕ) (seen : List Bytes) → Takes b (parse_parameters b seen)
unfolding parse_parameters
parameters-Takes zero seen = Reads-exhausted 1 Any
parameters-Takes (suc r) seen =
    bind-Takes_lt r _ _ (Reads-consume (suc r) identifier _ tt) λ parameter.
      bind-Keeps r _ _ (unreserved-Keeps r _ parameter) λ name.
        bind-Keeps r _ _ (unseen-Keeps r seen name parameter) λ _.
          bind-Keeps r _ _
            (on_match-Keeps r comma _ _ tt
              (λ _. Takes-Keeps r r _ (omega arith) (parameters-Takes r (name ∷ seen)))
              (pure-Keeps r []))
            (λ later. pure-Keeps r _)

parameters-Keeps : (b : ℕ) (seen : List Bytes) → Keeps b (parse_parameters b seen)
parameters-Keeps b seen = Takes-Keeps b b _ (omega arith) (parameters-Takes b seen)

tag_is-check :
    (type : TemplateTokenType) (s : Stream) → tag_is type s ≡ true → check tag_open 0 s ≡ true
tag_is-check type s e = and_left (check tag_open 0 s) (check type 1 s) e
  where
    and_left : (a b : Bool) → (a && b) ≡ true → a ≡ true
    and_left true b e = refl
    and_left false b e = e

module _ {D : Type 0} (stod : Bytes → Option D) (enable_loops : Bool) (fuel : ℕ)
    (nodes_until : List TemplateTokenType → Parser (Nodes D))
    (bodies : (types : List TemplateTokenType) → Keeps fuel (nodes_until types)) where
  bodies-Keeps : (b : ℕ) → b ≤ fuel → (types : List TemplateTokenType) → Keeps b (nodes_until types)
  bodies-Keeps b le types =
      Reads-map fuel b 0 0 Any Any _ le (omega arith) (λ a x. x) (bodies types)

  else_branch-Keeps :
      (b : ℕ) → b ≤ fuel → Keeps b (parse_else_branch stod enable_loops fuel nodes_until)
  unfolding parse_else_branch
  else_branch-Keeps b le = search (keeps_rules, bodies-Keeps) depth 14

  else_if_loop-Keeps :
      (b : ℕ) → b ≤ fuel → Keeps b (else_if_loop stod enable_loops fuel nodes_until b)
  unfolding else_if_loop
  else_if_loop-Keeps zero le = Reads-exhausted 0 Any
  else_if_loop-Keeps (suc r) le =
      let le' : r ≤ fuel = omega arith in
      Reads-when_at (suc r) 0 Any _ _ _
        (λ s c l e.
          advance_then r 0 _ s (omega arith) c l
            (popped-Within tag_open s tt c (tag_is-check keyword_else_if s e))
            λ _. bind-Keeps r _ _ (Reads-advance r) λ _.
              bind-Keeps r _ _
                (Reads-map fuel r 0 0 Any Any _ le' (omega arith) (λ a x. x)
                  (if_condition-Keeps stod fuel _))
                λ _.
                  bind-Keeps r _ _ (bodies-Keeps r le' _)
                    λ _. bind-Keeps r _ _ (else_if_loop-Keeps r le') λ _. pure-Keeps r _)
        (λ s c l e. (else_branch-Keeps (suc r) le).at s c l)

  else_ifs-Keeps : Keeps fuel (else_if_loop stod enable_loops fuel nodes_until fuel)
  else_ifs-Keeps = else_if_loop-Keeps fuel (omega arith)

  if_block-Takes : Takes (suc fuel) (parse_if_block stod enable_loops fuel nodes_until)
  unfolding parse_if_block
  if_block-Takes = bind-Takes_lt fuel _ _ (opening-Takes (suc fuel) _) λ start.
      search (keeps_rules, if_condition-Keeps, bodies, else_ifs-Keeps, close_block-Keeps) depth 18

  else_body-Keeps : Keeps fuel (parse_else_body stod enable_loops fuel nodes_until)
  unfolding parse_else_body
  else_body-Keeps = search (keeps_rules, bodies) depth 14

  for_block-Takes : Takes (suc fuel) (parse_for_block stod enable_loops fuel nodes_until)
  unfolding parse_for_block
  for_block-Takes = bind-Takes_lt fuel _ _ (opening-Takes (suc fuel) _) λ start.
      search
        (
          keeps_rules, loop_bindings-Keeps, expression-Keeps, bodies, else_body-Keeps,
          close_block-Keeps,
        )
        depth 24

  function_body-Keeps :
      (start : TemplateToken) (name : Bytes) (parameters : List Bytes) (mode : FunctionMode)
      → Keeps fuel
          (parse_function_body stod enable_loops fuel nodes_until start name parameters mode)
  unfolding parse_function_body
  function_body-Keeps start name parameters lua =
      search (keeps_rules, raw_body-Keeps, close_block-Keeps) depth 14
  function_body-Keeps start name parameters template =
      search (keeps_rules, bodies, close_block-Keeps) depth 14

  function-Takes : Takes (suc fuel) (parse_function_definition stod enable_loops fuel nodes_until)
  unfolding parse_function_definition
  function-Takes = bind-Takes_lt fuel _ _ (opening-Takes (suc fuel) _) λ start.
      search (keeps_rules, unreserved-Keeps, parameters-Keeps, function_body-Keeps) depth 24

  fail_next-Takes :
      (b : ℕ) (message : Bytes) → Takes b (fail_next stod enable_loops fuel nodes_until message)
  unfolding fail_next fail_at
  fail_next-Takes b message = record { at = λ s c l. tt }

  for-Takes :
      (enabled : Bool) (p q : Parser (Node D))
      → Takes (suc fuel) p
      → Takes (suc fuel) q
      → Takes (suc fuel) (if enabled then p else q)
  for-Takes true p q hp hq = hp
  for-Takes false p q hp hq = hq

  tag-Takes : Takes (suc fuel) (parse_tag stod enable_loops fuel nodes_until)
  unfolding parse_tag
  tag-Takes =
      search
        (
          when-Takes, for-Takes, fail_next-Takes, if_block-Takes, for_block-Takes, set-Takes,
          function-Takes, lua_expr-Takes, lua_block-Takes, include-Takes, interpolation-Takes,
        )
        depth 14

  pub node-Takes : Takes (suc fuel) (parse_node stod enable_loops fuel nodes_until)
  unfolding parse_node
  node-Takes =
      Reads-when_at (suc fuel) 1 Any _ _ _
        (λ s c l e.
          advance_then fuel 1 _ s (omega arith) c l (popped-Within text s tt c e)
            λ token. pure-Keeps fuel _)
        (λ s c l e. (when-Takes (suc fuel) _ _ _ tag-Takes (fail_here-Takes (suc fuel) _)).at s c l)
