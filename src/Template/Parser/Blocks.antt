-- ===== src/Template/Parser/Blocks.antt =====
-- template/parser/TemplateParserDirectives.cpp and TemplateParserNodes.cpp: the tags that hold
-- other nodes, and the choice between all tags.
use prebyte.Base.{
  ℕ, zero, suc, Bool, ◌&&◌, Option, none, some, List, [], ◌∷◌, ◌++◌, Bytes, str, equal,
  if◌then◌else◌,
}
use prebyte.Template.Token.{
  TemplateTokenType, TemplateToken, text, tag_open, tag_close, identifier, keyword_for, keyword_in,
  keyword_if, keyword_else_if, keyword_else, keyword_end_if, keyword_end_for, keyword_include,
  keyword_set, keyword_fn, keyword_end_fn, keyword_lua, keyword_lua_block, left_paren, right_paren,
  comma,
}
use prebyte.Template.Node.{
  FunctionMode, template, lua, Node, Nodes, Branches, text_node, if_node, for_node,
  function_def_node, no_nodes, no_branches, more_branches,
}
use prebyte.Template.Parser.Names.{contains_name}
use prebyte.Template.Parser.Stream.{
  Stream, Parser, pure, exhausted, ◌>>=◌, ◌>>◌, fail_at, fail_here, peek, check, check_any, advance,
  consume, on_match, when,
}
use prebyte.Template.Parser.Expressions.{parse_expression}
use prebyte.Template.Parser.Directives.{
  trimmed_base, plain_base, tag_is, parse_raw_body_until, close_block, unreserved, parse_lua_expr,
  parse_lua_block, parse_if_condition, parse_include, parse_set_statement, parse_interpolation,
}

abbrev pub distinct_names : Bytes → Bytes → TemplateToken → Parser (Option Bytes × Bytes)
distinct_names name value second =
    if equal name value
    then fail_at second (str "Loop binding names must be distinct")
    else pure (some name, value)

-- The names that a loop binds: the key, if there are two, and the value.
unfoldable pub parse_loop_bindings : Parser (Option Bytes × Bytes)
parse_loop_bindings = do
  first ← consume identifier (str "Expected loop binding name after for")
  name ← unreserved (str "Reserved loop variable name: ") first
  on_match comma
      (λ _. do
        second ← consume identifier (str "Expected second loop binding name after ','")
        value ← unreserved (str "Reserved loop variable name: ") second
        distinct_names name value second)
      (pure (none, name))

abbrev pub unseen : List Bytes → Bytes → TemplateToken → Parser Bytes
unseen seen name parameter =
    if contains_name seen name
    then fail_at parameter (str "Duplicate parameter name: " ++ name)
    else pure name

-- The parameters from the next one on, none of which may be among those seen.
unfoldable pub parse_parameters : ℕ → List Bytes → Parser (List Bytes)
parse_parameters zero seen = exhausted
parse_parameters (suc fuel) seen = do
  parameter ← consume identifier (str "Expected parameter name")
  name ← unreserved (str "Reserved parameter name: ") parameter
  unseen seen name parameter
  later ← on_match comma (λ _. parse_parameters fuel (name ∷ seen)) (pure [])
  pure (name ∷ later)

module _ {D : Type 0} (stod : Bytes → Option D) (enable_loops : Bool) (fuel : ℕ)
    (parse_nodes_until : List TemplateTokenType → Parser (Nodes D)) where
  abbrev after_branch : List TemplateTokenType
  after_branch = keyword_else_if ∷ keyword_else ∷ keyword_end_if ∷ []

  -- The branch of `else`, if there is one.
  unfoldable pub parse_else_branch : Parser (Branches D)
  parse_else_branch =
      when (tag_is keyword_else)
        (do
          advance
          advance
          consume tag_close (str "Expected tag end after else")
          body ← parse_nodes_until (keyword_end_if ∷ [])
          pure (more_branches none body no_branches))
        (pure no_branches)

  -- The branches of `elseif`, and what follows them.
  unfoldable pub else_if_loop : ℕ → Parser (Branches D)
  else_if_loop zero = exhausted
  else_if_loop (suc rounds) =
      when (tag_is keyword_else_if)
        (do
          advance
          advance
          condition ← parse_if_condition stod fuel (str "elseif")
          body ← parse_nodes_until after_branch
          later ← else_if_loop rounds
          pure (more_branches (some condition) body later))
        parse_else_branch

  unfoldable pub parse_if_block : Parser (Node D)
  parse_if_block = do
    start ← consume tag_open (str "Expected tag start")
    consume keyword_if (str "Expected if keyword")
    condition ← parse_if_condition stod fuel (str "if")
    body ← parse_nodes_until after_branch
    later ← else_if_loop fuel
    end ←
        close_block keyword_end_if (str "Expected tag start before endif")
          (str "Expected endif keyword") (str "Expected tag end after endif")
    pure (if_node (more_branches (some condition) body later) (trimmed_base start end))

  unfoldable pub parse_else_body : Parser (Nodes D)
  parse_else_body =
      when (tag_is keyword_else)
        (do
          advance
          advance
          consume tag_close (str "Expected tag end after else")
          parse_nodes_until (keyword_end_for ∷ []))
        (pure no_nodes)

  unfoldable pub parse_for_block : Parser (Node D)
  parse_for_block = do
    start ← consume tag_open (str "Expected tag start")
    consume keyword_for (str "Expected for keyword")
    names ← parse_loop_bindings
    consume keyword_in (str "Expected 'in' after loop binding")
    iterable ← parse_expression stod fuel
    consume tag_close (str "Expected tag end after for expression")
    body ← parse_nodes_until (keyword_else ∷ keyword_end_for ∷ [])
    else_body ← parse_else_body
    end ←
        close_block keyword_end_for (str "Expected tag start before endfor")
          (str "Expected endfor keyword") (str "Expected tag end after endfor")
    pure (for_node names.1 names.0 iterable body else_body (trimmed_base start end))

  abbrev pub close_function : Parser TemplateToken
  close_function =
      close_block keyword_end_fn (str "Expected tag start before endfn")
        (str "Expected endfn keyword") (str "Expected tag end after endfn")

  -- The body of a function whose header ends in `lua:block`, or of any other.
  unfoldable pub parse_function_body :
      TemplateToken → Bytes → List Bytes → FunctionMode → Parser (Node D)
  parse_function_body start name parameters lua = do
    consume tag_close (str "Expected tag end after function lua:block header")
    source ← parse_raw_body_until fuel keyword_end_fn
    end ← close_function
    pure (function_def_node name parameters lua no_nodes source (trimmed_base start end))
  parse_function_body start name parameters template = do
    consume tag_close (str "Expected tag end after function header")
    body ← parse_nodes_until (keyword_end_fn ∷ [])
    end ← close_function
    pure (function_def_node name parameters template body [] (trimmed_base start end))

  unfoldable pub parse_function_definition : Parser (Node D)
  parse_function_definition = do
    start ← consume tag_open (str "Expected tag start")
    consume keyword_fn (str "Expected fn keyword")
    token ← consume identifier (str "Expected function name after fn")
    name ← unreserved (str "Reserved function name: ") token
    consume left_paren (str "Expected '(' after function name")
    parameters ← when (check right_paren 0) (pure []) (parse_parameters fuel [])
    consume right_paren (str "Expected ')' after function parameters")
    mode ← on_match keyword_lua_block (λ _. pure lua) (pure template)
    parse_function_body start name parameters mode

  abbrev terminators : List TemplateTokenType
  terminators =
      keyword_else_if ∷ keyword_else ∷ keyword_end_if ∷ keyword_end_for ∷ keyword_end_fn ∷ []

  abbrev is_while : Stream → Bool
  is_while s = tag_is identifier s && equal (peek s 1).lexeme (str "while")

  -- An error at the token behind the opening one.
  unfoldable pub fail_next : Bytes → Parser (Node D)
  fail_next message s = fail_at (peek s 1) message s

  unfoldable pub parse_tag : Parser (Node D)
  parse_tag = when (tag_is keyword_if) parse_if_block (
      when (tag_is keyword_for)
        (if enable_loops
          then parse_for_block
          else fail_next (str "Loop directives are reserved for a later phase"))
        (when (tag_is keyword_set) (parse_set_statement stod fuel) (
          when (tag_is keyword_fn) parse_function_definition (
            when (tag_is keyword_lua) (parse_lua_expr stod fuel) (
              when (tag_is keyword_lua_block) (parse_lua_block stod fuel) (
                when is_while (fail_next (str "Loop directives are reserved for a later phase")) (
                  when (tag_is keyword_include) (parse_include stod fuel) (
                    when (λ s. check tag_open 0 s && check_any terminators 1 s)
                      (fail_next (str "Unexpected control-flow terminator"))
                      (parse_interpolation stod fuel)))))))))

  unfoldable pub parse_node : Parser (Node D)
  parse_node =
      when (check text 0)
        (do token ← advance; pure (text_node token.lexeme (plain_base token.span)))
        (when (check tag_open 0) parse_tag (fail_here (str "Expected text or tag")))
