-- ===== src/Tests/Bindings.antt =====
-- The names that small tags bind.
use prebyte.Base.{some, [], ◌∷◌, ◌≡◌, refl, str, equal}
use prebyte.Result.{ok}
use prebyte.Template.Token.{identifier, comma, right_paren, end_of_file, is}
use prebyte.Template.Parser.Stream.{Stream, pure, ◌>>=◌, consume, on_match, check, peek}
use prebyte.Template.Parser.Names.{contains_name, is_reserved_name}
use prebyte.Template.Parser.Blocks.{parse_loop_bindings, parse_parameters}
use prebyte.Template.Parser.Bindings.{
  IsFresh, IsBinding, parse_parameters-IsFresh, parse_loop_bindings-IsBinding,
}
use prebyte.Tests.Inputs.{token_at}

-- `a, b)`
abbrev two_names : Stream
two_names = record {
  rest =
      token_at identifier (str "a") 0 1
      ∷ token_at comma (str ",") 1 2
      ∷ token_at identifier (str "b") 3 4
      ∷ token_at right_paren (str ")") 4 5
      ∷ [];
  back = token_at end_of_file [] 5 5;
}

abbrev behind_names : Stream
behind_names = record {
  rest = token_at right_paren (str ")") 4 5 ∷ [];
  back = token_at end_of_file [] 5 5;
}

parameters_run : parse_parameters 3 [] two_names ≡ ok (str "a" ∷ str "b" ∷ [], behind_names)
unfolding parse_parameters pure ◌>>=◌ consume on_match check peek contains_name is_reserved_name
    equal str is
parameters_run = refl

parse_parameters-IsFresh_example : IsFresh [] (str "a" ∷ str "b" ∷ [])
parse_parameters-IsFresh_example =
    parse_parameters-IsFresh 3 two_names behind_names (str "a" ∷ str "b" ∷ []) parameters_run

bindings_run : parse_loop_bindings two_names ≡ ok ((some (str "a"), str "b"), behind_names)
unfolding parse_loop_bindings pure ◌>>=◌ consume on_match check peek contains_name is_reserved_name
    equal str is
bindings_run = refl

parse_loop_bindings-IsBinding_example : IsBinding (some (str "a"), str "b")
parse_loop_bindings-IsBinding_example =
    parse_loop_bindings-IsBinding two_names behind_names (some (str "a"), str "b") bindings_run
