-- ===== src/Template/Parser/Termination.antt =====
-- template/parser/TemplateParserCore.cpp: the fuel of `parse_document`.
use prebyte.Base.{
  ℕ, zero, suc, ◌+◌, ◌<◌, Bool, true, Option, List, [], ◌∷◌, ◌≡◌, ◌≢◌, arith, Bytes, length,
}
use prebyte.Result.{Result, ok, err, out_of_fuel, Ensures, Ensures-bind, Ensures-if, Ensures-map}
use prebyte.Template.Token.{TemplateTokenType, TemplateToken, end_of_file, is}
use prebyte.Template.Parser.{parse_nodes_until, parse_from, drop_stream, last_token, parse_document}
use prebyte.Template.Parser.Stream.{Stream, Parser, consume, check, pure, ◌>>=◌}
use prebyte.Template.Parser.Reads.{Any, IsClosed, Reads-exhausted}
use prebyte.Template.Parser.Rules.{
  Keeps, Takes-Keeps, bind-Takes_lt, bind-Keeps, pure-Keeps, when-Keeps,
}
use prebyte.Template.Parser.Bodies.{node-Takes}

module _ {D : Type 0} (stod : Bytes → Option D) (enable_loops : Bool) where
  nodes_until-Keeps :
      (b : ℕ) (types : List TemplateTokenType)
      → Keeps b (parse_nodes_until stod enable_loops b types)
  unfolding parse_nodes_until
  nodes_until-Keeps zero types = Reads-exhausted 0 Any
  nodes_until-Keeps (suc b) types = when-Keeps (suc b) _ _ _ (pure-Keeps (suc b) _) (
      when-Keeps (suc b) _ _ _ (pure-Keeps (suc b) _) (
        Takes-Keeps (suc b) (suc b) _ (omega arith) (
          bind-Takes_lt b _ _ (node-Takes stod enable_loops b _ (nodes_until-Keeps b))
            λ node. bind-Keeps b _ _ (nodes_until-Keeps b types) λ later. pure-Keeps b _)))

  consume-Ensures :
      (type : TemplateTokenType) (message : Bytes) (s : Stream)
      → Ensures Any (consume type message s)
  unfolding consume
  consume-Ensures type message s = Ensures-if Any (check type 0 s) _ _ (λ _. tt) (λ _. tt)

  returns-bind :
      {A B : Type 0} (p : Parser A) (f : A → Parser B) (s : Stream)
      → Ensures Any (p s)
      → ((a : A) (rest : Stream) → Ensures Any (f a rest))
      → Ensures Any ((p >>= f) s)
  unfolding ◌>>=◌
  returns-bind p f s h k = Ensures-bind Any Any (p s) _ h λ r _. k r.0 r.1

  from-Ensures :
      (b : ℕ) (s : Stream)
      → IsClosed s
      → length s.rest < b
      → Ensures Any (parse_from stod enable_loops b s)
  unfolding parse_from pure
  from-Ensures b s c l =
      returns-bind (parse_nodes_until stod enable_loops b []) _ s
        (Ensures-map _ Any _ (λ _ _. tt) ((nodes_until-Keeps b []).at s c l))
        λ children rest.
          returns-bind (consume end_of_file _) _ rest (consume-Ensures end_of_file _ rest) λ _ _. tt

  drop_stream-ne :
      {A : Type 0} (r : Result (A × Stream)) → Ensures Any r → drop_stream r ≢ out_of_fuel
  drop_stream-ne (ok r) h = λ e. cc
  drop_stream-ne (err x) h = λ e. cc
  drop_stream-ne out_of_fuel h = absurd h

  -- On tokens that end with the end of the file, as the lexer's do, the parser returns: it yields a
  -- document or throws, whatever the numerals are and whether loops are enabled or not.
  pub parse_document-ne-out_of_fuel :
      (t : TemplateToken) (ts : List TemplateToken)
      → is (last_token t ts).type end_of_file ≡ true
      → parse_document stod enable_loops (t ∷ ts) ≢ out_of_fuel
  unfolding parse_document
  parse_document-ne-out_of_fuel t ts closed =
      drop_stream-ne _ (from-Ensures (length (t ∷ ts) + 1) _ closed (omega arith))
