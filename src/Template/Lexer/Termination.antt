-- ===== src/Template/Lexer/Termination.antt =====
-- template/lexer/TemplateLexerCore.cpp: the fuel of the loop of `lex`.
use prebyte.Base.{
  ℕ, ◌*◌, ◌+◌, ◌<◌, ◌⊎◌, Bool, true, false, [], ◌≡◌, ◌≢◌, arith, Bytes, inl, inr, length,
}
use prebyte.Result.{Ensures-map, Ensures-ne, out_of_fuel, Ensures, Ensures-if}
use prebyte.Template.Lexer.State.{Delimiters, Lexer}
use prebyte.Template.Lexer.Texts.{lex_text}
use prebyte.Template.Lexer.Tag.{lex_inside_tag}
use prebyte.Template.Lexer.Progress.{TextProgress, TagProgress, lex_text-progress}
use prebyte.Template.Lexer.Loop.{run-Ensures}
use prebyte.Template.Lexer.{round, lex, enough}
use prebyte.Template.Lexer.State.{initial}
use prebyte.Template.Lexer.Rounds.{lex_inside_tag-progress}

-- A tag that is open counts for one, or a text, whichever may have an empty delimiter.
abbrev weight : Bool → Bool → ℕ
weight true true = 1
weight true false = 0
weight false true = 0
weight false false = 1

-- Twice the bytes that are left, and the weight of the mode.
abbrev measure : Bool → Lexer → ℕ
measure tags lx = 2 * length lx.rest + weight tags lx.inside_tag

start_measure : (tags : Bool) (source : Bytes) → measure tags (initial source) < enough source
start_measure true source = omega arith
start_measure false source = omega arith

module _ (d : Delimiters) where
  -- The delimiter that is not empty: the prefix, or the suffix.
  abbrev pub NonEmpty : Bool → Type 0
  NonEmpty true = d.tag_prefix ≢ []
  NonEmpty false = d.tag_suffix ≢ []

  text_falls :
      (tags : Bool) (lx next : Lexer)
      → NonEmpty tags
      → lx.inside_tag ≡ false
      → TextProgress d lx next
      → measure tags next < measure tags lx
  text_falls true lx next ne out (inr (le, opened, empty)) = absurd (ne empty)
  text_falls true lx next ne out (inl lt) = ground arith
  text_falls false lx next ne out (inl lt) = ground arith
  text_falls false lx next ne out (inr (le, opened, empty)) = ground arith

  tag_falls :
      (tags : Bool) (lx next : Lexer)
      → NonEmpty tags
      → lx.inside_tag ≡ true
      → TagProgress d lx next
      → measure tags next < measure tags lx
  tag_falls false lx next ne inside (inr (le, closed, empty)) = absurd (ne empty)
  tag_falls false lx next ne inside (inl lt) = ground arith
  tag_falls true lx next ne inside (inl lt) = ground arith
  tag_falls true lx next ne inside (inr (le, closed, empty)) = ground arith

  round_falls :
      (tags : Bool) (lx : Lexer)
      → NonEmpty tags
      → lx.rest ≢ []
      → Ensures (λ next. Unit {0} × (measure tags next < measure tags lx)) (round d lx)
  unfolding round
  round_falls tags lx ne left =
      Ensures-if _ lx.inside_tag _ _
        (λ inside.
          Ensures-map (TagProgress d lx) _ (lex_inside_tag d lx)
            (λ next p. (tt, tag_falls tags lx next ne inside p))
            (lex_inside_tag-progress d lx left))
        (λ out. (tt, text_falls tags lx (lex_text d lx) ne out (lex_text-progress d lx left)))

  lex-Ensures :
      (tags : Bool) (source : Bytes) → NonEmpty tags → Ensures (λ _. Unit {0}) (lex d source)
  unfolding lex
  lex-Ensures tags source ne =
      run-Ensures d (λ _. Unit {0}) (measure tags) (λ lx _. round_falls tags lx ne) (enough source)
        (initial source) (start_measure tags source) tt

  -- The lexer ends on every source, with tokens or an error, if one of the delimiters is not empty.
  pub lex-ne-out_of_fuel :
      (source : Bytes) → (d.tag_prefix ≢ []) ⊎ (d.tag_suffix ≢ []) → lex d source ≢ out_of_fuel
  lex-ne-out_of_fuel source (inl ne) = Ensures-ne _ (lex d source) (lex-Ensures true source ne)
  lex-ne-out_of_fuel source (inr ne) = Ensures-ne _ (lex d source) (lex-Ensures false source ne)
