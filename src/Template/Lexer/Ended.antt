-- ===== src/Template/Lexer/Ended.antt =====
-- template/lexer/TemplateLexerCore.cpp: the end of the token list.
use prebyte.Base.{true, List, [], ◌∷◌, ◌++◌, ◌≡◌, inl, inr, refl, arith, Bytes, Bool-cases}
use prebyte.Result.{Yields}
use prebyte.Template.Token.{TemplateToken, end_of_file, is}
use prebyte.Template.Lexer.{finish, lex, enough}
use prebyte.Template.Lexer.State.{Delimiters, Lexer, initial, start_location}
use prebyte.Template.Lexer.Location.{Moves-refl}
use prebyte.Template.Lexer.Loop.{run-Yields}
use prebyte.Template.Lexer.Placed.{IsPlaced}
use prebyte.Template.Lexer.Spans.{round-IsPlaced}

-- The last of some tokens is the end of the file.
abbrev pub IsEnded : List TemplateToken → Type 0
IsEnded [] = ⊥
IsEnded (t ∷ []) = is t.type end_of_file ≡ true
IsEnded (t ∷ u ∷ ts) = IsEnded (u ∷ ts)

append-IsEnded :
    (ts : List TemplateToken) (last : TemplateToken)
    → is last.type end_of_file ≡ true
    → IsEnded (ts ++ last ∷ [])
append-IsEnded [] last e = e
append-IsEnded (t ∷ []) last e = e
append-IsEnded (t ∷ u ∷ ts) last e = append-IsEnded (u ∷ ts) last e

module _ (d : Delimiters) (source : Bytes) where
  finish-IsEnded : (lx : Lexer) → Yields IsEnded (finish d lx)
  unfolding finish is
  finish-IsEnded lx = elim (Bool-cases lx.inside_tag) [
    | inl unclosed ↦ rw unclosed tt
    | inr closed ↦ rw closed (append-IsEnded lx.tokens _ refl)
  ]

  -- Where the lexer yields tokens, the last of them is the end of the file.
  pub lex-IsEnded : Yields IsEnded (lex d source)
  unfolding lex
  lex-IsEnded =
      run-Yields d (IsPlaced source) IsEnded (round-IsPlaced d source) (λ lx _ _. finish-IsEnded lx)
        (enough source) (initial source)
        (record { here = Moves-refl start_location source; ordered = omega arith })
