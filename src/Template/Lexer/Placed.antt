-- ===== src/Template/Lexer/Placed.antt =====
-- The order of the spans of tokens, and their places in the source.
use prebyte.Base.{ℕ, ◌≤◌, List, [], ◌∷◌, ◌++◌, ◌≡◌, arith, Bytes, Bool-cases, inl, inr}
use prebyte.Result.{SourceLocation}
use prebyte.Template.Token.{TemplateToken, is, text}
use prebyte.Template.Lexer.Location.{Moves, Moves-trans, Moves-offset}
use prebyte.Template.Lexer.State.{
  Lexer, start_location, trim_right_ascii_whitespace, trim_back, trim_back_token,
}

-- `at` is the line and column of its offset in the source.
abbrev pub Placed : Bytes → SourceLocation → Type 0
Placed source at = (rest : Bytes) × Moves start_location source at rest

-- From offset `from` to offset `to` these tokens follow one another.
abbrev pub Ordered : Bytes → ℕ → List TemplateToken → ℕ → Type 0
Ordered source from [] to = from ≤ to
Ordered source from (t ∷ ts) to =
    (from ≤ t.span.start.offset)
    × (t.span.start.offset ≤ t.span.end.offset)
    × Placed source t.span.start
    × Placed source t.span.end
    × Ordered source t.span.end.offset ts to

pub Ordered-later :
    (source : Bytes) (from : ℕ) (ts : List TemplateToken) (to to' : ℕ)
    → to ≤ to'
    → Ordered source from ts to
    → Ordered source from ts to'
Ordered-later source from [] to to' le h = omega arith
Ordered-later source from (t ∷ ts) to to' le (a, b, p, q, h) =
    (a, b, p, q, Ordered-later source t.span.end.offset ts to to' le h)

pub Ordered-concat :
    (source : Bytes) (from : ℕ) (ts : List TemplateToken) (t : TemplateToken)
    → Ordered source from ts t.span.start.offset
    → t.span.start.offset ≤ t.span.end.offset
    → Placed source t.span.start
    → Placed source t.span.end
    → Ordered source from (ts ++ t ∷ []) t.span.end.offset
Ordered-concat source from [] t h le p q = (h, le, p, q, omega arith)
Ordered-concat source from (u ∷ ts) t (a, b, pu, qu, h) le p q =
    (a, b, pu, qu, Ordered-concat source u.span.end.offset ts t h le p q)

trim_back_token-Ordered :
    (source : Bytes) (from : ℕ) (t : TemplateToken) (to : ℕ)
    → Ordered source from (t ∷ []) to
    → Ordered source from (trim_back_token t) to
trim_back_token-Ordered source from t to (a, b, p, q, h) = go (trim_right_ascii_whitespace t.lexeme)
  where
    go :
        (v : Bytes)
        → Ordered source from (elim v [ [] ↦ [] | c ∷ cs ↦ record t { lexeme = c ∷ cs } ∷ [] ]) to
    go [] = omega arith
    go (c ∷ cs) = (a, b, p, q, h)

pub trim_back-Ordered :
    (source : Bytes) (from : ℕ) (ts : List TemplateToken) (to : ℕ)
    → Ordered source from ts to
    → Ordered source from (trim_back ts) to
unfolding trim_back
trim_back-Ordered source from [] to h = h
trim_back-Ordered source from (t ∷ []) to h = elim (Bool-cases (is t.type text)) [
  | inl yes_text ↦ rw yes_text (trim_back_token-Ordered source from t to h)
  | inr other ↦ rw other h
]
trim_back-Ordered source from (t ∷ u ∷ ts) to (a, b, p, q, h) =
    (a, b, p, q, trim_back-Ordered source t.span.end.offset (u ∷ ts) to h)

-- What every round of the loop keeps.
pub record IsPlaced (source : Bytes) (lx : Lexer) : Type 0 where
  pub here : Moves start_location source lx.at lx.rest
  pub ordered : Ordered source 0 lx.tokens lx.at.offset

-- A token from the cursor to where a scan has moved it.
pub emit-IsPlaced :
    (source : Bytes) (lx lx' : Lexer) (t : TemplateToken)
    → IsPlaced source lx
    → Moves lx.at lx.rest lx'.at lx'.rest
    → t.span.start ≡ lx.at
    → t.span.end ≡ lx'.at
    → lx'.tokens ≡ lx.tokens ++ t ∷ []
    → IsPlaced source lx'
emit-IsPlaced source lx lx' t v m s e k =
    let le : lx.at.offset ≤ lx'.at.offset =
      omega (arith, Moves-offset lx.at lx'.at lx.rest lx'.rest m) in
    record {
      here = Moves-trans v.here m;
      ordered =
          rw (k, ← e)
            (Ordered-concat source 0 lx.tokens t (rw s v.ordered) (rw (s, e) le)
              (rw s (lx.rest, v.here)) (rw e (lx'.rest, Moves-trans v.here m)));
    }

-- The cursor alone moves.
pub move-IsPlaced :
    (source : Bytes) (lx lx' : Lexer)
    → IsPlaced source lx
    → Moves lx.at lx.rest lx'.at lx'.rest
    → lx'.tokens ≡ lx.tokens
    → IsPlaced source lx'
move-IsPlaced source lx lx' v m k = record {
  here = Moves-trans v.here m;
  ordered = rw k (
      Ordered-later source 0 lx.tokens lx.at.offset lx'.at.offset
        (omega (arith, Moves-offset lx.at lx'.at lx.rest lx'.rest m)) v.ordered);
}
