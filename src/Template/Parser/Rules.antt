-- ===== src/Template/Parser/Rules.antt =====
-- The rules of `Reads` where nothing is asked of the result, in the form that `search` applies:
-- `Keeps b p` for a parser that may read nothing, `Takes b p` for one that reads a token.
use prebyte.Base.{ℕ, suc, ◌≤◌, Bool, List, arith, Bytes, All, if◌then◌else◌}
use prebyte.Template.Token.{TemplateTokenType, TemplateToken}
use prebyte.Template.Parser.Stream.{
  Stream, Parser, pure, ◌>>=◌, fail_at, fail_here, consume, on_match, on_match_any, when,
}
use prebyte.Template.Parser.Reads.{
  Reads, Any, NotEnd, Reads-pure, Reads-fail_at, Reads-fail_here, Reads-when, Reads-if, Reads-bind,
  Reads-bind_lt, Reads-consume, Reads-advance, Reads-on_match, Reads-on_match_le,
  Reads-on_match_any, Reads-weaken,
}

abbrev pub Keeps : {A : Type 0} → ℕ → Parser A → Type 0
Keeps b p = Reads b 0 Any p

abbrev pub Takes : {A : Type 0} → ℕ → Parser A → Type 0
Takes b p = Reads b 1 Any p

pub consume-Keeps :
    (b : ℕ) (type : TemplateTokenType) (message : Bytes)
    → NotEnd type
    → Keeps b (consume type message)
consume-Keeps b type message ne =
    Reads-weaken b b 0 Any _ (omega arith) (omega arith) (Reads-consume b type message ne)

module _ {A : Type 0} where
  pub pure-Keeps : (b : ℕ) (a : A) → Keeps b (pure a)
  pure-Keeps b a = Reads-pure b Any a tt

  pub fail_at-Keeps :
      (b : ℕ) (t : TemplateToken) (message : Bytes) → Keeps {A = A} b (fail_at t message)
  fail_at-Keeps b t message = Reads-fail_at b 0 Any t message

  pub fail_here-Keeps : (b : ℕ) (message : Bytes) → Keeps {A = A} b (fail_here message)
  fail_here-Keeps b message = Reads-fail_here b 0 Any message

  pub fail_here-Takes : (b : ℕ) (message : Bytes) → Takes {A = A} b (fail_here message)
  fail_here-Takes b message = Reads-fail_here b 1 Any message

  pub when-Keeps :
      (b : ℕ) (test : Stream → Bool) (p q : Parser A)
      → Keeps b p
      → Keeps b q
      → Keeps b (when test p q)
  when-Keeps b test p q hp hq = Reads-when b 0 Any test p q hp hq

  pub when-Takes :
      (b : ℕ) (test : Stream → Bool) (p q : Parser A)
      → Takes b p
      → Takes b q
      → Takes b (when test p q)
  when-Takes b test p q hp hq = Reads-when b 1 Any test p q hp hq

  pub if-Keeps :
      (b : ℕ) (test : Bool) (p q : Parser A)
      → Keeps b p
      → Keeps b q
      → Keeps b (if test then p else q)
  if-Keeps b test p q hp hq = Reads-if b 0 Any test p q (λ _. hp) (λ _. hq)

  module _ (b : ℕ) (type : TemplateTokenType) (found : TemplateToken → Parser A) (other : Parser A)
      (ne : NotEnd type) where
    pub on_match-Keeps :
        ((t : TemplateToken) → Keeps b (found t))
        → Keeps b other
        → Keeps b (on_match type found other)
    on_match-Keeps h k = Reads-on_match_le b 0 Any type found other ne (omega arith) h k

    pub on_match-Takes :
        ((t : TemplateToken) → Keeps b (found t))
        → Takes b other
        → Takes b (on_match type found other)
    on_match-Takes h k = Reads-on_match_le b 1 Any type found other ne (omega arith) h k

    pub on_match-Keeps_lt :
        ((t : TemplateToken) → Keeps b (found t))
        → Keeps (suc b) other
        → Keeps (suc b) (on_match type found other)
    on_match-Keeps_lt h k = Reads-on_match b 0 Any type found other ne (omega arith) h k

    pub on_match-Takes_lt :
        ((t : TemplateToken) → Keeps b (found t))
        → Takes (suc b) other
        → Takes (suc b) (on_match type found other)
    on_match-Takes_lt h k = Reads-on_match b 1 Any type found other ne (omega arith) h k

  pub on_match_any-Keeps_lt :
      (b : ℕ) (types : List TemplateTokenType) (found : TemplateToken → Parser A) (other : Parser A)
      → All NotEnd types
      → ((t : TemplateToken) → Keeps b (found t))
      → Keeps (suc b) other
      → Keeps (suc b) (on_match_any types found other)
  on_match_any-Keeps_lt b types found other ne h k =
      Reads-on_match_any b 0 Any types found other ne (omega arith) h k

  pub Takes-Keeps : (b b' : ℕ) (p : Parser A) → b' ≤ b → Takes b p → Keeps b' p
  Takes-Keeps b b' p le h = Reads-weaken b b' 0 Any p le (omega arith) h

  pub Takes-le : (b b' : ℕ) (p : Parser A) → b' ≤ b → Takes b p → Takes b' p
  Takes-le b b' p le h = Reads-weaken b b' 1 Any p le (omega arith) h

module _ {A B : Type 0} (b : ℕ) (p : Parser A) (f : A → Parser B) where
  pub bind-Keeps : Keeps b p → ((a : A) → Keeps b (f a)) → Keeps b (p >>= f)
  bind-Keeps h k = Reads-bind b 0 0 Any Any p f h (λ a _. k a)

  pub bind-Takes : Takes b p → ((a : A) → Keeps b (f a)) → Takes b (p >>= f)
  bind-Takes h k = Reads-bind b 1 0 Any Any p f h (λ a _. k a)

  -- The first token read lowers the bound for the rest.
  pub bind-Takes_lt : Takes (suc b) p → ((a : A) → Keeps b (f a)) → Takes (suc b) (p >>= f)
  bind-Takes_lt h k = Reads-bind_lt b 0 Any Any p f h (λ a _. k a)

pub ruleset keeps_rules = (
  bind-Keeps, consume-Keeps, pure-Keeps, fail_at-Keeps, fail_here-Keeps, when-Keeps, if-Keeps,
  on_match-Keeps, Reads-advance, tt,
)
