-- ===== src/Template/Lexer/Loop.antt =====
-- Two rules for the loop of `lex`: what it yields by an invariant, and that it ends by a measure.
use prebyte.Base.{ℕ, zero, suc, ◌<◌, List, [], ◌∷◌, ◌≡◌, ◌≢◌, refl, arith, Bytes}
use prebyte.Result.{Result, ok, err, out_of_fuel, ◌>>=◌, Ensures, Ensures-bind, Ensures-if, Yields}
use prebyte.Template.Token.{TemplateToken}
use prebyte.Template.Lexer.{round, finish, run, at_end}
use prebyte.Template.Lexer.State.{Delimiters, Lexer}

at_end-Yields :
    {A : Type 0} (Q : A → Type 0) (rest : Bytes) (m n : Result A)
    → (rest ≡ [] → Yields Q m)
    → Yields Q n
    → Yields Q (at_end rest m n)
at_end-Yields Q [] m n hm hn = hm refl
at_end-Yields Q (_ ∷ _) m n hm hn = hn

at_end-Ensures :
    {A : Type 0} (Q : A → Type 0) (rest : Bytes) (m n : Result A)
    → Ensures Q m
    → (rest ≢ [] → Ensures Q n)
    → Ensures Q (at_end rest m n)
at_end-Ensures Q [] m n hm hn = hm
at_end-Ensures Q (c ∷ cs) m n hm hn = hn (λ e. cc)

Yields-bind :
    {A B : Type 0} (P : A → Type 0) (Q : B → Type 0) (m : Result A) (f : A → Result B)
    → Ensures P m
    → ((a : A) → P a → Yields Q (f a))
    → Yields Q (m >>= f)
Yields-bind P Q (ok a) f h k = k a h
Yields-bind P Q (err e) f h k = tt
Yields-bind P Q out_of_fuel f h k = tt

finish-Ensures : (d : Delimiters) (lx : Lexer) → Ensures (λ _. Unit) (finish d lx)
unfolding finish
finish-Ensures d lx = Ensures-if _ lx.inside_tag _ _ (λ _. tt) (λ _. tt)

module _ (d : Delimiters) (P : Lexer → Type 0) where
  module _ (Q : List TemplateToken → Type 0) (keeps : (lx : Lexer) → P lx → Ensures P (round d lx))
      (ends : (lx : Lexer) → P lx → lx.rest ≡ [] → Yields Q (finish d lx)) where
    pub run-Yields : (fuel : ℕ) (lx : Lexer) → P lx → Yields Q (run d fuel lx)
    unfolding run
    run-Yields zero lx h = tt
    run-Yields (suc fuel) lx h =
        at_end-Yields Q lx.rest _ _ (ends lx h)
          (Yields-bind P Q (round d lx) (run d fuel) (keeps lx h) (run-Yields fuel))

  module _ (measure : Lexer → ℕ)
      (falls : (lx : Lexer)
        → P lx
        → lx.rest ≢ []
        → Ensures (λ next. P next × (measure next < measure lx)) (round d lx)) where
    -- The loop has ended before the fuel has.
    pub run-Ensures :
        (fuel : ℕ) (lx : Lexer) → measure lx < fuel → P lx → Ensures (λ _. Unit) (run d fuel lx)
    unfolding run
    run-Ensures zero lx m h = absurd (omega arith)
    run-Ensures (suc fuel) lx m h = at_end-Ensures _ lx.rest _ _ (finish-Ensures d lx) λ left.
        Ensures-bind _ _ (round d lx) (run d fuel) (falls lx h left)
          λ next k. run-Ensures fuel next (omega arith) k.0
