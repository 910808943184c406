-- ===== src/Template/Parser/Reads/Composed.antt =====
-- The predicate, and the rules for parsers that are put together.
use prebyte.Base.{
  ℕ, suc, ◌+◌, ◌≤◌, ◌<◌, Bool, true, false, ◌≡◌, refl, ◌∙◌, arith, Bytes, if◌then◌else◌, length,
}
use prebyte.Result.{Ensures, Ensures-bind, Ensures-map, Ensures-if}
use prebyte.Template.Token.{TemplateToken, is, end_of_file}
use prebyte.Template.Parser.Stream.{
  Stream, Parser, pure, exhausted, ◌>>=◌, fail_at, fail_here, when,
}

-- The tokens end as the lexer ends them.
abbrev pub IsClosed : Stream → Type 0
IsClosed s = is s.back.type end_of_file ≡ true

-- At least `n` tokens have been read.
pub record Within (n : ℕ) (s s' : Stream) : Type 0 where
  pub shorter : length s'.rest + n ≤ length s.rest
  pub same_back : s'.back ≡ s.back

module _ {A : Type 0} where
  -- Over fewer than `b` tokens the parser reads at least `n`, and `P` holds of what it returns.
  pub record Reads (b n : ℕ) (P : A → Type 0) (p : Parser A) : Type 0 where
    pub at :
        (s : Stream)
        → IsClosed s
        → length s.rest < b
        → Ensures (λ (r : A × Stream). P r.0 × Within n s r.1) (p s)

  pub Reads-pure : (b : ℕ) (P : A → Type 0) (a : A) → P a → Reads b 0 P (pure a)
  unfolding pure
  Reads-pure b P a h = record {
    at = λ s c l. (h, record { shorter = omega arith; same_back = refl });
  }

  pub Reads-fail_at :
      (b n : ℕ) (P : A → Type 0) (t : TemplateToken) (message : Bytes)
      → Reads b n P (fail_at t message)
  unfolding fail_at
  Reads-fail_at b n P t message = record { at = λ s c l. tt }

  pub Reads-fail_here :
      (b n : ℕ) (P : A → Type 0) (message : Bytes) → Reads b n P (fail_here message)
  unfolding fail_here
  Reads-fail_here b n P message = record { at = λ s c l. tt }

  pub Reads-exhausted : (n : ℕ) (P : A → Type 0) → Reads 0 n P exhausted
  unfolding exhausted
  Reads-exhausted n P = record { at = λ s c l. elim l [ ] }

  pub Reads-map :
      (b b' n n' : ℕ) (P Q : A → Type 0) (p : Parser A)
      → b' ≤ b
      → n' ≤ n
      → ((a : A) → P a → Q a)
      → Reads b n P p
      → Reads b' n' Q p
  Reads-map b b' n n' P Q p lb ln f h = record {
    at = λ s c l.
        Ensures-map _ _ (p s)
          (λ r k.
            (f r.0 k.0, record { shorter = omega (arith, k.1.shorter); same_back = k.1.same_back }))
          (h.at s c (omega arith));
  }

  pub Reads-when :
      (b n : ℕ) (P : A → Type 0) (test : Stream → Bool) (p q : Parser A)
      → Reads b n P p
      → Reads b n P q
      → Reads b n P (when test p q)
  unfolding when
  Reads-when b n P test p q hp hq = record {
    at = λ s c l. Ensures-if _ (test s) (p s) (q s) (λ _. hp.at s c l) (λ _. hq.at s c l);
  }

  pub Reads-if :
      (b n : ℕ) (P : A → Type 0) (test : Bool) (p q : Parser A)
      → (test ≡ true → Reads b n P p)
      → (test ≡ false → Reads b n P q)
      → Reads b n P (if test then p else q)
  Reads-if b n P true p q hp hq = hp refl
  Reads-if b n P false p q hp hq = hq refl

module _ {A B : Type 0} where
  pub Reads-bind :
      (b m n : ℕ) (P : A → Type 0) (Q : B → Type 0) (p : Parser A) (f : A → Parser B)
      → Reads b m P p
      → ((a : A) → P a → Reads b n Q (f a))
      → Reads b (m + n) Q (p >>= f)
  unfolding ◌>>=◌
  Reads-bind b m n P Q p f h k = record {
    at = λ s c l. Ensures-bind _ _ (p s) _ (h.at s c l) λ r w.
        Ensures-map _ _ (f r.0 r.1)
          (λ q v. (
            v.0,
            record {
              shorter = omega (arith, w.1.shorter, v.1.shorter);
              same_back = v.1.same_back ∙ w.1.same_back;
            },
          ))
          ((k r.0 w.0).at r.1 (rw w.1.same_back c) (omega (arith, w.1.shorter)));
  }

  -- Behind a token the bound is one less.
  pub Reads-bind_lt :
      (b n : ℕ) (P : A → Type 0) (Q : B → Type 0) (p : Parser A) (f : A → Parser B)
      → Reads (suc b) 1 P p
      → ((a : A) → P a → Reads b n Q (f a))
      → Reads (suc b) 1 Q (p >>= f)
  unfolding ◌>>=◌
  Reads-bind_lt b n P Q p f h k = record {
    at = λ s c l. Ensures-bind _ _ (p s) _ (h.at s c l) λ r w.
        Ensures-map _ _ (f r.0 r.1)
          (λ q v. (
            v.0,
            record {
              shorter = omega (arith, w.1.shorter, v.1.shorter);
              same_back = v.1.same_back ∙ w.1.same_back;
            },
          ))
          ((k r.0 w.0).at r.1 (rw w.1.same_back c) (omega (arith, w.1.shorter)));
  }

abbrev pub Any {ℓ} : {A : Type ℓ} → A → Type 0
Any _ = Unit
