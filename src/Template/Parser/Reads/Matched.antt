-- ===== src/Template/Parser/Reads/Matched.antt =====
-- The rules for the methods that look at a token and read it.
use prebyte.Base.{
  ℕ, zero, suc, ◌+◌, ◌≤◌, ◌<◌, Bool, true, false, List, [], ◌∷◌, ◌≡◌, ◌≢◌, refl, sym, ◌∙◌, arith,
  Bytes, Bool-cases, inl, inr, length, drop, get_or, All,
}
use mathlib.Core.Bool.{false≢true}
use prebyte.Result.{Ensures, Ensures-map, Ensures-if}
use prebyte.Template.Token.{TemplateTokenType, TemplateToken, index, is, end_of_file}
use prebyte.Template.Parser.Stream.{
  Stream, Parser, ◌>>=◌, peek, check, check_any, is_at_end, advance, consume, on_match,
  on_match_any, when, popped,
}
use prebyte.Template.Parser.Reads.Composed.{IsClosed, Within, Reads, Reads-map, Any}

-- A type of tokens that may not stand behind the last one.
abbrev pub NotEnd : TemplateTokenType → Type 0
NotEnd end_of_file = ⊥
NotEnd _ = Unit

NotEnd-index : (type : TemplateTokenType) → NotEnd type → index type ≢ 0
NotEnd-index end_of_file h = absurd h
NotEnd-index _ h = omega arith

head_is-rest :
    (type : TemplateTokenType) (rest : List TemplateToken) (back : TemplateToken)
    → NotEnd type
    → is back.type end_of_file ≡ true
    → is (get_or rest 0 back).type type ≡ true
    → length (drop 1 rest) + 1 ≤ length rest
unfolding is
head_is-rest type [] back ne c h = absurd (NotEnd-index type ne (ground arith))
head_is-rest type (t ∷ ts) back ne c h = omega arith

pub popped-Within :
    (type : TemplateTokenType) (s : Stream)
    → NotEnd type
    → IsClosed s
    → check type 0 s ≡ true
    → Within 1 s (popped s)
unfolding check peek
popped-Within type s ne c h = record {
  shorter = head_is-rest type s.rest s.back ne c h;
  same_back = refl;
}

check_any-Within :
    (types : List TemplateTokenType) (s : Stream)
    → All NotEnd types
    → IsClosed s
    → check_any types 0 s ≡ true
    → Within 1 s (popped s)
unfolding check_any
check_any-Within [] s ne c h = absurd (false≢true h)
check_any-Within (type ∷ types) s ne c h = elim (Bool-cases (check type 0 s)) [
  | inl here ↦ popped-Within type s ne.0 c here
  | inr other ↦ check_any-Within types s ne.1 c (rw other at h)
]

pub Reads-consume :
    (b : ℕ) (type : TemplateTokenType) (message : Bytes)
    → NotEnd type
    → Reads b 1 Any (consume type message)
unfolding consume
Reads-consume b type message ne = record {
  at =
      λ s c l. Ensures-if _ (check type 0 s) _ _ (λ h. (tt, popped-Within type s ne c h)) (λ _. tt);
}

module _ {A : Type 0} where
  -- A token that is matched leaves one less to read.
  pub Reads-on_match :
      (b n : ℕ) (P : A → Type 0) (type : TemplateTokenType) (found : TemplateToken → Parser A)
      (other : Parser A)
      → NotEnd type
      → n ≤ 1
      → ((t : TemplateToken) → Reads b 0 P (found t))
      → Reads (suc b) n P other
      → Reads (suc b) n P (on_match type found other)
  unfolding on_match
  Reads-on_match b n P type found other ne le h k = record {
    at = λ s c l.
        Ensures-if _ (check type 0 s) _ _
          (λ e.
            let w = popped-Within type s ne c e in
            Ensures-map _ _ (found (peek s 0) (popped s))
              (λ r v. (
                v.0,
                record {
                  shorter = omega (arith, w.shorter, v.1.shorter);
                  same_back = v.1.same_back ∙ w.same_back;
                },
              ))
              ((h (peek s 0)).at (popped s) c (omega (arith, w.shorter))))
          (λ _. k.at s c l);
  }

  -- The same at one bound.
  pub Reads-on_match_le :
      (b n : ℕ) (P : A → Type 0) (type : TemplateTokenType) (found : TemplateToken → Parser A)
      (other : Parser A)
      → NotEnd type
      → n ≤ 1
      → ((t : TemplateToken) → Reads b 0 P (found t))
      → Reads b n P other
      → Reads b n P (on_match type found other)
  Reads-on_match_le zero n P type found other ne le h k = record { at = λ s c l. elim l [ ] }
  Reads-on_match_le (suc b) n P type found other ne le h k =
      Reads-on_match b n P type found other ne le
        (λ t. Reads-map (suc b) b 0 0 P P (found t) (omega arith) (omega arith) (λ a x. x) (h t)) k

  pub Reads-on_match_any :
      (b n : ℕ) (P : A → Type 0) (types : List TemplateTokenType) (found : TemplateToken → Parser A)
      (other : Parser A)
      → All NotEnd types
      → n ≤ 1
      → ((t : TemplateToken) → Reads b 0 P (found t))
      → Reads (suc b) n P other
      → Reads (suc b) n P (on_match_any types found other)
  unfolding on_match_any
  Reads-on_match_any b n P types found other ne le h k = record {
    at = λ s c l.
        Ensures-if _ (check_any types 0 s) _ _
          (λ e.
            let w = check_any-Within types s ne c e in
            Ensures-map _ _ (found (peek s 0) (popped s))
              (λ r v. (
                v.0,
                record {
                  shorter = omega (arith, w.shorter, v.1.shorter);
                  same_back = v.1.same_back ∙ w.same_back;
                },
              ))
              ((h (peek s 0)).at (popped s) c (omega (arith, w.shorter))))
          (λ _. k.at s c l);
  }

-- `advance` by itself may stand at the last token.
pub Reads-advance : (b : ℕ) → Reads b 0 Any advance
unfolding advance
Reads-advance b = record {
  at = λ s c l. (tt, record { shorter = drop_le s.rest; same_back = refl });
}
  where
    drop_le : (ts : List TemplateToken) → length (drop 1 ts) + 0 ≤ length ts
    drop_le [] = omega arith
    drop_le (t ∷ ts) = omega arith

-- Fewer tokens, or less to ensure.
pub Reads-weaken :
    {A : Type 0} (b b' n : ℕ) (P : A → Type 0) (p : Parser A)
    → b' ≤ b
    → n ≤ 1
    → Reads b 1 P p
    → Reads b' n P p
Reads-weaken b b' n P p lb ln h = Reads-map b b' 1 n P P p lb ln (λ a x. x) h

-- A choice whose branches use the outcome of the test.
pub Reads-when_at :
    {A : Type 0} (b n : ℕ) (P : A → Type 0) (test : Stream → Bool) (p q : Parser A)
    → ((s : Stream)
        → IsClosed s
        → length s.rest < b
        → test s ≡ true
        → Ensures (λ (r : A × Stream). P r.0 × Within n s r.1) (p s))
    → ((s : Stream)
        → IsClosed s
        → length s.rest < b
        → test s ≡ false
        → Ensures (λ (r : A × Stream). P r.0 × Within n s r.1) (q s))
    → Reads b n P (when test p q)
unfolding when
Reads-when_at b n P test p q hp hq = record {
  at = λ s c l. Ensures-if _ (test s) (p s) (q s) (hp s c l) (hq s c l);
}

pub open-Within : (s : Stream) → IsClosed s → is_at_end s ≡ false → Within 1 s (popped s)
unfolding is_at_end check peek
open-Within s c e = record { shorter = from_rest s.rest e; same_back = refl }
  where
    from_rest :
        (rest : List TemplateToken)
        → is (get_or rest 0 s.back).type end_of_file ≡ false
        → length (drop 1 rest) + 1 ≤ length rest
    from_rest [] e = absurd (false≢true (sym e ∙ c))
    from_rest (t ∷ ts) e = omega arith

-- `advance` where a token stands, and what follows.
pub advance_then :
    {A : Type 0} (b n : ℕ) (f : TemplateToken → Parser A) (s : Stream)
    → n ≤ 1
    → IsClosed s
    → length s.rest < suc b
    → Within 1 s (popped s)
    → ((t : TemplateToken) → Reads b 0 Any (f t))
    → Ensures (λ (r : A × Stream). Any r.0 × Within n s r.1) ((advance >>= f) s)
unfolding ◌>>=◌ advance
advance_then b n f s le c l w h =
    Ensures-map _ _ (f (peek s 0) (popped s))
      (λ r v.
        (tt, record { shorter = omega (arith, w.shorter, v.1.shorter); same_back = v.1.same_back }))
      ((h (peek s 0)).at (popped s) c (omega (arith, w.shorter)))
