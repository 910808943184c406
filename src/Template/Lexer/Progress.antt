-- ===== src/Template/Lexer/Progress.antt =====
-- How far the methods of `TemplateLexer` that read a text or a tag get.
use prebyte.Base.{
  ℕ, not, ◌≤◌, ◌<◌, ◌⊎◌, Bool, true, false, [], ◌∷◌, ◌≡◌, ◌≢◌, refl, sym, ◌∙◌, arith, Bytes, ◌==◌,
  ◌&&◌, Bool-cases, inl, inr, length, ap,
}
use prebyte.Result.{SourceLocation, IfSome}
use prebyte.Template.Lexer.Cursor.{step, scan_while, advance_literal}
use prebyte.Template.Lexer.Location.{Moves, Moves-offset, scan_while-Moves, advance_literal-Moves}
use prebyte.Template.Lexer.State.{Delimiters, Lexer, peek, match_literal}
use prebyte.Template.Lexer.Texts.{open_tag, add_text, read_text, after_text, lex_text}
use prebyte.Template.Lexer.Tag.{try_lex_tag_close}

pub Moves-le :
    {at at' : SourceLocation} (rest rest' : Bytes)
    → Moves at rest at' rest'
    → length rest' ≤ length rest
Moves-le {at} {at'} rest rest' m = (Moves-offset at at' rest rest' m).1

pub scan_while-le :
    (test : Bytes → Bool) (at : SourceLocation) (rest : Bytes)
    → length (scan_while test at rest).rest ≤ length rest
scan_while-le test at rest = Moves-le rest _ (scan_while-Moves test at rest).0

-- A test that takes the first byte.
pub scan_while-lt :
    (test : Bytes → Bool) (at : SourceLocation) (ch : ℕ) (rest : Bytes)
    → test (ch ∷ rest) ≡ true
    → length (scan_while test at (ch ∷ rest)).rest < length (ch ∷ rest)
unfolding scan_while
scan_while-lt test at ch rest h = rw h (omega (arith, scan_while-le test (step ch at) rest))

pub advance_literal-le :
    (literal : Bytes) (at : SourceLocation) (rest : Bytes)
    → length (advance_literal literal at rest).rest ≤ length rest
advance_literal-le literal at rest = Moves-le rest _ (advance_literal-Moves literal at rest)

pub advance_literal-lt :
    (literal : Bytes) (at : SourceLocation) (rest : Bytes)
    → literal ≢ []
    → rest ≢ []
    → length (advance_literal literal at rest).rest < length rest
unfolding advance_literal
advance_literal-lt [] at rest h k = absurd (h refl)
advance_literal-lt (_ ∷ literal) at [] h k = absurd (k refl)
advance_literal-lt (_ ∷ literal) at (ch ∷ rest) h k =
    omega (arith, advance_literal-le literal (step ch at) rest)

-- A loop that has not moved stands where its test fails.
pub scan_while-cases :
    (test : Bytes → Bool) (at : SourceLocation) (rest : Bytes)
    → rest ≢ []
    → (length (scan_while test at rest).rest < length rest)
      ⊎ (((scan_while test at rest).rest ≡ rest) × (test rest ≡ false))
scan_while-cases test at [] h = absurd (h refl)
scan_while-cases test at (ch ∷ rest) h = elim (Bool-cases (test (ch ∷ rest))) [
  | inl more ↦ inl (scan_while-lt test at ch rest more)
  | inr done ↦ inr (unfold scan_while in rw done, done)
]

module _ (d : Delimiters) where
  open_tag-le :
      (lx : Lexer)
      → length (open_tag d lx).rest ≤ length (advance_literal d.tag_prefix lx.at lx.rest).rest
  unfolding open_tag
  open_tag-le lx =
      let opened = advance_literal d.tag_prefix lx.at lx.rest in
      elim (Bool-cases (peek opened.rest 0 == b'-')) [
        | inl dash ↦ rw dash (advance_literal-le (b'-' ∷ []) opened.at opened.rest)
        | inr plain ↦ rw plain (omega arith)
      ]

  open_tag-inside : (lx : Lexer) → (open_tag d lx).inside_tag ≡ true
  unfolding open_tag
  open_tag-inside lx = refl

  -- The round reads a byte, or opens a tag by an empty prefix.
  abbrev pub TextProgress : Lexer → Lexer → Type 0
  TextProgress lx next =
      (length next.rest < length lx.rest)
      ⊎ ((length next.rest ≤ length lx.rest) × (next.inside_tag ≡ true) × (d.tag_prefix ≡ []))

  prefix_progress :
      (lx next : Lexer) (literal : Bytes)
      → d.tag_prefix ≡ literal
      → lx.rest ≢ []
      → length next.rest ≤ length (advance_literal literal lx.at lx.rest).rest
      → next.inside_tag ≡ true
      → TextProgress lx next
  prefix_progress lx next [] p h le inside =
      inr (omega (arith, advance_literal-le [] lx.at lx.rest), inside, p)
  prefix_progress lx next (c ∷ cs) p h le inside =
      inl (omega (arith, advance_literal-lt (c ∷ cs) lx.at lx.rest (λ e. cc) h))

  open_tag-progress : (lx : Lexer) → lx.rest ≢ [] → TextProgress lx (open_tag d lx)
  open_tag-progress lx h =
      prefix_progress lx (open_tag d lx) d.tag_prefix refl h (open_tag-le lx) (open_tag-inside lx)

  add_text-rest :
      (value : Bytes) (start : SourceLocation) (lx : Lexer)
      → (add_text d value start lx).rest ≡ lx.rest
  add_text-rest [] start lx = refl
  add_text-rest (c ∷ cs) start lx = refl

  after_text-le : (rest : Bytes) (lx : Lexer) → length (after_text d rest lx).rest ≤ length lx.rest
  after_text-le [] lx = omega arith
  after_text-le (c ∷ cs) lx = elim (Bool-cases (match_literal (c ∷ cs) d.tag_prefix)) [
    | inl opens ↦
        rw opens (omega (arith, open_tag-le lx, advance_literal-le d.tag_prefix lx.at lx.rest))
    | inr stays ↦ rw stays (omega arith)
  ]

  after_text-progress :
      (rest : Bytes) (lx : Lexer)
      → lx.rest ≡ rest
      → rest ≢ []
      → not (match_literal rest d.tag_prefix) ≡ false
      → TextProgress lx (after_text d rest lx)
  after_text-progress [] lx e h m = absurd (h refl)
  after_text-progress (c ∷ cs) lx e h m =
      let opens : match_literal (c ∷ cs) d.tag_prefix ≡ true = ground arith in
      rw opens (open_tag-progress lx (λ k. h (sym e ∙ k)))

  abbrev outside : Bytes → Bool
  outside rest = not (match_literal rest d.tag_prefix)

  read_text-rest : (lx : Lexer) → (read_text d lx).rest ≡ (scan_while outside lx.at lx.rest).rest
  unfolding read_text
  read_text-rest lx = add_text-rest _ lx.at _

  TextProgress-of_eq :
      (lx lx' next : Lexer) → lx'.rest ≡ lx.rest → TextProgress lx' next → TextProgress lx next
  TextProgress-of_eq lx lx' next e (inl h) = inl (omega (arith, ap (length {A = ℕ}) e))
  TextProgress-of_eq lx lx' next e (inr h) =
      inr (omega (arith, ap (length {A = ℕ}) e, h.0), h.1, h.2)

  pub lex_text-progress : (lx : Lexer) → lx.rest ≢ [] → TextProgress lx (lex_text d lx)
  unfolding lex_text
  lex_text-progress lx h =
      let read = read_text d lx in
      let e = read_text-rest lx in
      elim (scan_while-cases outside lx.at lx.rest h) [
        | inl moved ↦ inl (omega (arith, after_text-le read.rest read, ap (length {A = ℕ}) e))
        | inr (same, stops) ↦
            let k : read.rest ≡ lx.rest = e ∙ same in
            TextProgress-of_eq lx read (after_text d read.rest read) k
              (after_text-progress read.rest read refl (λ n. h (sym k ∙ n)) (rw k stops))
      ]

  -- The round reads a byte, or closes a tag by an empty suffix.
  abbrev pub TagProgress : Lexer → Lexer → Type 0
  TagProgress lx next =
      (length next.rest < length lx.rest)
      ⊎ ((length next.rest ≤ length lx.rest) × (next.inside_tag ≡ false) × (d.tag_suffix ≡ []))

  suffix_progress :
      (lx : Lexer) (literal rest : Bytes)
      → d.tag_suffix ≡ literal
      → lx.rest ≢ []
      → rest ≡ (advance_literal literal lx.at lx.rest).rest
      → (length rest < length lx.rest)
        ⊎ ((length rest ≤ length lx.rest) × (false ≡ false) × (d.tag_suffix ≡ []))
  suffix_progress lx [] rest p h e =
      inr (omega (arith, advance_literal-le [] lx.at lx.rest, ap (length {A = ℕ}) e), refl, p)
  suffix_progress lx (c ∷ cs) rest p h e =
      inl (
        omega (arith, advance_literal-lt (c ∷ cs) lx.at lx.rest (λ k. cc) h, ap (length {A = ℕ}) e))

  pub close-progress :
      (lx : Lexer) → lx.rest ≢ [] → IfSome (TagProgress lx) (try_lex_tag_close d lx)
  unfolding try_lex_tag_close
  close-progress lx h =
      let dashed_lt = advance_literal-lt (b'-' ∷ d.tag_suffix) lx.at lx.rest (λ e. cc) h in
      elim (Bool-cases (match_literal lx.rest d.tag_suffix)) [
        | inl plain ↦ rw plain (suffix_progress lx d.tag_suffix _ refl h refl)
        | inr other ↦
            elim (Bool-cases
              (peek lx.rest 0 == b'-' && match_literal lx.rest (b'-' ∷ d.tag_suffix))) [
                | inl dashed ↦ rw (other, dashed) (inl dashed_lt)
                | inr neither ↦ rw (other, neither) tt
              ]
      ]
