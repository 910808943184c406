-- ===== src/Template/Lexer/Rounds.antt =====
-- How far a round inside a tag gets: `lex_inside_tag` of template/lexer/TemplateLexerTag.cpp.
use prebyte.Base.{
  ℕ, ◌≤◌, ◌<◌, true, false, Option, none, some, List, [], ◌∷◌, ◌≡◌, ◌≢◌, refl, sym, ◌∙◌, arith,
  Bytes, ◌==◌, ◌&&◌, str, Bool-cases, inl, inr, length, All, ap,
}
use prebyte.Result.{
  SourceLocation, Result, ok, err, out_of_fuel, Ensures, Ensures-bind, Ensures-if, Ensures-or_else,
  IfSome,
}
use prebyte.Text.{is_identifier_part, is_digit, is_identifier_start, is_space, starts_with}
use prebyte.Template.Lexer.Cursor.{scan_while, advance_literal}
use prebyte.Template.Lexer.Keywords.{Rule}
use prebyte.Template.Lexer.Location.{Moves, scan_string-Moves}
use prebyte.Template.Lexer.State.{Delimiters, Lexer, peek}
use prebyte.Template.Lexer.Tag.{
  digits, scan_number, find_literal, find_byte, two_char_punctuation, one_char_punctuation,
  add_punctuation, try_lex_tag_close, lex_identifier_or_keyword, lex_number, lex_string,
  try_lex_tag_punctuation, lex_tag_token, after_space, lex_inside_tag,
}
use prebyte.Template.Lexer.Progress.{
  scan_while-cases, Moves-le, scan_while-le, scan_while-lt, advance_literal-le, advance_literal-lt,
  TagProgress, close-progress,
}

start_is_part : (ch : ℕ) → is_identifier_start ch ≡ true → is_identifier_part ch ≡ true
unfolding is_identifier_start is_identifier_part
start_is_part ch h = ground arith

abbrev HasWord : Rule → Type 0
HasWord r = r.word ≢ []

find_literal-HasWord :
    (rest : Bytes) (rules : List Rule)
    → All HasWord rules
    → IfSome HasWord (find_literal rest rules)
unfolding find_literal
find_literal-HasWord rest [] h = tt
find_literal-HasWord rest (r ∷ rules) h = elim (Bool-cases (starts_with rest r.word)) [
  | inl fits ↦ rw fits h.0
  | inr other ↦ rw other (find_literal-HasWord rest rules h.1)
]

two_char-HasWord : All HasWord two_char_punctuation
unfolding str
two_char-HasWord = (λ e. cc, (λ e. cc, (λ e. cc, (λ e. cc, (λ e. cc, (λ e. cc, tt))))))

module _ (d : Delimiters) where
  -- Every other token takes the byte that it begins with.
  abbrev Shorter : Lexer → Lexer → Type 0
  Shorter lx next = length next.rest < length lx.rest

  digits-le : (at : SourceLocation) (rest : Bytes) → length (digits at rest).rest ≤ length rest
  digits-le at rest = scan_while-le (λ r. is_digit (peek r 0)) at rest

  scan_number-le :
      (at : SourceLocation) (rest : Bytes)
      → length (scan_number at rest).rest ≤ length (digits at rest).rest
  unfolding scan_number
  scan_number-le at rest =
      let whole = digits at rest in
      let point = advance_literal (b'.' ∷ []) whole.at whole.rest in
      elim (Bool-cases (peek whole.rest 0 == b'.' && is_digit (peek whole.rest 1))) [
        | inl fraction ↦ rw fraction (
            omega (
              arith,
              digits-le point.at point.rest,
              advance_literal-le (b'.' ∷ []) whole.at whole.rest,
            ))
        | inr integer ↦ rw integer (omega arith)
      ]

  number-lt :
      (lx : Lexer) (ch : ℕ) (rest : Bytes)
      → is_digit ch ≡ true
      → lx.rest ≡ ch ∷ rest
      → Shorter lx (lex_number d lx)
  unfolding lex_number
  number-lt lx ch rest h e =
      let first : length (digits lx.at lx.rest).rest < length lx.rest =
        rw e (scan_while-lt (λ r. is_digit (peek r 0)) _ ch rest h) in
      omega (arith, scan_number-le lx.at lx.rest)

  identifier-lt :
      (lx : Lexer) (ch : ℕ) (rest : Bytes)
      → is_identifier_start ch ≡ true
      → lx.rest ≡ ch ∷ rest
      → Shorter lx (lex_identifier_or_keyword d lx)
  unfolding lex_identifier_or_keyword
  identifier-lt lx ch rest h e =
      rw e (scan_while-lt (λ r. is_identifier_part (peek r 0)) _ ch rest (start_is_part ch h))

  lex_string-lt : (lx : Lexer) → lx.rest ≢ [] → Ensures (TagProgress d lx) (lex_string d lx)
  unfolding lex_string
  lex_string-lt lx h =
      let quote = advance_literal (b'"' ∷ []) lx.at lx.rest in
      let le = advance_literal-lt (b'"' ∷ []) lx.at lx.rest (λ e. cc) h in
      Ensures-bind (λ s. Moves quote.at quote.rest s.at s.rest) (TagProgress d lx) _ _
        (scan_string-Moves d.file_path lx.at false quote.at quote.rest)
        λ s n. inl (omega (arith, le, Moves-le quote.rest s.rest n))

  punctuation-lt :
      (lx : Lexer) (two one : Option Rule)
      → IfSome HasWord two
      → lx.rest ≢ []
      → IfSome (TagProgress d lx) (add_punctuation d lx two one)
  punctuation-lt lx (some r) one w h = inl (advance_literal-lt r.word lx.at lx.rest w h)
  punctuation-lt lx none (some r) w h =
      inl (advance_literal-lt (b' ' ∷ []) lx.at lx.rest (λ e. cc) h)
  punctuation-lt lx none none w h = tt

  punctuation-progress :
      (lx : Lexer) → lx.rest ≢ [] → IfSome (TagProgress d lx) (try_lex_tag_punctuation d lx)
  unfolding try_lex_tag_punctuation
  punctuation-progress lx h =
      let one = find_byte lx.rest one_char_punctuation in
      punctuation-lt lx (find_literal lx.rest two_char_punctuation) one
        (find_literal-HasWord lx.rest two_char_punctuation two_char-HasWord) h

  lex_tag_token-progress :
      (lx : Lexer) (ch : ℕ) (rest : Bytes)
      → lx.rest ≡ ch ∷ rest
      → Ensures (TagProgress d lx) (lex_tag_token d ch lx)
  unfolding lex_tag_token
  lex_tag_token-progress lx ch rest e =
      let left : lx.rest ≢ [] = λ n. cc in
      Ensures-or_else _ (try_lex_tag_close d lx) _ (close-progress d lx left) (
        Ensures-if _ (is_identifier_start ch) _ _ (λ h. inl (identifier-lt lx ch rest h e))
          λ _.
            Ensures-if _ (is_digit ch) _ _ (λ h. inl (number-lt lx ch rest h e))
              λ _.
                Ensures-if _ (ch == b'"') _ _ (λ _. lex_string-lt lx left)
                  λ _.
                    Ensures-or_else _ (try_lex_tag_punctuation d lx) _
                      (punctuation-progress lx left) tt)

  -- White space that is skipped is progress too.
  TagProgress-skip :
      (lx skipped : Lexer) (r : Result Lexer)
      → length skipped.rest < length lx.rest
      → Ensures (TagProgress d skipped) r
      → Ensures (TagProgress d lx) r
  TagProgress-skip lx skipped (ok next) h (inl k) = inl (omega arith)
  TagProgress-skip lx skipped (ok next) h (inr k) = inl (omega (arith, k.0))
  TagProgress-skip lx skipped (err e) h k = tt
  TagProgress-skip lx skipped out_of_fuel h k = k

  after_space-progress :
      (rest : Bytes) (lx : Lexer)
      → lx.rest ≡ rest
      → rest ≢ []
      → Ensures (TagProgress d lx) (after_space d rest lx)
  after_space-progress [] lx e h = absurd (h refl)
  after_space-progress (ch ∷ rest) lx e h = lex_tag_token-progress lx ch rest e

  after_space-skipped :
      (rest : Bytes) (lx skipped : Lexer)
      → skipped.rest ≡ rest
      → length skipped.rest < length lx.rest
      → Ensures (TagProgress d lx) (after_space d rest skipped)
  after_space-skipped [] lx skipped e h = inl h
  after_space-skipped (ch ∷ rest) lx skipped e h =
      TagProgress-skip lx skipped _ h (lex_tag_token-progress skipped ch rest e)

  TagProgress-of_eq :
      (lx lx' : Lexer) (r : Result Lexer)
      → lx'.rest ≡ lx.rest
      → Ensures (TagProgress d lx') r
      → Ensures (TagProgress d lx) r
  TagProgress-of_eq lx lx' (ok next) e (inl k) = inl (omega (arith, ap (length {A = ℕ}) e))
  TagProgress-of_eq lx lx' (ok next) e (inr k) =
      inr (omega (arith, ap (length {A = ℕ}) e, k.0), k.1, k.2)
  TagProgress-of_eq lx lx' (err x) e k = tt
  TagProgress-of_eq lx lx' out_of_fuel e k = k

  pub lex_inside_tag-progress :
      (lx : Lexer) → lx.rest ≢ [] → Ensures (TagProgress d lx) (lex_inside_tag d lx)
  unfolding lex_inside_tag
  lex_inside_tag-progress lx h =
      let test = λ (rest : Bytes). is_space (peek rest 0) in
      let s = scan_while test lx.at lx.rest in
      elim (scan_while-cases test lx.at lx.rest h) [
        | inl moved ↦ after_space-skipped s.rest lx _ refl moved
        | inr (same, stops) ↦
            TagProgress-of_eq lx (record lx { rest = s.rest; at = s.at }) _ same
              (after_space-progress s.rest _ refl (λ n. h (sym same ∙ n)))
      ]
