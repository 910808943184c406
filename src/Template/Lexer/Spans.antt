-- ===== src/Template/Lexer/Spans.antt =====
-- template/lexer/: the spans of the tokens, through every method of `TemplateLexer`.
use prebyte.Base.{
  ℕ, not, ap, false, Option, none, some, List, [], ◌∷◌, ◌++◌, ◌≡◌, refl, arith, Bytes, ◌==◌, ◌&&◌,
  Bool-cases, inl, inr, length,
}
use prebyte.Result.{
  SourceLocation, ok, Ensures, Ensures-bind, Ensures-if, Ensures-or_else, IfSome, Yields,
}
use prebyte.Template.Token.{TemplateTokenType, TemplateToken, text, string, end_of_file}
use prebyte.Template.Lexer.{round, finish, enough, lex}
use prebyte.Template.Lexer.Cursor.{Scan, advance_literal}
use prebyte.Template.Lexer.Location.{
  Moves, Moves-refl, Moves-trans, Moves-offset, scan_while-Moves, advance_literal-Moves,
  scan_string-Moves,
}
use prebyte.Template.Lexer.State.{
  Delimiters, Lexer, start_location, initial, trim_back, peek, match_literal, make_token, add_token,
}
use prebyte.Template.Lexer.Keywords.{Rule}
use prebyte.Text.{is_identifier_part, is_digit, is_identifier_start, is_space}
use prebyte.Template.Lexer.Texts.{open_tag, add_text, read_text, after_text, lex_text}
use prebyte.Template.Lexer.Tag.{
  try_lex_tag_close, lex_identifier_or_keyword, digits, scan_number, lex_number, lex_string,
  add_punctuation, try_lex_tag_punctuation, lex_tag_token, after_space, lex_inside_tag,
}
use prebyte.Template.Lexer.Loop.{run-Yields}
use prebyte.Template.Lexer.Placed.{
  Ordered, Ordered-concat, trim_back-Ordered, IsPlaced, emit-IsPlaced, move-IsPlaced,
}

module _ (d : Delimiters) (source : Bytes) where
  open_tag-IsPlaced : (lx : Lexer) → IsPlaced source lx → IsPlaced source (open_tag d lx)
  unfolding open_tag
  open_tag-IsPlaced lx v =
      let opened = advance_literal d.tag_prefix lx.at lx.rest in
      let m = advance_literal-Moves d.tag_prefix lx.at lx.rest in
      let n = Moves-trans m (advance_literal-Moves (b'-' ∷ []) opened.at opened.rest) in
      let trimmed : Lexer = record lx { tokens = trim_back lx.tokens } in
      let v' : IsPlaced source trimmed = record {
        here = v.here;
        ordered = trim_back-Ordered source 0 lx.tokens lx.at.offset v.ordered;
      } in
      elim (Bool-cases (peek opened.rest 0 == b'-')) [
        | inl dash ↦ rw dash (emit-IsPlaced source trimmed _ _ v' n refl refl refl)
        | inr plain ↦ rw plain (emit-IsPlaced source lx _ _ v m refl refl refl)
      ]

  add_text-IsPlaced :
      (value : Bytes) (lx lx' : Lexer)
      → IsPlaced source lx
      → Moves lx.at lx.rest lx'.at lx'.rest
      → lx'.tokens ≡ lx.tokens
      → IsPlaced source (add_text d value lx.at lx')
  add_text-IsPlaced [] lx lx' v m k = move-IsPlaced source lx lx' v m k
  add_text-IsPlaced (c ∷ cs) lx lx' v m k =
      emit-IsPlaced source lx _ (make_token d text (c ∷ cs) lx.at lx'.at false false) v m refl refl
        (ap (λ ts. ts ++ make_token d text (c ∷ cs) lx.at lx'.at false false ∷ []) k)

  after_text-IsPlaced :
      (rest : Bytes) (lx : Lexer) → IsPlaced source lx → IsPlaced source (after_text d rest lx)
  after_text-IsPlaced [] lx v = v
  after_text-IsPlaced (c ∷ cs) lx v = elim (Bool-cases (match_literal (c ∷ cs) d.tag_prefix)) [
    | inl opens ↦ rw opens (open_tag-IsPlaced lx v)
    | inr stays ↦ rw stays v
  ]

  read_text-IsPlaced : (lx : Lexer) → IsPlaced source lx → IsPlaced source (read_text d lx)
  unfolding read_text
  read_text-IsPlaced lx v =
      let outside = λ (rest : Bytes). not (match_literal rest d.tag_prefix) in
      let m = (scan_while-Moves outside lx.at lx.rest).0 in add_text-IsPlaced _ lx _ v m refl

  lex_text-IsPlaced : (lx : Lexer) → IsPlaced source lx → IsPlaced source (lex_text d lx)
  unfolding lex_text
  lex_text-IsPlaced lx v = after_text-IsPlaced (read_text d lx).rest _ (read_text-IsPlaced lx v)

  try_lex_tag_close-IsPlaced :
      (lx : Lexer) → IsPlaced source lx → IfSome (IsPlaced source) (try_lex_tag_close d lx)
  unfolding try_lex_tag_close
  try_lex_tag_close-IsPlaced lx v =
      let m = advance_literal-Moves d.tag_suffix lx.at lx.rest in
      let n = advance_literal-Moves (b'-' ∷ d.tag_suffix) lx.at lx.rest in
      elim (Bool-cases (match_literal lx.rest d.tag_suffix)) [
        | inl plain ↦ rw plain (emit-IsPlaced source lx _ _ v m refl refl refl)
        | inr other ↦
            elim (Bool-cases
              (peek lx.rest 0 == b'-' && match_literal lx.rest (b'-' ∷ d.tag_suffix))) [
                | inl dashed ↦ rw (other, dashed) (emit-IsPlaced source lx _ _ v n refl refl refl)
                | inr neither ↦ rw (other, neither) tt
              ]
      ]

  add_token-IsPlaced :
      (type : TemplateTokenType) (s : Scan) (lx : Lexer)
      → IsPlaced source lx
      → Moves lx.at lx.rest s.at s.rest
      → IsPlaced source (add_token d type s lx)
  add_token-IsPlaced type s lx v m = emit-IsPlaced source lx _ _ v m refl refl refl

  identifier-IsPlaced :
      (lx : Lexer) → IsPlaced source lx → IsPlaced source (lex_identifier_or_keyword d lx)
  unfolding lex_identifier_or_keyword
  identifier-IsPlaced lx v =
      let test = λ (rest : Bytes). is_identifier_part (peek rest 0) in
      let m = (scan_while-Moves test lx.at lx.rest).0 in add_token-IsPlaced _ _ lx v m

  scan_number-Moves :
      (at : SourceLocation) (rest : Bytes)
      → let s = scan_number at rest in Moves at rest s.at s.rest
  unfolding scan_number
  scan_number-Moves at rest =
      let whole = digits at rest in
      let m = (scan_while-Moves (λ r. is_digit (peek r 0)) at rest).0 in
      let point = advance_literal (b'.' ∷ []) whole.at whole.rest in
      let n = advance_literal-Moves (b'.' ∷ []) whole.at whole.rest in
      let k = (scan_while-Moves (λ r. is_digit (peek r 0)) point.at point.rest).0 in
      elim (Bool-cases (peek whole.rest 0 == b'.' && is_digit (peek whole.rest 1))) [
        | inl fraction ↦ rw fraction (Moves-trans m (Moves-trans n k))
        | inr integer ↦ rw integer m
      ]

  number-IsPlaced : (lx : Lexer) → IsPlaced source lx → IsPlaced source (lex_number d lx)
  unfolding lex_number
  number-IsPlaced lx v = add_token-IsPlaced _ _ lx v (scan_number-Moves lx.at lx.rest)

  lex_string-IsPlaced :
      (lx : Lexer) → IsPlaced source lx → Ensures (IsPlaced source) (lex_string d lx)
  unfolding lex_string
  lex_string-IsPlaced lx v =
      let quote = advance_literal (b'"' ∷ []) lx.at lx.rest in
      let m = advance_literal-Moves (b'"' ∷ []) lx.at lx.rest in
      Ensures-bind (λ s. Moves quote.at quote.rest s.at s.rest) (IsPlaced source) _ _
        (scan_string-Moves d.file_path lx.at false quote.at quote.rest)
        λ s n. add_token-IsPlaced string s lx v (Moves-trans m n)

  add_punctuation-IsPlaced :
      (lx : Lexer) (two one : Option Rule)
      → IsPlaced source lx
      → IfSome (IsPlaced source) (add_punctuation d lx two one)
  add_punctuation-IsPlaced lx (some r) one v =
      add_token-IsPlaced _ _ lx v (advance_literal-Moves r.word lx.at lx.rest)
  add_punctuation-IsPlaced lx none (some r) v =
      add_token-IsPlaced _ _ lx v (advance_literal-Moves (b' ' ∷ []) lx.at lx.rest)
  add_punctuation-IsPlaced lx none none v = tt

  punctuation-IsPlaced :
      (lx : Lexer) → IsPlaced source lx → IfSome (IsPlaced source) (try_lex_tag_punctuation d lx)
  unfolding try_lex_tag_punctuation
  punctuation-IsPlaced lx v = add_punctuation-IsPlaced lx _ _ v

  lex_tag_token-IsPlaced :
      (ch : ℕ) (lx : Lexer) → IsPlaced source lx → Ensures (IsPlaced source) (lex_tag_token d ch lx)
  unfolding lex_tag_token
  lex_tag_token-IsPlaced ch lx v =
      Ensures-or_else _ (try_lex_tag_close d lx) _ (try_lex_tag_close-IsPlaced lx v) (
        Ensures-if _ (is_identifier_start ch) _ _ (λ _. identifier-IsPlaced lx v)
          λ _.
            Ensures-if _ (is_digit ch) _ _ (λ _. number-IsPlaced lx v)
              λ _.
                Ensures-if _ (ch == b'"') _ _ (λ _. lex_string-IsPlaced lx v)
                  λ _.
                    Ensures-or_else _ (try_lex_tag_punctuation d lx) _ (punctuation-IsPlaced lx v)
                      tt)

  after_space-IsPlaced :
      (rest : Bytes) (lx : Lexer)
      → IsPlaced source lx
      → Ensures (IsPlaced source) (after_space d rest lx)
  after_space-IsPlaced [] lx v = v
  after_space-IsPlaced (ch ∷ rest) lx v = lex_tag_token-IsPlaced ch lx v

  lex_inside_tag-IsPlaced :
      (lx : Lexer) → IsPlaced source lx → Ensures (IsPlaced source) (lex_inside_tag d lx)
  unfolding lex_inside_tag
  lex_inside_tag-IsPlaced lx v =
      let test = λ (rest : Bytes). is_space (peek rest 0) in
      let m = (scan_while-Moves test lx.at lx.rest).0 in
      after_space-IsPlaced _ _ (move-IsPlaced source lx _ v m refl)

  pub round-IsPlaced : (lx : Lexer) → IsPlaced source lx → Ensures (IsPlaced source) (round d lx)
  unfolding round
  round-IsPlaced lx v =
      Ensures-if _ lx.inside_tag _ _ (λ _. lex_inside_tag-IsPlaced lx v)
        (λ _. lex_text-IsPlaced lx v)

module _ (d : Delimiters) (source : Bytes) where
  finish-Ordered :
      (lx : Lexer)
      → IsPlaced source lx
      → lx.rest ≡ []
      → Yields (λ tokens. Ordered source 0 tokens (length source)) (finish d lx)
  unfolding finish
  finish-Ordered lx v e = elim (Bool-cases lx.inside_tag) [
    | inl unclosed ↦ rw unclosed tt
    | inr closed ↦
        let end : lx.at.offset ≡ length source =
          omega (
            arith,
            ap (length {A = ℕ}) e,
            Moves-offset start_location lx.at source lx.rest v.here,
          ) in
        let last = make_token d end_of_file [] lx.at lx.at false false in
        rw (closed, ← end)
          (Ordered-concat source 0 lx.tokens last v.ordered (omega arith) (lx.rest, v.here)
            (lx.rest, v.here))
  ]

  -- The tokens of a source lie in it one after the other, from its first byte to its end, and each
  -- span starts and ends at the line and column that its offsets have.
  pub lex-Ordered :
      {tokens : List TemplateToken}
      → lex d source ≡ ok tokens
      → Ordered source 0 tokens (length source)
  unfolding lex
  lex-Ordered h = rw h at (
      run-Yields d (IsPlaced source) (λ tokens. Ordered source 0 tokens (length source))
        (round-IsPlaced d source) finish-Ordered (enough source) (initial source)
        (record { here = Moves-refl start_location source; ordered = omega arith }))
