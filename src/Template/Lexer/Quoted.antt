-- ===== src/Template/Lexer/Quoted.antt =====
-- template/lexer/TemplateLexerLiterals.cpp: string literals, and the text they are written for.
use prebyte.Base.{
  ℕ, true, false, some, [], ◌∷◌, ◌≡◌, refl, inl, inr, Bool-cases, Bytes, ◌==◌, ◌||◌, ==_iff,
  if◌then◌else◌,
}
use prebyte.Result.{SourceLocation, ok}
use prebyte.Template.Lexer.Cursor.{Scan, step, push_front}
use prebyte.Template.Lexer.Strings.{unescape, scan_string}

-- A byte as it is written in a literal: a quote and a backslash stand behind a backslash.
abbrev pub quoted_byte : ℕ → Bytes → Bytes
quoted_byte c behind = if c == b'"' || c == b'\\' then b'\\' ∷ c ∷ behind else c ∷ behind

-- A text and the closing quote.
abbrev pub quoted : Bytes → Bytes → Bytes
quoted [] rest = b'"' ∷ rest
quoted (c ∷ cs) rest = quoted_byte c (quoted cs rest)

module _ (file_path : Bytes) (start : SourceLocation) where
  -- The value of the literal is the text, and what stands behind the closing quote is left.
  abbrev pub IsScanned : Bytes → Bytes → SourceLocation → Bytes → Type 0
  IsScanned value rest at source =
      (end : SourceLocation) × (scan_string file_path start false at source
        ≡ ok (record { value = value; at = end; rest = rest }))

  scan_escaped :
      (c : ℕ) (at : SourceLocation) (source : Bytes) (s : Scan)
      → unescape c ≡ some c
      → scan_string file_path start false (step c (step b'\\' at)) source ≡ ok s
      → scan_string file_path start false at (b'\\' ∷ c ∷ source) ≡ ok (push_front c s)
  unfolding scan_string
  scan_escaped c at source s h e = rw (h, e, scan_string) refl

  scan_plain :
      (c : ℕ) (at : SourceLocation) (source : Bytes) (s : Scan)
      → (c == b'"') ≡ false
      → (c == b'\\') ≡ false
      → scan_string file_path start false (step c at) source ≡ ok s
      → scan_string file_path start false at (c ∷ source) ≡ ok (push_front c s)
  unfolding scan_string
  scan_plain c at source s h k e = rw (h, k, e, scan_string) refl

  quote_unescape : (c : ℕ) → (c == b'"') ≡ true → unescape c ≡ some c
  unfolding unescape
  quote_unescape c h = rw ((==_iff c b'"').0 h) refl

  slash_unescape : (c : ℕ) → (c == b'\\') ≡ true → unescape c ≡ some c
  unfolding unescape
  slash_unescape c h = rw ((==_iff c b'\\').0 h) refl

  -- A text that is written between quotes, with a backslash in front of each quote and of each
  -- backslash, is read as that text, and what follows the closing quote is left.
  pub scan_string-quoted :
      (value rest : Bytes) (at : SourceLocation) → IsScanned value rest at (quoted value rest)
  unfolding scan_string
  scan_string-quoted [] rest at = (step b'"' at, refl)
  scan_string-quoted (c ∷ cs) rest at =
      let (end, e) = scan_string-quoted cs rest (step c (step b'\\' at)) in
      let (plain_end, plain) = scan_string-quoted cs rest (step c at) in
      elim (Bool-cases (c == b'"')) [
        | inl quote ↦ (
          end,
          rw quote (
              scan_escaped c at (quoted cs rest) (record { value = cs; at = end; rest = rest })
                (quote_unescape c quote) e),
        )
        | inr other ↦ elim (Bool-cases (c == b'\\')) [
          | inl slash ↦ (
            end,
            rw (other, slash)
                (scan_escaped c at (quoted cs rest) (record { value = cs; at = end; rest = rest })
                  (slash_unescape c slash) e),
          )
          | inr byte ↦ (
            plain_end,
            rw (other, byte)
                (scan_plain c at (quoted cs rest)
                  (record { value = cs; at = plain_end; rest = rest }) other byte plain),
          )
        ]
      ]
