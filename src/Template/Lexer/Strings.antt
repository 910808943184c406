-- ===== src/Template/Lexer/Strings.antt =====
-- `lex_string` of template/lexer/TemplateLexerLiterals.cpp: the loop over the literal's bytes.
use prebyte.Base.{
  ℕ, Bool, true, false, Option, none, some, [], ◌∷◌, Bytes, str, ◌==◌, if◌then◌else◌,
}
use prebyte.Result.{SourceLocation, diagnostic_error, Result, ok, err, ◌>>=◌}
use prebyte.Template.Lexer.Cursor.{Scan, step, push_front}
use prebyte.Template.Lexer.Errors.{make_lexer_error}

-- The byte that an escape stands for.
unfoldable pub unescape : ℕ → Option ℕ
unescape c =
    if c == b'n'
    then some b'\n'
    else if c == b't'
    then some b'\t'
    else if c == b'\\'
    then some b'\\'
    else if c == b'"'
    then some b'"'
    else none

module _ (file_path : Bytes) (start : SourceLocation) where
  abbrev lexer_failure {ℓ} : {A : Type ℓ} → Bytes → SourceLocation → Result A
  lexer_failure message at = err (diagnostic_error (make_lexer_error message file_path at))

  -- From behind the opening quote, or (`escaped`) from behind a backslash, to behind the closing
  -- quote. An error of the literal is placed at its start, one of an escape behind it.
  unfoldable pub scan_string : Bool → SourceLocation → Bytes → Result Scan
  unfolding step unescape
  scan_string escaped at [] = lexer_failure (str "Unterminated string literal") start
  scan_string true at (ch ∷ rest) =
      let later = scan_string false (step ch at) rest in
      elim (unescape ch) [
        | none ↦ lexer_failure (str "Unsupported escape sequence") (step ch at)
        | some b ↦ later >>= λ s. ok (push_front b s)
      ]
  scan_string false at (ch ∷ rest) =
      let escape = scan_string true (step ch at) rest in
      let plain = scan_string false (step ch at) rest in
      if ch == b'"'
      then ok (record { value = []; at = step ch at; rest = rest })
      else if ch == b'\\'
      then escape
      else plain >>= λ s. ok (push_front ch s)
