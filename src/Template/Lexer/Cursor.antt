-- ===== src/Template/Lexer/Cursor.antt =====
-- The cursor of the lexer, and the loops that read a run of bytes with it.
use prebyte.Base.{ℕ, ◌+◌, Bool, [], ◌∷◌, Bytes, ◌==◌, if◌then◌else◌}
use prebyte.Result.{SourceLocation}

-- `advance` past the byte `ch`: the new `index_`, `line_` and `column_`.
unfoldable pub step : ℕ → SourceLocation → SourceLocation
step ch at =
    if ch == b'\n'
    then record { offset = at.offset + 1; line = at.line + 1; column = 1 }
    else record { offset = at.offset + 1; line = at.line; column = at.column + 1 }

-- What a loop has read, where the cursor stands then, and what is left.
pub record Scan : Type 0 where
  pub value : Bytes
  pub at : SourceLocation
  pub rest : Bytes

-- `value.push_back(advance())` in front of what the loop reads later
abbrev pub push_front : ℕ → Scan → Scan
push_front ch s = record s { value = ch ∷ s.value }

-- `while (!is_at_end() && test(rest)) value.push_back(advance());`
unfoldable pub scan_while : (Bytes → Bool) → SourceLocation → Bytes → Scan
unfolding step
scan_while test at [] = record { value = []; at = at; rest = [] }
scan_while test at (ch ∷ rest) =
    if test (ch ∷ rest)
    then push_front ch (scan_while test (step ch at) rest)
    else record { value = []; at = at; rest = ch ∷ rest }

-- `advance_literal`: one `advance` for each byte of the literal.
unfoldable pub advance_literal : Bytes → SourceLocation → Bytes → Scan
unfolding step
advance_literal [] at rest = record { value = []; at = at; rest = rest }
advance_literal (_ ∷ literal) at [] = record { value = []; at = at; rest = [] }
advance_literal (_ ∷ literal) at (ch ∷ rest) =
    push_front ch (advance_literal literal (step ch at) rest)
