-- ===== src/Template/Lexer/Location.antt =====
-- Where the cursor of the lexer stands after reading part of the source.
use prebyte.Base.{
  ℕ, ◌+◌, ◌≤◌, Bool, true, false, [], ◌∷◌, ◌++◌, ◌≡◌, refl, sym, ap, ◌∙◌, arith, Bytes, ◌==◌,
  Bool-cases, Option-cases, if◌then◌else◌, inl, inr, length, length-append, append_assoc,
}
use prebyte.Result.{SourceLocation, Result, ok, err, out_of_fuel, ◌>>=◌, Ensures, Ensures-bind}
use prebyte.Template.Lexer.Cursor.{Scan, step, push_front, scan_while, advance_literal}
use prebyte.Template.Lexer.Strings.{unescape, scan_string}

-- The new lines among the bytes.
abbrev pub newlines : Bytes → ℕ
newlines [] = 0
newlines (ch ∷ chs) = (if ch == b'\n' then 1 else 0) + newlines chs

-- The column behind the bytes: it starts at one behind a new line, and counts every other byte.
abbrev pub column_behind : ℕ → Bytes → ℕ
column_behind column [] = column
column_behind column (ch ∷ chs) = column_behind (if ch == b'\n' then 1 else column + 1) chs

-- The cursor goes from `at`, with `rest` left, to `at'`, with `rest'` left.
pub record Moves (at : SourceLocation) (rest : Bytes) (at' : SourceLocation) (rest' : Bytes)
    : Type 0 where
  pub taken : Bytes
  pub splits : rest ≡ taken ++ rest'
  pub offset : at'.offset ≡ at.offset + length taken
  pub line : at'.line ≡ at.line + newlines taken
  pub column : at'.column ≡ column_behind at.column taken

pub Moves-refl : (at : SourceLocation) (rest : Bytes) → Moves at rest at rest
Moves-refl at rest = record {
  taken = [];
  splits = refl;
  offset = omega arith;
  line = omega arith;
  column = refl;
}

newlines-append : (a b : Bytes) → newlines (a ++ b) ≡ newlines a + newlines b
newlines-append [] b = omega arith
newlines-append (c ∷ cs) b = omega (arith, newlines-append cs b)

column-append :
    (column : ℕ) (a b : Bytes)
    → column_behind column (a ++ b) ≡ column_behind (column_behind column a) b
column-append column [] b = refl
column-append column (c ∷ cs) b = column-append (if c == b'\n' then 1 else column + 1) cs b

pub Moves-trans :
    {at at' at'' : SourceLocation} {rest rest' rest'' : Bytes}
    → Moves at rest at' rest'
    → Moves at' rest' at'' rest''
    → Moves at rest at'' rest''
Moves-trans {at} {rest'' = last} m n = record {
  taken = m.taken ++ n.taken;
  splits = m.splits ∙ rw n.splits (sym (append_assoc m.taken n.taken last));
  offset = omega (arith, m.offset, n.offset, length-append m.taken n.taken);
  line = omega (arith, m.line, n.line, newlines-append m.taken n.taken);
  column = n.column ∙ rw m.column (sym (column-append at.column m.taken n.taken));
}

pub Moves-step :
    (ch : ℕ) (at : SourceLocation) (rest : Bytes) → Moves at (ch ∷ rest) (step ch at) rest
unfolding step
Moves-step ch at rest = elim (Bool-cases (ch == b'\n')) [
  | inl ends ↦ record {
    taken = ch ∷ [];
    splits = refl;
    offset = rw ends (omega arith);
    line = rw ends (omega arith);
    column = rw ends refl;
  }
  | inr other ↦ record {
    taken = ch ∷ [];
    splits = refl;
    offset = rw other (omega arith);
    line = rw other (omega arith);
    column = rw other refl;
  }
]

-- The offset counts what was read.
pub Moves-offset :
    (at at' : SourceLocation) (rest rest' : Bytes)
    → Moves at rest at' rest'
    → (at'.offset + length rest' ≡ at.offset + length rest) × (length rest' ≤ length rest)
Moves-offset at at' rest rest' m =
    let whole = ap (length {A = ℕ}) m.splits in
    omega (arith, m.offset, whole, length-append m.taken rest')

-- The scanning loops read exactly what they return.
pub scan_while-Moves :
    (test : Bytes → Bool) (at : SourceLocation) (rest : Bytes)
    → let s = scan_while test at rest in Moves at rest s.at s.rest × (rest ≡ s.value ++ s.rest)
unfolding scan_while
scan_while-Moves test at [] = (Moves-refl at [], refl)
scan_while-Moves test at (ch ∷ rest) = elim (Bool-cases (test (ch ∷ rest))) [
  | inl more ↦
      let (m, e) = scan_while-Moves test (step ch at) rest in
      rw more (Moves-trans (Moves-step ch at rest) m, ap (◌∷◌ ch) e)
  | inr done ↦ rw done (Moves-refl at (ch ∷ rest), refl)
]

pub advance_literal-Moves :
    (literal : Bytes) (at : SourceLocation) (rest : Bytes)
    → let s = advance_literal literal at rest in Moves at rest s.at s.rest
unfolding advance_literal
advance_literal-Moves [] at rest = Moves-refl at rest
advance_literal-Moves (_ ∷ literal) at [] = Moves-refl at []
advance_literal-Moves (_ ∷ literal) at (ch ∷ rest) =
    Moves-trans (Moves-step ch at rest) (advance_literal-Moves literal (step ch at) rest)

module _ (file_path : Bytes) (start : SourceLocation) where
  abbrev After : SourceLocation → Bytes → Scan → Type 0
  After at rest s = Moves at rest s.at s.rest

  push_front-After :
      (at : SourceLocation) (ch b : ℕ) (rest : Bytes) (r : Result Scan)
      → Ensures (After (step ch at) rest) r
      → Ensures (After at (ch ∷ rest)) (r >>= λ s. ok (push_front b s))
  push_front-After at ch b rest r h =
      Ensures-bind (After (step ch at) rest) (After at (ch ∷ rest)) r (λ s. ok (push_front b s)) h
        λ s m. Moves-trans (Moves-step ch at rest) m

  Ensures-step :
      (at : SourceLocation) (rest : Bytes) (ch : ℕ) (r : Result Scan)
      → Ensures (After (step ch at) rest) r
      → Ensures (After at (ch ∷ rest)) r
  Ensures-step at rest ch (ok s) h = Moves-trans (Moves-step ch at rest) h
  Ensures-step at rest ch (err e) h = tt
  Ensures-step at rest ch out_of_fuel h = h

  -- A literal that is read ends somewhere behind its opening quote.
  pub scan_string-Moves :
      (escaped : Bool) (at : SourceLocation) (rest : Bytes)
      → Ensures (After at rest) (scan_string file_path start escaped at rest)
  unfolding scan_string
  scan_string-Moves true at [] = tt
  scan_string-Moves false at [] = tt
  scan_string-Moves true at (ch ∷ rest) =
      let ih = scan_string-Moves false (step ch at) rest in
      elim (Option-cases (unescape ch)) [
        | inl bad ↦ rw (bad, scan_string) tt
        | inr (b, good) ↦ rw (good, scan_string) (push_front-After at ch b rest _ ih)
      ]
  scan_string-Moves false at (ch ∷ rest) =
      let escape = scan_string-Moves true (step ch at) rest in
      let plain = scan_string-Moves false (step ch at) rest in
      elim (Bool-cases (ch == b'"')) [
        | inl quote ↦ rw quote (Moves-step ch at rest)
        | inr other ↦ elim (Bool-cases (ch == b'\\')) [
          | inl slash ↦ rw (other, slash) (Ensures-step at rest ch _ escape)
          | inr byte ↦ rw (other, byte) (push_front-After at ch ch rest _ plain)
        ]
      ]
