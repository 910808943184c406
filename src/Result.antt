-- ===== src/Result.antt =====
-- Fallible code: a value, a thrown exception, or a loop that has used up its fuel.
use prebyte.Base.{
  ℕ, Bool, true, false, Option, none, some, List, [], ◌≡◌, ◌≢◌, refl, Bytes, if◌then◌else◌,
}

-- support/SourceSpan.h
pub record SourceLocation : Type 0 where
  pub offset : ℕ
  pub line : ℕ
  pub column : ℕ

pub record SourceSpan : Type 0 where
  pub file_path : Bytes
  pub start : SourceLocation
  pub end : SourceLocation

-- support/Diagnostic.h
pub data DiagnosticSeverity : Type 0 where
  error warning : DiagnosticSeverity

pub record Diagnostic : Type 0 where
  pub severity : DiagnosticSeverity
  pub code : Bytes
  pub message : Bytes
  pub span : SourceSpan
  pub snippet : Bytes
  pub include_chain : List Bytes

-- A diagnostic with no place in a template: every other field has its default.
abbrev pub default_location : SourceLocation
default_location = record { offset = 0; line = 1; column = 1 }

unfoldable pub plain_diagnostic : Bytes → Bytes → Diagnostic
plain_diagnostic code message = record {
  severity = error;
  code = code;
  message = message;
  span = record { file_path = []; start = default_location; end = default_location };
  snippet = [];
  include_chain = [];
}

-- `DiagnosticError`, and what the standard library throws through the program.
pub data Exception : Type 0 where
  diagnostic_error : Diagnostic → Exception
  out_of_range : Exception

pub data Result {ℓ} (A : Type ℓ) : Type ℓ where
  ok : A → Result A
  err : Exception → Result A
  out_of_fuel : Result A

infixl 5 ◌>>=◌ ◌>>◌
abbrev pub ◌>>=◌ {ℓ κ} : {A : Type ℓ} {B : Type κ} → Result A → (A → Result B) → Result B
ok a >>= f = f a
err e >>= f = err e
out_of_fuel >>= f = out_of_fuel

abbrev pub ◌>>◌ {ℓ κ} : {A : Type ℓ} {B : Type κ} → Result A → Result B → Result B
m >> k = m >>= λ _. k

module _ {ℓ} {A : Type ℓ} where
  -- What holds of the value, if there is one; a loop has always had fuel enough.
  abbrev pub Ensures : (A → Type 0) → Result A → Type 0
  Ensures P (ok a) = P a
  Ensures P (err e) = Unit
  Ensures P out_of_fuel = ⊥

  -- The same of the value alone.
  abbrev pub Yields : (A → Type 0) → Result A → Type 0
  Yields P (ok a) = P a
  Yields P (err e) = Unit
  Yields P out_of_fuel = Unit

-- The rule for a bind: what the first part ensures, the second may use.
pub Ensures-bind {ℓ κ} :
    {A : Type ℓ} {B : Type κ} (First : A → Type 0) (Second : B → Type 0) (m : Result A)
    (f : A → Result B)
    → Ensures First m
    → ((a : A) → First a → Ensures Second (f a))
    → Ensures Second (m >>= f)
Ensures-bind P Q (ok a) f h k = k a h
Ensures-bind P Q (err e) f h k = tt
Ensures-bind P Q out_of_fuel f h k = h

pub Ensures-if {ℓ} :
    {A : Type ℓ} (P : A → Type 0) (b : Bool) (m n : Result A)
    → (b ≡ true → Ensures P m)
    → (b ≡ false → Ensures P n)
    → Ensures P (if b then m else n)
Ensures-if P true m n hm hn = hm refl
Ensures-if P false m n hm hn = hn refl

-- A first attempt, and what is done if it finds nothing.
abbrev pub or_else {ℓ} : {A : Type ℓ} → Option A → Result A → Result A
or_else none r = r
or_else (some a) r = ok a

abbrev pub IfSome {ℓ} : {A : Type ℓ} → (A → Type 0) → Option A → Type 0
IfSome P none = Unit
IfSome P (some a) = P a

pub Ensures-or_else {ℓ} :
    {A : Type ℓ} (P : A → Type 0) (o : Option A) (r : Result A)
    → IfSome P o
    → Ensures P r
    → Ensures P (or_else o r)
Ensures-or_else P none r h k = k
Ensures-or_else P (some a) r h k = h

pub Ensures-map {ℓ} :
    {A : Type ℓ} (P Q : A → Type 0) (m : Result A)
    → ((a : A) → P a → Q a)
    → Ensures P m
    → Ensures Q m
Ensures-map P Q (ok a) f h = f a h
Ensures-map P Q (err e) f h = tt
Ensures-map P Q out_of_fuel f h = h

pub Ensures-ne {ℓ} : {A : Type ℓ} (P : A → Type 0) (m : Result A) → Ensures P m → m ≢ out_of_fuel
Ensures-ne P (ok a) h = λ e. cc
Ensures-ne P (err x) h = λ e. cc
Ensures-ne P out_of_fuel h = absurd h

pub Yields-bind {ℓ κ} :
    {A : Type ℓ} {B : Type κ} (First : A → Type 0) (Second : B → Type 0) (m : Result A)
    (f : A → Result B)
    → Yields First m
    → ((a : A) → First a → Yields Second (f a))
    → Yields Second (m >>= f)
Yields-bind P Q (ok a) f h k = k a h
Yields-bind P Q (err e) f h k = tt
Yields-bind P Q out_of_fuel f h k = tt

pub Yields-any {ℓ} : {A : Type ℓ} (m : Result A) → Yields (λ _. Unit) m
Yields-any (ok a) = tt
Yields-any (err e) = tt
Yields-any out_of_fuel = tt

pub Yields-map {ℓ} :
    {A : Type ℓ} (P Q : A → Type 0) (m : Result A) → ((a : A) → P a → Q a) → Yields P m → Yields Q m
Yields-map P Q (ok a) f h = f a h
Yields-map P Q (err e) f h = tt
Yields-map P Q out_of_fuel f h = tt
