-- ===== src/Runtime/Compiles.antt =====
-- runtime/compiled/CompiledTemplateCompiler.cpp and CompiledTemplateExecutor.cpp: code that is
-- emitted, and what the machine does with it.
use mathlib.Core.Path.{subst}
use prebyte.Base.{
  ◌≤◌, ◌<◌, false, Option, none, some, List, [], ◌∷◌, ◌++◌, append_assoc, append-nil, ◌≡◌, refl,
  sym, ap, ◌∙◌, inl, inr, Bool-cases, arith, Bytes, All, equal, equal_iff, length, length-append,
  take-append, drop-append, ltb,
}
use prebyte.Result.{ok, Yields}
use prebyte.Compiled.Program.{ExpressionInstruction, CompiledProgram}
use prebyte.Compiled.Compiler.State.{
  word, DataSlice, Builder, store_data, found_slice, find_slice, new_slice, append_data,
}
use prebyte.Runtime.Machine.{data_view}

-- A text that stands in the blob where its slice says.
pub record Held (blob value : Bytes) (slice : DataSlice) : Type 0 where
  pub before : Bytes
  pub behind : Bytes
  pub parts : blob ≡ before ++ (value ++ behind)
  pub offset : length before ≡ slice.offset
  pub size : length value ≡ slice.length

pub Held-append :
    (blob more value : Bytes) (slice : DataSlice)
    → Held blob value slice
    → Held (blob ++ more) value slice
Held-append blob more value slice h = record {
  before = h.before;
  behind = h.behind ++ more;
  parts =
      ap (λ b. b ++ more) h.parts
      ∙ append_assoc h.before (value ++ h.behind) more
      ∙ ap (λ b. h.before ++ b) (append_assoc value h.behind more);
  offset = h.offset;
  size = h.size;
}

pub data_view-Held :
    (p : CompiledProgram) (value : Bytes) (slice : DataSlice)
    → Held p.data_blob value slice
    → data_view p slice.offset slice.length ≡ ok value
unfolding data_view
data_view-Held p value slice h =
    let whole = length-append h.before (value ++ h.behind) in
    let long : ltb (length (h.before ++ (value ++ h.behind))) (length h.before) ≡ false =
      ground arith in
    rw
      (
        h.parts,
        sym h.offset,
        sym h.size,
        long,
        drop-append h.before (value ++ h.behind),
        take-append value h.behind,
      )
      refl

abbrev pub bytes_of : Builder → Bytes
bytes_of s = s.program.data_blob

abbrev pub code_of : Builder → List ExpressionInstruction
code_of s = s.program.expression_instructions

-- Every text that was stored is where its slice says.
abbrev pub Stored : Builder → Type 0
Stored s = All (λ (entry : Bytes × DataSlice). Held (bytes_of s) entry.0 entry.1) s.data_slices

-- Its sizes fit into 32 bits.
abbrev pub IsSmall : Builder → Type 0
IsSmall s = (length (code_of s) < 4294967296) × (length (bytes_of s) < 4294967296)

-- What is emitted is added at the end.
pub record Grows (s t : Builder) : Type 0 where
  pub code : length (code_of s) ≤ length (code_of t)
  pub bytes : length (bytes_of s) ≤ length (bytes_of t)

pub IsSmall-Grows : (s t : Builder) → Grows s t → IsSmall t → IsSmall s
IsSmall-Grows s t g h = (omega (arith, g.code, h.0), omega (arith, g.bytes, h.1))

found-Held :
    (blob : Bytes) (slices : List (Bytes × DataSlice)) (value : Bytes) (slice : DataSlice)
    → All (λ (entry : Bytes × DataSlice). Held blob entry.0 entry.1) slices
    → find_slice slices value ≡ some slice
    → Held blob value slice
unfolding find_slice
found-Held blob [] value slice h e = absurd (cc e)
found-Held blob ((key, other) ∷ slices) value slice h e = elim (Bool-cases (equal key value)) [
  | inl alike ↦
      let same : some other ≡ some slice = rw alike at (e) in
      subst (λ v. Held blob v slice) ((equal_iff key value).0 alike)
        (subst (Held blob key) (cc same) h.0)
  | inr differs ↦ found-Held blob slices value slice h.1 (rw differs at (e))
]

-- What storing a text comes to.
pub record Stores (s t : Builder) (value : Bytes) (slice : DataSlice) : Type 0 where
  pub code : code_of t ≡ code_of s
  pub more : Bytes
  pub bytes : bytes_of t ≡ bytes_of s ++ more
  pub held : Stored s → IsSmall t → Held (bytes_of t) value slice × Stored t

All-Held :
    (blob more : Bytes) (slices : List (Bytes × DataSlice))
    → All (λ (entry : Bytes × DataSlice). Held blob entry.0 entry.1) slices
    → All (λ (entry : Bytes × DataSlice). Held (blob ++ more) entry.0 entry.1) slices
All-Held blob more [] h = tt
All-Held blob more ((key, slice) ∷ slices) h =
    (Held-append blob more key slice h.0, All-Held blob more slices h.1)

new-Held :
    (s : Builder) (value : Bytes)
    → length (bytes_of s ++ value) < 4294967296
    → Held (bytes_of s ++ value) value (new_slice s value)
unfolding new_slice word
new-Held s value h =
    let whole = length-append (bytes_of s) value in
    record {
      before = bytes_of s;
      behind = [];
      parts = ap (λ b. bytes_of s ++ b) (sym (append-nil value));
      offset = omega (arith, whole);
      size = omega (arith, whole);
    }

fresh : (s : Builder) (value : Bytes) → Stores s (append_data s value) value (new_slice s value)
unfolding append_data
fresh s value = record {
  code = refl;
  more = value;
  bytes = refl;
  held = λ stored small.
      let held = new-Held s value small.1 in
      (held, (held, All-Held (bytes_of s) value s.data_slices stored));
}

found-Stores :
    (value : Bytes) (s : Builder) (o : Option DataSlice)
    → find_slice s.data_slices value ≡ o
    → Stores s (found_slice o value s).1 value (found_slice o value s).0
found-Stores value s (some slice) e = record {
  code = refl;
  more = [];
  bytes = sym (append-nil (bytes_of s));
  held = λ stored small. (found-Held (bytes_of s) s.data_slices value slice stored e, stored);
}
found-Stores value s none e = fresh s value

-- Storing a text always gives a slice and a state in which no instruction is new and the data is
-- what it was, with something added at its end at most. If every text that was stored before is
-- where its slice says, and the sizes of the new state fit into 32 bits, then the data has the text
-- where the slice that was given says, and every stored text is still where its slice says.
pub store_data_lem :
    (value : Bytes) (s : Builder)
    → (slice : DataSlice) × (t : Builder) × (store_data value s ≡ ok (slice, t))
      × Stores s t value slice
unfolding store_data
store_data_lem value s =
    let r = found_slice (find_slice s.data_slices value) value s in
    (r.0, r.1, refl, found-Stores value s (find_slice s.data_slices value) refl)

pub store_data-Stores :
    (value : Bytes) (s : Builder)
    → Yields (λ (r : DataSlice × Builder). Stores s r.1 value r.0) (store_data value s)
unfolding store_data
store_data-Stores value s = found-Stores value s (find_slice s.data_slices value) refl
