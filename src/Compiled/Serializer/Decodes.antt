-- ===== src/Compiled/Serializer/Decodes.antt =====
-- Readers of runtime/compiled/CompiledTemplateSerializer.cpp, and the bytes that they read.
use prebyte.Base.{
  ℕ, zero, suc, ◌+◌, ◌*◌, ◌/◌, ◌≤◌, ◌<◌, false, map, List, [], ◌∷◌, ◌++◌, ◌≡◌, refl, ap, arith,
  Bytes, All, append_assoc, append-nil, length, length-append, drop, take-append, drop-append, ltb,
}
use mathlib.Core.Path.{subst}
use prebyte.Result.{ok}
use prebyte.Compiled.Reader.{
  Reader, pure, ◌>>=◌, append_number, append_u32, read_u32, append_string, append_items, number_of,
  guarded, take_number, read_number, read_string, section_of, take_bytes, read_items,
  unexpected_end,
}

-- The reader reads exactly these bytes, whatever stands behind them, and returns the value.
pub record Decodes {A : Type 0} (f : Reader A) (bytes : Bytes) (a : A) : Type 0 where
  pub reads : (rest : Bytes) → f (bytes ++ rest) ≡ ok (a, rest)

pub Decodes-pure : {A : Type 0} (a : A) → Decodes (pure a) [] a
unfolding pure
Decodes-pure a = record { reads = λ rest. refl }

pub Decodes-bind :
    {A B : Type 0} (f : Reader A) (g : A → Reader B) (bytes more : Bytes) (a : A) (b : B)
    → Decodes f bytes a
    → Decodes (g a) more b
    → Decodes (f >>= g) (bytes ++ more) b
unfolding ◌>>=◌
Decodes-bind f g bytes more a b h k = record {
  reads = λ rest. rw (append_assoc bytes more rest, h.reads (more ++ rest)) (k.reads rest);
}

-- The last part of a record.
pub Decodes-last :
    {A B : Type 0} (f : Reader A) (g : A → B) (bytes : Bytes) (a : A) (b : B)
    → g a ≡ b
    → Decodes f bytes a
    → Decodes (f >>= λ x. pure (g x)) bytes b
unfolding ◌>>=◌ pure
Decodes-last f g bytes a b e h = record { reads = λ rest. rw (h.reads rest, e) refl }

pub Decodes-guarded :
    {A : Type 0} (needed : ℕ) (message path : Bytes) (f : Reader A) (bytes : Bytes) (a : A)
    → needed ≤ length bytes
    → Decodes f bytes a
    → Decodes (guarded needed message path f) bytes a
unfolding guarded
Decodes-guarded needed message path f bytes a le h = record {
  reads = λ rest.
      let whole = length-append bytes rest in
      let fits : ltb (length (bytes ++ rest)) needed ≡ false = ground arith in
      rw fits (h.reads rest);
}

pub Decodes-take_bytes : (bytes : Bytes) → Decodes (take_bytes (length bytes)) bytes bytes
unfolding take_bytes
Decodes-take_bytes bytes = record {
  reads = λ rest. rw (take-append bytes rest, drop-append bytes rest) refl;
}

-- 256 to the power
abbrev pub bound : ℕ → ℕ
bound zero = 1
bound (suc n) = 256 * bound n

pub length-append_number : (count value : ℕ) → length (append_number count value) ≡ count
unfolding append_number
length-append_number zero value = refl
length-append_number (suc count) value = ap suc (length-append_number count (value / 256))

number_of-append_number :
    (count value : ℕ) (rest : Bytes)
    → value < bound count
    → (number_of count (append_number count value ++ rest) ≡ value)
      × (drop count (append_number count value ++ rest) ≡ rest)
unfolding number_of append_number
number_of-append_number zero value rest h = (omega arith, refl)
number_of-append_number (suc count) value rest h =
    let (number, dropped) = number_of-append_number count (value / 256) rest (omega arith) in
    (omega arith, dropped)

pub Decodes-number :
    (count value : ℕ)
    → value < bound count
    → Decodes (read_number count) (append_number count value) value
unfolding take_number
Decodes-number count value h =
    Decodes-guarded count unexpected_end [] (take_number count) (append_number count value) value
      (omega (arith, length-append_number count value))
      (record {
        reads = λ rest.
            let (number, dropped) = number_of-append_number count value rest h in
            rw (number, dropped) refl;
      })

-- A number that fits into a `std::uint32_t`.
abbrev pub IsU32 : ℕ → Type 0
IsU32 n = n < bound 4

pub Decodes-u32 : (value : ℕ) → IsU32 value → Decodes read_u32 (append_u32 value) value
Decodes-u32 value h = Decodes-number 4 value h

pub Decodes-string :
    (value : Bytes) → IsU32 (length value) → Decodes read_string (append_string value) value
unfolding read_string append_string
Decodes-string value h =
    Decodes-bind read_u32 _ (append_u32 (length value)) value (length value) value
      (Decodes-u32 (length value) h)
      (Decodes-guarded (length value) unexpected_end [] (take_bytes (length value)) value value
        (omega arith) (Decodes-take_bytes value))

-- The steps of a record's reader: a number, a text, and any other part.
pub then_number :
    {B : Type 0} {more : Bytes} {b : B} (count value : ℕ) (g : ℕ → Reader B)
    → value < bound count
    → Decodes (g value) more b
    → Decodes (read_number count >>= g) (append_number count value ++ more) b
then_number {more = more} {b} count value g h k =
    Decodes-bind (read_number count) g (append_number count value) more value b
      (Decodes-number count value h) k

pub then_string :
    {B : Type 0} {more : Bytes} {b : B} (value : Bytes) (g : Bytes → Reader B)
    → IsU32 (length value)
    → Decodes (g value) more b
    → Decodes (read_string >>= g) (append_string value ++ more) b
then_string {more = more} {b} value g h k =
    Decodes-bind read_string g (append_string value) more value b (Decodes-string value h) k

pub then_part :
    {A B : Type 0} {bytes more : Bytes} {a : A} {b : B} (f : Reader A) (g : A → Reader B)
    → Decodes f bytes a
    → Decodes (g a) more b
    → Decodes (f >>= g) (bytes ++ more) b
then_part {bytes = bytes} {more} {a} {b} f g h k = Decodes-bind f g bytes more a b h k

-- The last part, behind which the record is put together.
pub Decodes-end :
    {A B : Type 0} {bytes : Bytes} {a : A} {b : B} (f : Reader A) (g : A → Reader B)
    → Decodes f bytes a
    → Decodes (g a) [] b
    → Decodes (f >>= g) bytes b
Decodes-end {bytes = bytes} {a} {b} f g h k =
    subst (λ all. Decodes (f >>= g) all b) (append-nil bytes) (Decodes-bind f g bytes [] a b h k)

module _ {A : Type 0} (item : Reader A) (write : A → Bytes) (view : A → A) where
  pub Decodes-items :
      (xs : List A)
      → All (λ x. Decodes item (write x) (view x)) xs
      → Decodes (read_items (length xs) item) (append_items write xs) (map view xs)
  unfolding read_items append_items
  Decodes-items [] h = Decodes-pure []
  Decodes-items (x ∷ xs) h =
      Decodes-bind item _ (write x) (append_items write xs) (view x) (view x ∷ map view xs) h.0 (
        Decodes-last (read_items (length xs) item) (λ later. view x ∷ later) (append_items write xs)
          (map view xs) (view x ∷ map view xs) refl (Decodes-items xs h.1))

  pub length-append_items :
      (size : ℕ) (xs : List A)
      → ((x : A) → size ≤ length (write x))
      → length xs * size ≤ length (append_items write xs)
  unfolding append_items
  length-append_items size [] h = omega arith
  length-append_items size (x ∷ xs) h =
      grind
        (arith, length-append_items size xs h, length-append (write x) (append_items write xs), h x)

  -- A section of items, each of `size` bytes at least.
  pub Decodes-section :
      (size : ℕ) (path : Bytes) (xs : List A)
      → ((x : A) → size ≤ length (write x))
      → All (λ x. Decodes item (write x) (view x)) xs
      → Decodes
          (section_of (length xs) size path (read_items (length xs) item))
          (append_items write xs)
          (map view xs)
  Decodes-section size path xs long h =
      Decodes-guarded (length xs * size) _ path (read_items (length xs) item)
        (append_items write xs) (map view xs) (length-append_items size xs long)
        (Decodes-items xs h)

pub map_same : {A : Type 0} (xs : List A) → map (λ x. x) xs ≡ xs
map_same [] = refl
map_same (x ∷ xs) = ap (◌∷◌ x) (map_same xs)

pub All-map :
    {A : Type 0} (P Q : A → Type 0) (xs : List A) → ((x : A) → P x → Q x) → All P xs → All Q xs
All-map P Q [] f h = tt
All-map P Q (x ∷ xs) f h = (f x h.0, All-map P Q xs f h.1)

-- A section whose items hold all there is to know of them.
pub Decodes-same_section :
    {A : Type 0} (item : Reader A) (write : A → Bytes) (size : ℕ) (path : Bytes) (xs : List A)
    → ((x : A) → size ≤ length (write x))
    → All (λ x. Decodes item (write x) x) xs
    → Decodes
        (section_of (length xs) size path (read_items (length xs) item))
        (append_items write xs)
        xs
Decodes-same_section item write size path xs long h =
    subst
      (Decodes (section_of (length xs) size path (read_items (length xs) item))
        (append_items write xs))
      (map_same xs) (Decodes-section item write (λ x. x) size path xs long h)

-- With nothing behind them.
pub Decodes-all :
    {A : Type 0} (f : Reader A) (bytes : Bytes) (a : A) → Decodes f bytes a → f bytes ≡ ok (a, [])
Decodes-all f bytes a h = subst (λ all. f all ≡ ok (a, [])) (append-nil bytes) (h.reads [])

pub length-append_le :
    {m n : ℕ} (xs ys : Bytes) → m ≤ length xs → n ≤ length ys → m + n ≤ length (xs ++ ys)
length-append_le xs ys h k = omega (arith, length-append xs ys)
