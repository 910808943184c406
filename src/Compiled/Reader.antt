-- ===== src/Compiled/Reader.antt =====
-- runtime/compiled/CompiledTemplateSerializer.cpp: the helpers that read and write numbers and
-- texts. The bytes from `offset` on are the state of a reader.
use prebyte.Base.{
  ℕ, zero, suc, ◌+◌, ◌*◌, ◌/◌, ◌%◌, List, [], ◌∷◌, ◌++◌, Bytes, str, if◌then◌else◌, length, take,
  drop, ltb,
}
use prebyte.Result
use prebyte.Result.{Diagnostic, plain_diagnostic, diagnostic_error, Result, ok, err}

-- `make_compile_error`
abbrev pub make_compile_error : Bytes → Bytes → Diagnostic
make_compile_error message path =
    let d = plain_diagnostic (str "CACHE001") message in
    record d { span = record d.span { file_path = path } }

abbrev pub Reader {ℓ} : Type ℓ → Type ℓ
Reader A = Bytes → Result (A × Bytes)

unfoldable pub pure {ℓ} : {A : Type ℓ} → A → Reader A
pure a bytes = ok (a, bytes)

module _ {ℓ κ} {A : Type ℓ} {B : Type κ} where
  infixl 1 ◌>>=◌ ◌>>◌
  unfoldable pub ◌>>=◌ : Reader A → (A → Reader B) → Reader B
  f >>= g = λ bytes. Result.◌>>=◌ (f bytes) λ (a, rest). g a rest

  abbrev pub ◌>>◌ : Reader A → Reader B → Reader B
  f >> g = f >>= λ _. g

unfoldable pub fail {ℓ} : {A : Type ℓ} → Bytes → Bytes → Reader A
fail message path bytes = err (diagnostic_error (make_compile_error message path))

abbrev pub unexpected_end : Bytes
unexpected_end = str "Unexpected end of compiled template"

-- The loop over `shift`: the low byte first.
unfoldable pub append_number : ℕ → ℕ → Bytes
append_number zero value = []
append_number (suc count) value = value % 256 ∷ append_number count (value / 256)

abbrev pub append_u32 : ℕ → Bytes
append_u32 value = append_number 4 value

abbrev pub append_i64 : ℕ → Bytes
append_i64 raw = append_number 8 raw

unfoldable pub append_string : Bytes → Bytes
append_string value = append_u32 (length value) ++ value

-- The loop that puts the bytes together.
unfoldable pub number_of : ℕ → Bytes → ℕ
number_of zero bytes = 0
number_of (suc count) [] = 0
number_of (suc count) (b ∷ bytes) = b + 256 * number_of count bytes

-- The check, and what is done if enough bytes are left.
unfoldable pub guarded {ℓ} : {A : Type ℓ} → ℕ → Bytes → Bytes → Reader A → Reader A
guarded needed message path f bytes =
    if ltb (length bytes) needed then fail message path bytes else f bytes

unfoldable pub take_number : ℕ → Reader ℕ
take_number count bytes = ok (number_of count bytes, drop count bytes)

abbrev pub read_number : ℕ → Reader ℕ
read_number count = guarded count unexpected_end [] (take_number count)

abbrev pub read_u32 : Reader ℕ
read_u32 = read_number 4

abbrev pub read_i64 : Reader ℕ
read_i64 = read_number 8

-- The next bytes, as a text.
unfoldable pub take_bytes : ℕ → Reader Bytes
take_bytes size bytes = ok (take size bytes, drop size bytes)

unfoldable pub read_string : Reader Bytes
read_string = do size ← read_u32; guarded size unexpected_end [] (take_bytes size)

-- `require_remaining` of `mul_or_throw`, which never throws: the product of a `std::uint32_t` and a
-- small size fits into a `std::size_t` of 64 bits.
abbrev pub section_of {ℓ} : {A : Type ℓ} → ℕ → ℕ → Bytes → Reader A → Reader A
section_of count item_size path f =
    guarded (count * item_size) (str "Invalid compiled template section size") path f

-- `for (index = 0; index < count; ++index) { items.push_back(…); }`
unfoldable pub read_items {ℓ} : {A : Type ℓ} → ℕ → Reader A → Reader (List A)
read_items zero item = pure []
read_items (suc count) item = do first ← item; later ← read_items count item; pure (first ∷ later)

-- `for (item : items) { … }`
unfoldable pub append_items {ℓ} : {A : Type ℓ} → (A → Bytes) → List A → Bytes
append_items item [] = []
append_items item (x ∷ xs) = item x ++ append_items item xs
