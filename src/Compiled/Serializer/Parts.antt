-- ===== src/Compiled/Serializer/Parts.antt =====
-- runtime/compiled/CompiledTemplateSerializer.cpp: the parts of a program.
use prebyte.Base.{ℕ, ◌≤◌, ◌<◌, List, map, ◌≡◌, arith, Bytes, All, length, length-append}
use prebyte.Result.{SourceLocation}
use prebyte.Compiled.Program.{Instruction, CompiledFunction, CompiledDependency, CompiledProgram}
use prebyte.Compiled.Opcodes.{
  function_kind_code, IsNamedKind, function_kind_of-function_kind_code, function_kind_code-lt,
}
use prebyte.Compiled.Reader.{
  append_number, append_u32, append_i64, read_string, append_string, append_items, read_items,
  section_of,
}
use prebyte.Compiled.Serializer.{
  append_instruction, append_dependency, append_location, append_function, instruction_bytes,
  dependency_min_bytes, function_min_bytes, read_instruction, read_dependency, read_location,
  read_function,
}
use prebyte.Compiled.Serializer.Decodes.{
  then_number, then_string, then_part, Decodes-end, Decodes-pure, Decodes-same_section,
  length-append_le, Decodes, Decodes-number, Decodes-u32, Decodes-string, IsU32, bound, All-map,
  length-append_number,
}

-- The fields of an instruction fit into their words, and its opcode has a name.
pub record FitsInstruction {Opcode : Type 0} (Known : Opcode → Type 0) (i : Instruction Opcode)
    : Type 0 where
  pub known : Known i.opcode
  pub data_offset : IsU32 i.data_offset
  pub data_length : IsU32 i.data_length
  pub arg0 : IsU32 i.arg0
  pub arg1 : IsU32 i.arg1

module _ {Opcode : Type 0} (Known : Opcode → Type 0) (code : Opcode → ℕ) (opcode_of : ℕ → Opcode)
    (inverse : (op : Opcode) → Known op → opcode_of (code op) ≡ op)
    (small : (op : Opcode) → Known op → IsU32 (code op)) where
  pub Decodes-instruction :
      (i : Instruction Opcode)
      → FitsInstruction Known i
      → Decodes (read_instruction opcode_of) (append_instruction code i) i
  unfolding read_instruction append_instruction
  Decodes-instruction i h = then_number 4 (code i.opcode) _ (small i.opcode h.known) (
      then_number 4 i.data_offset _ h.data_offset (
        then_number 4 i.data_length _ h.data_length (
          then_number 4 i.arg0 _ h.arg0 (
            Decodes-end _ _ (Decodes-u32 i.arg1 h.arg1)
              (rw (inverse i.opcode h.known) (Decodes-pure i))))))

-- A dependency's path fits, and its time is a pattern of 64 bits.
pub record FitsDependency (d : CompiledDependency) : Type 0 where
  pub path : IsU32 (length d.path)
  pub mtime_ticks : d.mtime_ticks < bound 8

pub Decodes-dependency :
    (d : CompiledDependency) → FitsDependency d → Decodes read_dependency (append_dependency d) d
unfolding read_dependency append_dependency
Decodes-dependency d h =
    then_string d.path _ h.path
      (Decodes-end _ _ (Decodes-number 8 d.mtime_ticks h.mtime_ticks) (Decodes-pure d))

pub record FitsLocation (l : SourceLocation) : Type 0 where
  pub line : IsU32 l.line
  pub column : IsU32 l.column

-- What the file holds of a location, of a function and of a program.
abbrev pub location_view : SourceLocation → SourceLocation
location_view l = record l { offset = 0 }

abbrev pub function_view : CompiledFunction → CompiledFunction
function_view f = record f {
  span = record f.span { start = location_view f.span.start; end = location_view f.span.end };
}

abbrev pub program_view : CompiledProgram → CompiledProgram
program_view p = record p { functions = map function_view p.functions }

Decodes-location :
    (l : SourceLocation)
    → FitsLocation l
    → Decodes read_location (append_location l) (location_view l)
unfolding read_location append_location
Decodes-location l h =
    then_number 4 l.line _ h.line
      (Decodes-end _ _ (Decodes-u32 l.column h.column) (Decodes-pure (location_view l)))

pub record FitsFunction (f : CompiledFunction) : Type 0 where
  pub kind : IsNamedKind f.kind
  pub name : IsU32 (length f.name)
  pub parameter_count : IsU32 (length f.parameters)
  pub parameters : All (λ parameter. IsU32 (length parameter)) f.parameters
  pub offset : IsU32 f.body_range.offset
  pub size : IsU32 f.body_range.length
  pub lua_source : IsU32 (length f.lua_source)
  pub definition_file : IsU32 (length f.definition_file)
  pub file_path : IsU32 (length f.span.file_path)
  pub start : FitsLocation f.span.start
  pub end : FitsLocation f.span.end

length-append_string : (value : Bytes) → 4 ≤ length (append_string value)
unfolding append_string
length-append_string value =
    let whole = length-append (append_u32 (length value)) value in
    omega (arith, whole, length-append_number 4 (length value))

Decodes-parameters :
    (path : Bytes) (ps : List Bytes)
    → All (λ p. IsU32 (length p)) ps
    → Decodes
        (section_of (length ps) 4 path (read_items (length ps) read_string))
        (append_items append_string ps)
        ps
Decodes-parameters path ps h =
    Decodes-same_section read_string append_string 4 path ps length-append_string
      (All-map _ _ ps Decodes-string h)

pub Decodes-function :
    (path : Bytes) (f : CompiledFunction)
    → FitsFunction f
    → Decodes (read_function path) (append_function f) (function_view f)
unfolding read_function append_function
Decodes-function path f h =
    then_number 4 (function_kind_code f.kind) _ (function_kind_code-lt f.kind h.kind) (
      then_string f.name _ h.name (
        then_number 4 (length f.parameters) _ h.parameter_count (
          then_part _ _ (Decodes-parameters path f.parameters h.parameters) (
            then_number 4 f.body_range.offset _ h.offset (
              then_number 4 f.body_range.length _ h.size (
                then_string f.lua_source _ h.lua_source (
                  then_string f.definition_file _ h.definition_file (
                    then_string f.span.file_path _ h.file_path (
                      then_part _ _ (Decodes-location f.span.start h.start) (
                        Decodes-end _ _ (Decodes-location f.span.end h.end) (
                          rw (function_kind_of-function_kind_code f.kind h.kind)
                            (Decodes-pure (function_view f)))))))))))))

pub length-append_instruction :
    {Opcode : Type 0} (code : Opcode → ℕ) (i : Instruction Opcode)
    → instruction_bytes ≤ length (append_instruction code i)
unfolding append_instruction append_number
length-append_instruction code i = omega arith

pub length-append_dependency :
    (d : CompiledDependency) → dependency_min_bytes ≤ length (append_dependency d)
unfolding append_dependency
length-append_dependency d = omega (
  arith,
  length-append (append_string d.path) (append_i64 d.mtime_ticks),
  length-append_string d.path,
  length-append_number 8 d.mtime_ticks,
)

pub length-append_function :
    (f : CompiledFunction) → function_min_bytes ≤ length (append_function f)
unfolding append_function
length-append_function f =
    let le : (n value : ℕ) → n ≤ length (append_number n value) =
      λ n value. omega (arith, length-append_number n value) in
    let text = length-append_string in
    let tail =
      length-append_le {n = 0} (append_string f.lua_source) _ (text f.lua_source) (omega arith) in
    let size =
      length-append_le (append_u32 f.body_range.length) _ (le 4 f.body_range.length) tail in
    let offset =
      length-append_le (append_u32 f.body_range.offset) _ (le 4 f.body_range.offset) size in
    let items =
      length-append_le {m = 0} {n = 12} (append_items append_string f.parameters) _ (omega arith)
        offset in
    let count =
      length-append_le (append_u32 (length f.parameters)) _ (le 4 (length f.parameters)) items in
    let name = length-append_le (append_string f.name) _ (text f.name) count in
    length-append_le (append_u32 (function_kind_code f.kind)) _ (le 4 (function_kind_code f.kind))
      name
