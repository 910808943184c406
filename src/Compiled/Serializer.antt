-- ===== src/Compiled/Serializer.antt =====
-- runtime/compiled/CompiledTemplateSerializer.cpp: `serialize` and `deserialize`. What is read and
-- what stands behind it in the file are written in the order of the file.
pub mod Decodes
pub mod Parts
pub mod RoundTrip
use prebyte.Base.{
  ℕ, Bool, true, false, not, List, [], ◌∷◌, ◌++◌, Bytes, str, if◌then◌else◌, length, take, drop,
  ltb, equal, ◌==◌, ◌||◌,
}
use prebyte.Result
use prebyte.Result.{SourceLocation, Result, ok, err, diagnostic_error}
use prebyte.Compiled.Program.{
  Instruction, TemplateInstruction, ExpressionInstruction, CompiledFunction, CompiledDependency,
  CompiledProgram, format_version,
}
use prebyte.Compiled.Opcodes.{
  template_opcode_code, template_opcode_of, expression_opcode_code, expression_opcode_of,
  function_kind_code, function_kind_of,
}
use prebyte.Compiled.Reader.{
  Reader, pure, ◌>>=◌, fail, make_compile_error, append_u32, append_i64, append_string,
  append_items, read_u32, read_i64, read_string, guarded, section_of, take_bytes, read_items,
}

abbrev pub magic : Bytes
magic = str "PBC1"

-- kInstructionBytes, kDependencyMinBytes and kFunctionMinBytes
abbrev pub instruction_bytes : ℕ
instruction_bytes = 20

abbrev pub dependency_min_bytes : ℕ
dependency_min_bytes = 12

abbrev pub function_min_bytes : ℕ
function_min_bytes = 24

abbrev pub bool_code : Bool → ℕ
bool_code true = 1
bool_code false = 0

-- The body of the loops over instructions, for the numbers of either kind of opcode.
unfoldable pub append_instruction : {Opcode : Type 0} → (Opcode → ℕ) → Instruction Opcode → Bytes
append_instruction code i =
    append_u32 (code i.opcode)
    ++ (append_u32 i.data_offset
        ++ (append_u32 i.data_length ++ (append_u32 i.arg0 ++ append_u32 i.arg1)))

unfoldable pub append_dependency : CompiledDependency → Bytes
append_dependency d = append_string d.path ++ append_i64 d.mtime_ticks

unfoldable pub append_location : SourceLocation → Bytes
append_location l = append_u32 l.line ++ append_u32 l.column

unfoldable pub append_function : CompiledFunction → Bytes
append_function f =
    append_u32 (function_kind_code f.kind)
    ++ (append_string f.name
        ++ (append_u32 (length f.parameters)
            ++ (append_items append_string f.parameters
                ++ (append_u32 f.body_range.offset
                    ++ (append_u32 f.body_range.length
                        ++ (append_string f.lua_source
                            ++ (append_string f.definition_file
                                ++ (append_string f.span.file_path
                                    ++ (append_location f.span.start
                                        ++ append_location f.span.end)))))))))

-- The sections behind the counts.
unfoldable pub append_sections : CompiledProgram → Bytes
append_sections p =
    append_items (append_instruction template_opcode_code) p.template_instructions
    ++ (append_items (append_instruction expression_opcode_code) p.expression_instructions
        ++ (p.data_blob
            ++ (append_items append_dependency p.dependencies
                ++ append_items append_function p.functions)))

unfoldable pub append_counts : CompiledProgram → Bytes
append_counts p =
    append_u32 (length p.template_instructions)
    ++ (append_u32 (length p.expression_instructions)
        ++ (append_u32 (length p.data_blob)
            ++ (append_u32 (length p.dependencies)
                ++ (append_u32 (length p.functions) ++ append_sections p))))

-- Behind the version.
unfoldable pub append_program : CompiledProgram → Bytes
append_program p =
    append_string p.logical_path
    ++ (append_string p.source_path
        ++ (append_string p.parse_options.variable_prefix
            ++ (append_string p.parse_options.variable_suffix
                ++ (append_u32 (bool_code p.parse_options.replace_tabs)
                    ++ (append_u32 p.parse_options.tab_size
                        ++ (append_u32 p.output_size_hint ++ append_counts p))))))

-- `CompiledTemplateSerializer::serialize`
unfoldable pub serialize : CompiledProgram → Bytes
serialize p = magic ++ (append_u32 format_version ++ append_program p)

unfoldable pub read_instruction : {Opcode : Type 0} → (ℕ → Opcode) → Reader (Instruction Opcode)
read_instruction opcode_of = do
  opcode ← read_u32
  data_offset ← read_u32
  data_length ← read_u32
  arg0 ← read_u32
  arg1 ← read_u32
  pure (record {
    opcode = opcode_of opcode;
    data_offset = data_offset;
    data_length = data_length;
    arg0 = arg0;
    arg1 = arg1;
  })

unfoldable pub read_dependency : Reader CompiledDependency
read_dependency = do
  path ← read_string
  mtime_ticks ← read_i64
  pure (record { path = path; mtime_ticks = mtime_ticks })

-- A location without its offset, which the file does not hold.
unfoldable pub read_location : Reader SourceLocation
read_location = do
  line ← read_u32
  column ← read_u32
  pure (record { offset = 0; line = line; column = column })

module _ (compiled_path : Bytes) where
  unfoldable pub read_function : Reader CompiledFunction
  read_function = do
    kind ← read_u32
    name ← read_string
    parameter_count ← read_u32
    parameters ← section_of parameter_count 4 compiled_path (read_items parameter_count read_string)
    offset ← read_u32
    size ← read_u32
    lua_source ← read_string
    definition_file ← read_string
    file_path ← read_string
    start ← read_location
    end ← read_location
    pure (record {
      kind = function_kind_of kind;
      name = name;
      parameters = parameters;
      body_range = record { offset = offset; length = size };
      lua_source = lua_source;
      definition_file = definition_file;
      span = record { file_path = file_path; start = start; end = end };
    })

  unfoldable pub read_template_section : ℕ → Reader (List TemplateInstruction)
  read_template_section count =
      section_of count instruction_bytes compiled_path
        (read_items count (read_instruction template_opcode_of))

  unfoldable pub read_expression_section : ℕ → Reader (List ExpressionInstruction)
  read_expression_section count =
      section_of count instruction_bytes compiled_path
        (read_items count (read_instruction expression_opcode_of))

  unfoldable pub read_data_section : ℕ → Reader Bytes
  read_data_section size =
      guarded size (str "Invalid compiled template data section") compiled_path (take_bytes size)

  unfoldable pub read_dependency_section : ℕ → Reader (List CompiledDependency)
  read_dependency_section count =
      section_of count dependency_min_bytes compiled_path (read_items count read_dependency)

  unfoldable pub read_function_section : ℕ → Reader (List CompiledFunction)
  read_function_section count =
      section_of count function_min_bytes compiled_path (read_items count read_function)

  -- Behind the version.
  unfoldable pub read_program : Reader CompiledProgram
  read_program = do
    logical_path ← read_string
    source_path ← read_string
    variable_prefix ← read_string
    variable_suffix ← read_string
    replace_tabs ← read_u32
    tab_size ← read_u32
    output_size_hint ← read_u32
    template_count ← read_u32
    expression_count ← read_u32
    data_size ← read_u32
    dependency_count ← read_u32
    function_count ← read_u32
    template_instructions ← read_template_section template_count
    expression_instructions ← read_expression_section expression_count
    data_blob ← read_data_section data_size
    dependencies ← read_dependency_section dependency_count
    functions ← read_function_section function_count
    pure (record {
      logical_path = logical_path;
      source_path = source_path;
      parse_options = record {
        variable_prefix = variable_prefix;
        variable_suffix = variable_suffix;
        replace_tabs = not (replace_tabs == 0);
        tab_size = tab_size;
      };
      template_instructions = template_instructions;
      expression_instructions = expression_instructions;
      data_blob = data_blob;
      dependencies = dependencies;
      functions = functions;
      output_size_hint = output_size_hint;
    })

  unfoldable pub check_version : ℕ → Reader CompiledProgram
  check_version version =
      if version == format_version
      then read_program
      else fail (str "Unsupported compiled template version") compiled_path

  abbrev pub drop_rest : Result (CompiledProgram × Bytes) → Result CompiledProgram
  drop_rest r = Result.◌>>=◌ r λ (program, rest). ok program

  -- `CompiledTemplateSerializer::deserialize`. Bytes behind the program are not looked at.
  unfoldable pub deserialize : Bytes → Result CompiledProgram
  deserialize bytes =
      if ltb (length bytes) 8 || not (equal (take 4 bytes) magic)
      then err (
          diagnostic_error
            (make_compile_error (str "Invalid compiled template header") compiled_path))
      else drop_rest ((read_u32 >>= check_version) (drop 4 bytes))
