-- ===== src/Compiled/Serializer/RoundTrip.antt =====
-- runtime/compiled/CompiledTemplateSerializer.cpp: `deserialize` behind `serialize`.
use prebyte.Base.{
  str, equal, ltb, take, drop, Bool, true, false, not, List, ◌++◌, map, ◌≡◌, refl, arith, Bytes,
  All, length, ◌==◌,
}
use prebyte.Result.{ok}
use prebyte.Compiled.Program.{
  TemplateInstruction, ExpressionInstruction, CompiledFunction, CompiledDependency, CompiledProgram,
  format_version,
}
use prebyte.Compiled.Opcodes.{
  template_opcode_code, template_opcode_of, IsNamedTemplate,
  template_opcode_of-template_opcode_code, template_opcode_code-lt, expression_opcode_code,
  expression_opcode_of, IsNamedExpression, expression_opcode_of-expression_opcode_code,
  expression_opcode_code-lt,
}
use prebyte.Compiled.Reader.{take_bytes, ◌>>=◌, append_number, append_u32, read_u32, append_items}
use prebyte.Compiled.Serializer.{
  append_instruction, append_dependency, append_function, append_sections, append_counts,
  append_program, serialize, bool_code, instruction_bytes, dependency_min_bytes, function_min_bytes,
  read_template_section, read_expression_section, read_data_section, read_dependency_section,
  read_function_section, read_instruction, read_dependency, read_function, read_program,
  check_version, magic, deserialize,
}
use prebyte.Compiled.Serializer.Decodes.{
  then_number, then_string, then_part, Decodes-end, Decodes-pure, Decodes-same_section, Decodes-all,
  Decodes, Decodes-section, Decodes-guarded, Decodes-take_bytes, IsU32, All-map,
}
use prebyte.Compiled.Serializer.Parts.{
  FitsInstruction, FitsDependency, FitsFunction, function_view, program_view, Decodes-instruction,
  Decodes-dependency, Decodes-function, length-append_instruction, length-append_dependency,
  length-append_function,
}

-- Every number fits into its word, every text and every list has a length that does, and every
-- opcode and every kind of function has a name.
pub record Fits (p : CompiledProgram) : Type 0 where
  pub logical_path : IsU32 (length p.logical_path)
  pub source_path : IsU32 (length p.source_path)
  pub variable_prefix : IsU32 (length p.parse_options.variable_prefix)
  pub variable_suffix : IsU32 (length p.parse_options.variable_suffix)
  pub tab_size : IsU32 p.parse_options.tab_size
  pub output_size_hint : IsU32 p.output_size_hint
  pub template_count : IsU32 (length p.template_instructions)
  pub expression_count : IsU32 (length p.expression_instructions)
  pub data_size : IsU32 (length p.data_blob)
  pub dependency_count : IsU32 (length p.dependencies)
  pub function_count : IsU32 (length p.functions)
  pub template_instructions : All (FitsInstruction IsNamedTemplate) p.template_instructions
  pub expression_instructions : All (FitsInstruction IsNamedExpression) p.expression_instructions
  pub dependencies : All FitsDependency p.dependencies
  pub functions : All FitsFunction p.functions

module _ (path : Bytes) where
  Decodes-template_section :
      (xs : List TemplateInstruction)
      → All (FitsInstruction IsNamedTemplate) xs
      → Decodes
          (read_template_section path (length xs))
          (append_items (append_instruction template_opcode_code) xs)
          xs
  unfolding read_template_section
  Decodes-template_section xs h =
      Decodes-same_section (read_instruction template_opcode_of)
        (append_instruction template_opcode_code) instruction_bytes path xs
        (length-append_instruction template_opcode_code)
        (All-map _ _ xs
          (Decodes-instruction IsNamedTemplate template_opcode_code template_opcode_of
            template_opcode_of-template_opcode_code template_opcode_code-lt)
          h)

  Decodes-expression_section :
      (xs : List ExpressionInstruction)
      → All (FitsInstruction IsNamedExpression) xs
      → Decodes
          (read_expression_section path (length xs))
          (append_items (append_instruction expression_opcode_code) xs)
          xs
  unfolding read_expression_section
  Decodes-expression_section xs h =
      Decodes-same_section (read_instruction expression_opcode_of)
        (append_instruction expression_opcode_code) instruction_bytes path xs
        (length-append_instruction expression_opcode_code)
        (All-map _ _ xs
          (Decodes-instruction IsNamedExpression expression_opcode_code expression_opcode_of
            expression_opcode_of-expression_opcode_code expression_opcode_code-lt)
          h)

  Decodes-data_section : (blob : Bytes) → Decodes (read_data_section path (length blob)) blob blob
  unfolding read_data_section
  Decodes-data_section blob =
      Decodes-guarded (length blob) _ path (take_bytes (length blob)) blob blob (omega arith)
        (Decodes-take_bytes blob)

  Decodes-dependency_section :
      (xs : List CompiledDependency)
      → All FitsDependency xs
      → Decodes (read_dependency_section path (length xs)) (append_items append_dependency xs) xs
  unfolding read_dependency_section
  Decodes-dependency_section xs h =
      Decodes-same_section read_dependency append_dependency dependency_min_bytes path xs
        length-append_dependency (All-map _ _ xs Decodes-dependency h)

  Decodes-function_section :
      (xs : List CompiledFunction)
      → All FitsFunction xs
      → Decodes
          (read_function_section path (length xs))
          (append_items append_function xs)
          (map function_view xs)
  unfolding read_function_section
  Decodes-function_section xs h =
      Decodes-section (read_function path) append_function function_view function_min_bytes path xs
        length-append_function (All-map _ _ xs (Decodes-function path) h)

  bool_code-lt : (b : Bool) → IsU32 (bool_code b)
  bool_code-lt true = omega arith
  bool_code-lt false = omega arith

  not-bool_code : (b : Bool) → not (bool_code b == 0) ≡ b
  not-bool_code true = refl
  not-bool_code false = refl

  Decodes-program :
      (p : CompiledProgram)
      → Fits p
      → Decodes (read_program path) (append_program p) (program_view p)
  unfolding read_program append_program append_counts append_sections
  Decodes-program p h =
      let o = p.parse_options in
      then_string p.logical_path _ h.logical_path (
        then_string p.source_path _ h.source_path (
          then_string o.variable_prefix _ h.variable_prefix (
            then_string o.variable_suffix _ h.variable_suffix (
              then_number 4 (bool_code o.replace_tabs) _ (bool_code-lt o.replace_tabs) (
                then_number 4 o.tab_size _ h.tab_size (
                  then_number 4 p.output_size_hint _ h.output_size_hint (
                    then_number 4 (length p.template_instructions) _ h.template_count (
                      then_number 4 (length p.expression_instructions) _ h.expression_count (
                        then_number 4 (length p.data_blob) _ h.data_size (
                          then_number 4 (length p.dependencies) _ h.dependency_count (
                            then_number 4 (length p.functions) _ h.function_count (
                              then_part _ _
                                (Decodes-template_section p.template_instructions
                                  h.template_instructions)
                                (then_part _ _
                                  (Decodes-expression_section p.expression_instructions
                                    h.expression_instructions)
                                  (then_part _ _ (Decodes-data_section p.data_blob) (
                                    then_part _ _
                                      (Decodes-dependency_section p.dependencies h.dependencies)
                                      (Decodes-end _ _
                                        (Decodes-function_section p.functions h.functions)
                                        (rw (not-bool_code o.replace_tabs)
                                          (Decodes-pure (program_view p)))))))))))))))))))

  Decodes-version :
      (p : CompiledProgram)
      → Fits p
      → Decodes
          (read_u32 >>= check_version path)
          (append_u32 format_version ++ append_program p)
          (program_view p)
  unfolding check_version
  Decodes-version p h =
      then_number 4 format_version (check_version path) (omega arith) (Decodes-program p h)

  header :
      (p : CompiledProgram)
      → (ltb (length (serialize p)) 8 ≡ false)
        × (equal (take 4 (serialize p)) magic ≡ true)
        × (drop 4 (serialize p) ≡ append_u32 format_version ++ append_program p)
  unfolding serialize append_number str equal
  header p = (ground arith, refl, refl)

  -- For a program whose numbers fit into their words, whose texts and lists have lengths that fit
  -- into 32 bits and whose opcodes and kinds of function are those that have names: `deserialize`
  -- of what `serialize` wrote for it is the program, except that the offsets of the functions'
  -- source locations, which are not written, are 0.
  pub deserialize-serialize :
      (p : CompiledProgram) → Fits p → deserialize path (serialize p) ≡ ok (program_view p)
  unfolding deserialize
  deserialize-serialize p h =
      let (long, begins, later) = header p in
      let e =
        Decodes-all (read_u32 >>= check_version path)
          (append_u32 format_version ++ append_program p) (program_view p) (Decodes-version p h) in
      rw (long, begins, later, e) refl
