-- ===== src/Tests/Compiled.antt =====
-- A compiled template of the text `Hi` with a function, written and read back.
use prebyte.Base.{false, [], ◌∷◌, ◌≡◌, arith}
use prebyte.Result.{SourceSpan, default_location, ok}
use prebyte.Compiled.Program.{
  TemplateOpcode, FunctionKind, CompiledDependency, CompiledFunction, CompiledProgram,
}
use prebyte.Compiled.Serializer.{serialize, deserialize}
use prebyte.Compiled.Serializer.Parts.{FitsDependency, FitsFunction, FitsLocation, program_view}
use prebyte.Compiled.Serializer.RoundTrip.{Fits, deserialize-serialize}

abbrev place : SourceSpan
place = record { file_path = 97 ∷ []; start = default_location; end = default_location }

abbrev half : CompiledFunction
half = record {
  kind = FunctionKind.template;
  name = 104 ∷ [];
  parameters = (120 ∷ []) ∷ [];
  body_range = record { offset = 1; length = 0 };
  lua_source = [];
  definition_file = 97 ∷ [];
  span = place;
}

abbrev dependency : CompiledDependency
dependency = record { path = 97 ∷ []; mtime_ticks = 5000000000 }

abbrev hi : CompiledProgram
hi = record {
  logical_path = 97 ∷ [];
  source_path = 97 ∷ [];
  parse_options = record {
    variable_prefix = 123 ∷ [];
    variable_suffix = 125 ∷ [];
    replace_tabs = false;
    tab_size = 4;
  };
  template_instructions =
      record {
        opcode = TemplateOpcode.emit_text;
        data_offset = 0;
        data_length = 2;
        arg0 = 0;
        arg1 = 0;
      }
      ∷ record { opcode = TemplateOpcode.end; data_offset = 0; data_length = 0; arg0 = 0; arg1 = 0 }
      ∷ [];
  expression_instructions = [];
  data_blob = 72 ∷ 105 ∷ [];
  dependencies = dependency ∷ [];
  functions = half ∷ [];
  output_size_hint = 2;
}

location-FitsLocation : FitsLocation default_location
location-FitsLocation = record { line = omega arith; column = omega arith }

dependency-FitsDependency : FitsDependency dependency
dependency-FitsDependency = record { path = omega arith; mtime_ticks = omega arith }

half-FitsFunction : FitsFunction half
half-FitsFunction = record {
  kind = tt;
  name = omega arith;
  parameter_count = omega arith;
  parameters = (omega arith, tt);
  offset = omega arith;
  size = omega arith;
  lua_source = omega arith;
  definition_file = omega arith;
  file_path = omega arith;
  start = location-FitsLocation;
  end = location-FitsLocation;
}

hi-Fits : Fits hi
hi-Fits = record {
  logical_path = omega arith;
  source_path = omega arith;
  variable_prefix = omega arith;
  variable_suffix = omega arith;
  tab_size = omega arith;
  output_size_hint = omega arith;
  template_count = omega arith;
  expression_count = omega arith;
  data_size = omega arith;
  dependency_count = omega arith;
  function_count = omega arith;
  template_instructions = (
    record {
      known = tt;
      data_offset = omega arith;
      data_length = omega arith;
      arg0 = omega arith;
      arg1 = omega arith;
    },
    (
      record {
        known = tt;
        data_offset = omega arith;
        data_length = omega arith;
        arg0 = omega arith;
        arg1 = omega arith;
      },
      tt,
    ),
  );
  expression_instructions = tt;
  dependencies = (dependency-FitsDependency, tt);
  functions = (half-FitsFunction, tt);
}

deserialize-serialize_example : deserialize (98 ∷ []) (serialize hi) ≡ ok (program_view hi)
deserialize-serialize_example = deserialize-serialize (98 ∷ []) hi hi-Fits
