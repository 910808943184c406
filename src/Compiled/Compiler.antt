-- ===== src/Compiled/Compiler.antt =====
-- runtime/compiled/CompiledTemplateCompiler.cpp: `compile_document` and `compile_source`. What
-- `std::filesystem` does with a path is a parameter, as are the times of files.
pub mod State
pub mod Expressions
pub mod Blocks
pub mod Described
pub mod Accepted
use prebyte.Base.{ℕ, Bool, Option, none, some, List, [], ◌∷◌, Bytes, if◌then◌else◌}
use prebyte.Result
use prebyte.Result.{Result, ok}
use prebyte.Template.Node.{Nodes}
use prebyte.Template.Lexer.State.{Delimiters}
use prebyte.Template.Compile.{document}
use prebyte.Config.Settings.{EffectiveSettings}
use prebyte.Compiled.Program.{TemplateOpcode, CompiledDependency, CompiledProgram}
use prebyte.Compiled.Compiler.State.{word, Builder, Compiler, ◌>>=◌, ◌>>◌}
use prebyte.Compiled.Compiler.Expressions.{DoubleOps}
use prebyte.Compiled.Compiler.Blocks.{bare, emit, compile_nodes}

-- `std::filesystem`, and `FileMetadataCache::probe` with the time of a file that there is.
pub record PathOps : Type 0 where
  pub is_absolute : Bytes → Bool
  pub lexically_normal : Bytes → Bytes
  pub current_path : Bytes
  pub append : Bytes → Bytes → Bytes
  pub probe : Bytes → Option ℕ

module _ (paths : PathOps) where
  -- `(current_working_directory() / path)`, if there is such a directory
  unfoldable pub below_directory : Bytes → Bytes → Bytes
  below_directory [] path = path
  below_directory (b ∷ directory) path = paths.append (b ∷ directory) path

  -- `canonical_path`
  unfoldable pub canonical_path : Bytes → Bytes
  canonical_path [] = []
  canonical_path (b ∷ path) =
      if paths.is_absolute (b ∷ path)
      then paths.lexically_normal (b ∷ path)
      else paths.lexically_normal (below_directory paths.current_path (b ∷ path))

  abbrev pub ticks_or_zero : Option ℕ → ℕ
  ticks_or_zero none = 0
  ticks_or_zero (some ticks) = ticks

  -- `file_mtime_ticks`
  unfoldable pub file_mtime_ticks : Bytes → ℕ
  file_mtime_ticks [] = 0
  file_mtime_ticks (b ∷ path) = ticks_or_zero (paths.probe (b ∷ path))

  unfoldable pub source_dependency : Bytes → List CompiledDependency
  source_dependency [] = []
  source_dependency (b ∷ path) =
      record { path = b ∷ path; mtime_ticks = file_mtime_ticks (b ∷ path) } ∷ []

  abbrev pub non_empty_or : Bytes → Bytes → Bytes
  non_empty_or [] other = other
  non_empty_or (b ∷ path) other = b ∷ path

  -- The constructor of `CompilerBuilder`.
  unfoldable pub initial_builder : Bytes → Bytes → EffectiveSettings → Builder
  initial_builder source_path logical_path settings =
      let source = canonical_path source_path in
      record {
        program = record {
          logical_path = non_empty_or logical_path source;
          source_path = source;
          parse_options = record {
            variable_prefix = settings.variable_prefix;
            variable_suffix = settings.variable_suffix;
            replace_tabs = settings.replace_tabs;
            tab_size = word settings.tab_size;
          };
          template_instructions = [];
          expression_instructions = [];
          data_blob = [];
          dependencies = source_dependency source;
          functions = [];
          output_size_hint = 0;
        };
        data_slices = [];
        for_loop_stack = [];
        output_size_hint = 0;
      }

-- The hint is written when all instructions are there.
abbrev pub finished : Builder → CompiledProgram
finished s = record s.program { output_size_hint = s.output_size_hint }

module _ {D : Type 0} (double : DoubleOps D) where
  unfoldable pub compile_all : Nodes D → Compiler Unit
  compile_all document = do compile_nodes double document; emit (bare TemplateOpcode.end 0)

  -- `CompilerBuilder::build`
  unfoldable pub build : Nodes D → Builder → Result CompiledProgram
  build document s = Result.◌>>=◌ (compile_all document s) λ (done, t). ok (finished t)

  -- `CompiledTemplateCompiler::compile_document`
  unfoldable pub compile_document :
      PathOps → Nodes D → Bytes → Bytes → EffectiveSettings → Result CompiledProgram
  compile_document paths document source_path logical_path settings =
      build document (initial_builder paths source_path logical_path settings)

  -- `CompiledTemplateCompiler::compile_source`
  unfoldable pub compile_source :
      (Bytes → Option D)
      → PathOps
      → Bytes
      → Bytes
      → Bytes
      → EffectiveSettings
      → Result CompiledProgram
  compile_source stod paths source source_path logical_path settings =
      let delimiters : Delimiters = record {
        file_path = logical_path;
        tag_prefix = settings.variable_prefix;
        tag_suffix = settings.variable_suffix;
      } in
      Result.◌>>=◌ (document stod delimiters source)
        λ nodes. compile_document paths nodes source_path logical_path settings
