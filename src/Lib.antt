-- ===== src/Lib.antt =====
-- Prebyte renders text templates. This is a model of the command line, the settings, the way from
-- the source of a template to its compiled program, the file that holds such a program, and the
-- stack machine that evaluates the expressions of a program.
--
-- How the parts fit together. `CommandParser` turns the arguments of the program into a command.
-- `ProfileMerger` lays the profiles that the command names over the settings, and `RuleResolver`
-- makes the effective settings of a file from them and from the rules of the command line. These
-- settings hold the delimiters of tags. `CompiledTemplateCompiler::compile_source` gives the source
-- and the delimiters to `TemplateLexer`, whose tokens `TemplateParser` turns into a document, and
-- `CompilerBuilder` emits the instructions of the document. `CompiledTemplateSerializer` writes the
-- program to a file and reads it back, and `CompiledTemplateExecutor` runs it.
--
-- Files, and the code that they are about (below src/main/cpp and src/main/include):
--   Result           support/SourceSpan.h, support/Diagnostic.h; exceptions as values
--   Text             support/TextUtil.h; Text/Split, Text/Case and Text/Trim have its laws
--   Template/Token   template/lexer/TemplateToken.h
--   Template/Lexer   template/lexer/: Cursor (`advance`), State (the fields and `add_token`), Texts
--                    (`lex_text`), Tag (`lex_inside_tag`), Strings (`lex_string`), Keywords
--   Template/Expression, Template/Node   template/ast/
--   Template/Parser  template/parser/: Stream (`peek`, `match`, `consume`), Names (reserved names),
--                    Expressions, Directives and Blocks (one function for each method)
--   Template/Compile the lexer and the parser in turn, as `compile_source` calls them
--   Compiled         runtime/compiled/: Program and Opcodes (CompiledTemplateProgram.h), Reader and
--                    Serializer (CompiledTemplateSerializer.cpp), Compiler
--                    (CompiledTemplateCompiler.cpp) with State (the members of `CompilerBuilder`
--                    and what writes to them), Expressions (`compile_expression_node`), Blocks
--                    (`compile_node`), Described (operators, paths and indices by themselves, apart
--                    from the compiler) and Accepted (the expressions that are compiled)
--   Runtime          Data (datatypes/Data.h), Value (runtime/core/Value.cpp), Filters and Resolver
--                    (runtime/expression/FilterRegistry.cpp, ValueResolver.cpp), Machine
--                    (`evaluate_expression` of runtime/compiled/CompiledTemplateExecutor.cpp) and
--                    Meaning (the values of expressions, with no machine). Runs, Performs, Effects,
--                    Jumps and Equations are about pieces of code that the machine runs, Compiles,
--                    Emitted, Patched and Correct about the pieces that the compiler emits, and
--                    Evaluation about an expression as a whole; Operators relates
--                    opcodes and operators; Filters/Replaced and Filters/Cased are about the
--                    filters on texts, Resolver/Bounded about the lengths of texts; Lone and
--                    Single are about ranges of one instruction
--   Command          cli/CommandParser.cpp, app/Command.h
--   Config           config/ConfigTypes.h (Settings), config/RuleResolver.cpp (Rules, Resolver),
--                    config/ProfileMerger.cpp (Profiles); Map is `std::map` of strings
--   Base             names of the libraries, lists and tests on native numbers, strings as bytes
--   Tests            runs on small inputs
--
-- How the code is modelled. A string is the list of its bytes. A method that changes the fields of
-- an object takes them as a record and returns them. An exception is a value of `Result`. The
-- cursor of the lexer is the source that is left, with its location; that of the parser is the list
-- of the tokens that are left, with the last token, which `peek` returns beyond the end. Numbers are
-- unbounded: an offset is at most the length of the source, so no `std::size_t` wraps around. A
-- `std::uint32_t` of the compiler and of the serializer does: `word` is the remainder by 2 to the
-- power of 32, and a number in a file has four bytes. An `std::int64_t` is its pattern of 64 bits.
-- What the language leaves open, such as the top of an empty stack, is the exception `out_of_range`.
--
-- Fuel. The loop of `lex` has two units for each byte and two more: a round reads a byte or changes
-- between text and tag. The loops of the parser have one unit for each token and one more: a round
-- reads a token. The machine has one unit for each instruction of its range: compiled code goes
-- forward only. Running out is a third outcome of `Result`.
--
-- Parameters: `std::stod` (any reading of a numeral, or none where it throws), `std::stoull`, and
-- the file name and the extension of a path. `std::isspace` and its like are those of the C locale.
-- `PathOps` is `std::filesystem` with the times of files, `DoubleOps` and `Numbers` what the library
-- does with a `double`. `Services` is what the machine asks of the rest of the executor: the values
-- of names and arguments, Lua, and the calls of functions, each of which may change the session.
--
-- Not modelled: the instructions of templates as the executor runs them, the lookups of names and
-- arguments with their fast paths, the check of the time that is left, the session with its scopes,
-- the cache of compiled templates, Lua, the parsers of data files, include resolution, and all input
-- and output. They rest on libraries or on the file system, or stand behind the parts modelled here.
mod Base
mod Tests
pub mod Result
pub mod Text
pub mod Template
pub mod Command
pub mod Config
pub mod Compiled
pub mod Runtime
