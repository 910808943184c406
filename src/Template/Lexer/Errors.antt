-- ===== src/Template/Lexer/Errors.antt =====
-- `make_lexer_error` of template/lexer/TemplateLexerInternals.cpp.
use prebyte.Base.{[], Bytes, str}
use prebyte.Result.{SourceLocation, error, Diagnostic}

unfoldable pub make_lexer_error : Bytes → Bytes → SourceLocation → Diagnostic
make_lexer_error message file_path location = record {
  severity = error;
  code = str "LEX001";
  message = message;
  span = record { file_path = file_path; start = location; end = location };
  snippet = [];
  include_chain = [];
}
