-- ===== src/Template.antt =====
-- template/: tokens, the lexer, the syntax tree and the parser.
pub mod Token
pub mod Lexer
pub mod Expression
pub mod Node
pub mod Parser
pub mod Compile
