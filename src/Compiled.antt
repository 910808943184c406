-- ===== src/Compiled.antt =====
-- runtime/compiled/: compiled templates, the compiler that makes them, and their files.
pub mod Program
pub mod Opcodes
pub mod Reader
pub mod Serializer
pub mod Compiler
