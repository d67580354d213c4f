-- ===== src/Compiler.antt =====
-- The compiler cmd/goxdr.
pub mod Lexer
pub mod Symbols
mod Tests
