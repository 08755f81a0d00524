-- ===== src/Lex.antt =====
-- lex/: the lexer.
pub mod Token
pub mod Library
pub mod Reader
pub mod Scan
pub mod Lexer
