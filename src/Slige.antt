-- ===== src/Slige.antt =====
-- slige/compiler: the compiler of the language that came before sbc.
pub mod Lexer
pub mod Syms
