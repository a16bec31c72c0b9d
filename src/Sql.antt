-- ===== src/Sql.antt =====
-- sql/: the lexer and the parser.
pub mod Dictionary
pub mod Lexer
pub mod Ast
pub mod Parser
