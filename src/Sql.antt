-- ===== src/Sql.antt =====
-- The SQL front end: positions, tokens, the lexer, the parser, three-valued logic and literals.
pub mod Source
pub mod Truth
pub mod Literal
pub mod Token
pub mod Lexer
pub mod Ast
pub mod Outcome
pub mod Parser
mod Tests
