-- ===== src/Lex.antt =====
-- The lexer: include/lex and src/lex.
pub mod TokenKind
pub mod Token
pub mod Number
pub mod Escape
pub mod Text
pub mod Lexer
pub mod Stream
pub mod HeaderName
