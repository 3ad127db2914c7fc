-- ===== src/Tests.antt =====
-- Runs of the modelled code at fixed inputs, and the theorems applied there.
pub mod ConstExpr
pub mod Preprocessor
pub mod Types
pub mod Constants
pub mod Store
pub mod Literals
pub mod Lexer
pub mod Flow
