-- ===== src/Pp.antt =====
-- The preprocessor: `src/pp`.
pub mod Conditionals
pub mod ConstExpr
