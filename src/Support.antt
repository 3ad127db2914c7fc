-- ===== src/Support.antt =====
-- The compiler's support library: `src/support`.
pub mod ConstInt
pub mod Span
pub mod Constraint
pub mod LineTable
pub mod Source
pub mod Suffix
pub mod Literal
pub mod Utf8
pub mod Interner
