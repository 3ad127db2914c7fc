-- ===== src/Sema.antt =====
-- The type checker: `src/sema`.
pub mod Types
pub mod Layout
pub mod Flow
pub mod Store
pub mod Classes
pub mod Convert
pub mod Cast
