-- ===== src/Sexp.antt =====
-- The s-expressions of rule files: reading them, with their comments and positions, and writing
-- them in the canonical layout (internal/gesssexp). Code points stand for runes.
pub mod Syntax
pub mod Lexer
pub mod Parser
pub mod Format
pub mod Layout
pub mod Value
pub mod Termination
mod Tests
