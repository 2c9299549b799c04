-- ===== src/Lint/Trace.antt =====
-- What a check can do to the globals: the step relation, and the checks that follow it.
pub mod Rules
pub mod Effect
pub mod Spacing
pub mod Braces
pub mod Casts
pub mod Language
pub mod Style
pub mod Lines
pub mod Files
pub mod Blocks
pub mod Run
