-- ===== src/Lint/Spacing.antt =====
-- The checks of spaces and blank lines of scripts/cpplint.py.
pub mod Operators
pub mod Punctuation
pub mod FunctionCalls
pub mod Sections
