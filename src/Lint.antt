-- ===== src/Lint.antt =====
-- scripts/cpplint.py
pub mod Categories
pub mod State
pub mod Suppress
pub mod Report
pub mod Steps
pub mod Trace
pub mod IncludeState
pub mod FunctionState
pub mod Cleanse
pub mod Expression
pub mod Block
pub mod Nesting
pub mod FileInfo
pub mod FileChecks
pub mod HeaderGuard
pub mod CppHeaders
pub mod LineChecks
pub mod CommentStyle
pub mod NamespaceIndent
pub mod FunctionLengths
pub mod Includes
pub mod Modules
pub mod Spacing
pub mod Braces
pub mod RValue
pub mod Style
pub mod Language
pub mod Casts
pub mod IncludeWhatYouUse
pub mod Driver
