-- ===== src/Tests.antt =====
-- Runs on small inputs, and the theorems at concrete arguments.
mod Reports
mod Headers
mod Brackets
mod Nesting
mod Files
mod Cleansing
mod Patterns
mod Checks
