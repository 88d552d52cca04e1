-- ===== src/RegexLiterals.antt =====
-- The texts that every match of a regex must hold (src/artifact_engine/core/regex_literals.py).
-- A regex is its parse tree, which `re` makes.
pub mod Tree
pub mod Finite
pub mod Options
pub mod LiteralGate
mod Tests
