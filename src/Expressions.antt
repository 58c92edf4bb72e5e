-- ===== src/Expressions.antt =====
-- SPARQL expressions (libs/sparql/src/dice/sparql/expressions).
pub mod Ast
pub mod Logical
pub mod Arithmetic
pub mod BuiltIn
pub mod Aggregates
pub mod Evaluate
pub mod Clone
pub mod Variables
pub mod Grouped
