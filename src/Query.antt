-- ===== src/Query.antt =====
-- The query engine (libs/query).
pub mod Entry
pub mod Pagination
pub mod Cartesian
pub mod Distinct
pub mod Project
pub mod Grouping
pub mod Registry
pub mod Operators
pub mod Ordering
