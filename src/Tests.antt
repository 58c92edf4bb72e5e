-- ===== src/Tests.antt =====
-- Concrete inputs, and what the code gives on them.
mod Toy
mod Values
mod Groups
mod Grouped
mod Entries
mod Solutions
mod Products
mod Graphs
mod Library
mod Operators
mod Optionals
mod Registered
mod Stored
