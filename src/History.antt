-- ===== src/History.antt =====
-- The history of the tables: rows are added and rewritten in place, never removed, and what a row
-- is about does not change.
pub mod Grows
pub mod Extends
pub mod Statements
pub mod Whole
