-- ===== src/Search.antt =====
-- The search box (app/search/query.py): values, words, blocks, the parsed query and its SQL.
pub mod Patterns
pub mod Words
pub mod Segments
pub mod Slices
pub mod Fields
pub mod Query
pub mod Sql
mod Samples
