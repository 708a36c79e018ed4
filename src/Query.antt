-- ===== src/Query.antt =====
-- search.go, and the part of scope.go that turns a search into the text and the variables of a query.
pub mod Search
pub mod Builder
pub mod Conditions
pub mod Clauses
pub mod Shape
pub mod SoftDelete
pub mod Scan
pub mod Load
pub mod Count
mod Witnesses
