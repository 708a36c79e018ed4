-- ===== src/Batch.antt =====
-- batch_create.go and batch_save.go: inserting and upserting a slice in batches.
pub mod Limits
pub mod Columns
pub mod Names
pub mod Save
pub mod Suffix
pub mod Conflict
pub mod Rows
pub mod Written
pub mod Groups
pub mod Split
pub mod Statement
pub mod Keys
pub mod Numbering
pub mod Execute
pub mod Create
pub mod Total
pub mod Endings
pub mod Transaction
pub mod Samples
mod Witnesses
