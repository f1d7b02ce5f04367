-- ===== src/Store.antt =====
-- internal/store: the rows of the database, the statements, and the operations over them.
pub mod Types
pub mod Rows
pub mod Query
pub mod Statements
pub mod Update
pub mod Users
pub mod ApiTokens
pub mod Devices
pub mod Pagination
pub mod Search
pub mod Consistent
pub mod Interface
pub mod Ownership
