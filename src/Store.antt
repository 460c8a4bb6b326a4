-- ===== src/Store.antt =====
-- The package internal/store: the rows of the database, as lists in the order of their insertion,
-- and the statements that read and change them. A failure of the database itself is not modelled.
pub mod Settings
pub mod Rotate
pub mod Users
pub mod Bindings
pub mod Models
pub mod Jobs
pub mod Clock
