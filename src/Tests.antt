-- ===== src/Tests.antt =====
-- The model on concrete inputs, a module for each part of the program.
pub mod Containers
pub mod Streaming
pub mod Console
pub mod Worker
pub mod Secrets
pub mod Accounts
pub mod Jobs
pub mod Runs
pub mod Deliveries
pub mod Plans
pub mod Output
