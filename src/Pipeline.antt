-- ===== src/Pipeline.antt =====
-- The package internal/pipeline: which commands a job runs, and where each value came from.
pub mod Types
pub mod Checkout
pub mod Timeout
pub mod Spec
pub mod Infer
pub mod Resolve
