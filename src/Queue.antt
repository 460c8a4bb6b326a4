-- ===== src/Queue.antt =====
-- The package internal/queue: the runner that claims queued jobs, runs the steps of their plans and
-- reports what came of them.
pub mod System
pub mod Runner
pub mod Steps
pub mod Summary
pub mod Job
pub mod Files
