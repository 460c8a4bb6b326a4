-- ===== src/Logs.antt =====
-- The package internal/logs: the log file of a job. A text is the list of its bytes here.
pub mod Ansi
pub mod Writer
pub mod Reader
