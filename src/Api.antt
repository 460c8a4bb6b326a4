-- ===== src/Api.antt =====
-- The package internal/api: the webhook's handler, the access to the console, and the handlers of the
-- settings, the jobs and the log stream.
pub mod LogStream
pub mod Jobs
pub mod Settings
pub mod Auth
pub mod Session
pub mod Input
pub mod Webhook
