-- ===== src/Webhook.antt =====
-- The package internal/webhook: the signature of a delivery, and the event that its payload states.
pub mod Payload
pub mod Signature
