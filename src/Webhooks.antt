-- ===== src/Webhooks.antt =====
-- src/modules/webhooks: the events of WhatsApp that Evolution sends, and their processing.
pub mod Content
pub mod Handlers
pub mod Processor
pub mod Fixture
