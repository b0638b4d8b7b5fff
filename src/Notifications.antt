-- ===== src/Notifications.antt =====
-- backend/src/nanexus_event_intelligence/notifications/: delivery of the alerts to a webhook.
pub mod Models
pub mod Webhook
pub mod Request
pub mod Message
pub mod Handler
