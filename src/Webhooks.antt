-- ===== src/Webhooks.antt =====
-- workers/webhooks/dispatch_webhooks.py: the delivery of bill events to subscribers.
pub mod Subscription
pub mod Drain
pub mod Rotation
pub mod Challenge
