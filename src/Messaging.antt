-- ===== src/Messaging.antt =====
-- Messages to the committees (src/modules/messaging).
pub mod QuietHours
pub mod Breaker
pub mod Broadcast
pub mod Inbox
pub mod Tests
