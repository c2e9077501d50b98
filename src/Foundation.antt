-- ===== src/Foundation.antt =====
-- crates/grafted-frameworks/src/foundation: the notification center.
-- `Notification` is the list of observers and its operations, `Center` the making of the shared
-- center by threads that race for it.
pub mod Notification
pub mod Center
mod Tests
