-- ===== src/AppKit.antt =====
-- crates/grafted-frameworks/src/appkit: views, menus and windows. An object's fields start at a fixed
-- offset from its address, so that addresses stand for objects.
pub mod Text
pub mod Menu
pub mod Window
pub mod Tests
pub mod View
