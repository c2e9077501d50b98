-- ===== src/Objc.antt =====
-- crates/grafted-objc: the Objective-C runtime's registries and the lookup of methods.
pub mod Runtime
pub mod Lookup
pub mod Selectors
mod Tests
