-- ===== src/Swift.antt =====
-- crates/grafted-frameworks/src: what makes Darwin's Swift binaries run with the Linux runtime.
pub mod Strings
pub mod Classes
pub mod Sections
pub mod Tests
