-- ===== src/Dyld.antt =====
-- crates/grafted-dyld/src/resolver.rs and linker.rs: where the libraries of a binary are found, and how
-- they are loaded and bound.
pub mod Linker
pub mod Resolver
mod Tests
