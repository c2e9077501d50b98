-- ===== src/Loader.antt =====
-- crates/grafted-loader: reading a Mach-O file, mapping it, and its chained fixups.
-- `Macho` reads the file into a `MachOBinary`, `Mapper` maps its segments through the operating
-- system's calls, `Fixups` patches the pointers of the mapped image.
pub mod Outcome
pub mod Format
pub mod Macho
pub mod Mapper
pub mod Memory
pub mod Fixups
pub mod Executor
mod Tests
