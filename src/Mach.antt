-- ===== src/Mach.antt =====
-- crates/grafted-dyld/src/mach_ipc.rs: the port namespace of the Mach IPC emulation.
-- `Port` has the data, `Space` the operations of `PortSpace`, `Message` the function `mach_msg`.
-- The global `Mutex<PortSpace>` makes each call atomic: a call takes a space and returns the next.
pub mod Port
pub mod Space
pub mod Message
mod Tests
