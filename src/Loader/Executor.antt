-- ===== src/Loader/Executor.antt =====
-- crates/grafted-loader/src/executor.rs: running a mapped binary.
-- `Stack` builds the process's first stack; `Selectors` gives each thread its selector byte;
-- `Signals` catches a Darwin system call, and `Syscalls` serves it; `Crashes` skips instructions that
-- crash, which `Decode` measures. `Code` is about bytes in memory.
pub mod Code
pub mod Crashes
pub mod Decode
pub mod Selectors
pub mod Signals
pub mod Stack
pub mod Syscalls
mod Tests
