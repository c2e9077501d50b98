-- ===== src/Kernel.antt =====
-- crates/grafted-kernel/src: classification and translation of Darwin system calls (syscall.rs).
-- The ioctl client (ioctl.rs) only passes calls on to the kernel module and is not modelled.
pub mod Syscall
mod Tests
