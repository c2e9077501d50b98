-- ===== src/Loader/Executor/Syscalls.antt =====
-- crates/grafted-loader/src/executor.rs: `process_syscall`.
-- The host's calls are a parameter. An `i64` is its bit pattern.
pub mod Flags
pub mod Laws
pub mod Numbers
pub mod Exits
use grafted.Base.{
  ℕ, ◌+◌, ◌-◌, ◌*◌, ◌/◌, ◌%◌, ◌^◌, Bool, true, false, ◌&&◌, ◌||◌, Option, none, some, ◌==◌, nat_eq,
  ltb, if◌then◌else◌, has_bit, u32, u64,
}
use grafted.Kernel.Syscall.{DarwinSyscall, LinuxNr, translate}

pub record Args : Type 0 where
  pub a0 : ℕ
  pub a1 : ℕ
  pub a2 : ℕ
  pub a3 : ℕ
  pub a4 : ℕ
  pub a5 : ℕ

-- A Linux system call with its result; `libc::mprotect` and whether it succeeds; a Mach trap of the
-- kernel module, `none` if the ioctl fails; and the message about an unknown class.
pub record Host (S : Type 0) : Type 0 where
  pub syscall : ℕ → Args → S → ℕ × S
  pub mprotect : ℕ → ℕ → ℕ → S → Bool × S
  pub mach_trap : ℕ → Args → S → Option ℕ × S
  pub complain : S → S

-- A call returns, or ends the process.
pub data Served (S : Type 0) : Type 0 where
  returned : ℕ → S → Served S
  exited : ℕ → S → Served S

-- -38, `-ENOSYS`.
abbrev pub enosys : ℕ
enosys = 2 ^ 64 - 38

-- Darwin's flags of `mmap` as Linux's: the low five bits, MAP_ANON and MAP_NORESERVE.
unfoldable pub mmap_flags : ℕ → ℕ
mmap_flags df =
    df % 2 ^ 5 + (if has_bit df 12 then 2 ^ 5 else 0) + (if has_bit df 6 then 2 ^ 14 else 0)

-- Darwin's flags of `open` as Linux's: the access mode, O_APPEND, O_NONBLOCK, O_CREAT, O_TRUNC and
-- O_EXCL.
unfoldable pub open_flags : ℕ → ℕ
open_flags df =
    df % 2 ^ 2
    + (if has_bit df 3 then 2 ^ 10 else 0)
    + (if has_bit df 2 then 2 ^ 11 else 0)
    + (if has_bit df 9 then 2 ^ 6 else 0)
    + (if has_bit df 10 then 2 ^ 9 else 0)
    + (if has_bit df 11 then 2 ^ 7 else 0)

-- A page that may not be accessed, at a fixed place and without a file.
abbrev pub is_guard : Args → Bool
is_guard a =
    (Args.a2 a == 0) && (has_bit (mmap_flags (u32 a.a3)) 4 && has_bit (mmap_flags (u32 a.a3)) 5)

module _ {S : Type 0} (host : Host S) where
  open host use {syscall, mprotect, mach_trap, complain}

  abbrev pub pass_on : ℕ → Args → S → Served S
  pass_on linux_nr a s = let (ret, s') = syscall linux_nr a s in Served.returned ret s'

  -- The `match` on the Darwin number, and the call.
  unfoldable pub unix_call : ℕ → ℕ → Args → S → Served S
  unix_call darwin_nr linux_nr a s =
      if (darwin_nr == 197) || (darwin_nr == 199)
      then (if is_guard a
          then Served.returned (if a.a0 == 0 then 0x7fff0000 else a.a0) s
          else pass_on linux_nr (record a { a3 = mmap_flags (u32 a.a3) }) s)
      else if darwin_nr == 74
      then (if a.a2 == 0 then Served.returned 0 s else pass_on linux_nr a s)
      else if darwin_nr == 5
      then pass_on linux_nr (record a { a1 = open_flags (u32 a.a1) }) s
      else pass_on linux_nr a s

  -- `mach_vm_protect` by `mprotect`, over whole pages.
  abbrev pub page_of : ℕ → ℕ
  page_of x = x / 4096 * 4096

  unfoldable pub vm_protect : Args → S → Served S
  vm_protect a s =
      if u32 a.a4 == 0
      then Served.returned 0 s
      else let (done, s') =
          mprotect (page_of a.a1)
            (u64 (page_of (u64 (a.a1 + a.a2 + 0xFFF)) + (2 ^ 64 - page_of a.a1))) (u32 a.a4) s in
        Served.returned (if done then 0 else 1) s'

  unfoldable pub trap_call : ℕ → Args → Option ℕ → S → Served S
  trap_call trap_nr a fd s =
      if trap_nr == 26
      then Served.returned 0x307 s
      else if trap_nr == 27
      then Served.returned 0x203 s
      else if trap_nr == 28
      then Served.returned 0x103 s
      else if trap_nr == 14
      then vm_protect a s
      else elim fd [
        | none ↦ Served.returned enosys s
        | some f ↦
            let (result, s') = mach_trap trap_nr a s in
            elim result [ none ↦ Served.returned enosys s' | some r ↦ Served.returned r s' ]
      ]

  -- `fd` is `none` when the kernel module's device is not open.
  unfoldable pub process_syscall : ℕ → Args → Option ℕ → S → Served S
  process_syscall raw_syscall a fd s = elim (translate raw_syscall) [
    | DarwinSyscall.unix darwin_nr (LinuxNr.nr linux_nr) ↦
        if (linux_nr == 60) || (linux_nr == 231)
        then Served.exited a.a0 s
        else unix_call darwin_nr linux_nr a s
    | DarwinSyscall.unix darwin_nr LinuxNr.minus_one ↦ Served.returned enosys s
    | DarwinSyscall.mach_trap trap_nr ↦ trap_call trap_nr a fd s
    | DarwinSyscall.unknown raw ↦
        if ltb raw 500 then pass_on raw a s else Served.returned enosys (complain s)
  ]
