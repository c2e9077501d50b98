-- ===== src/Kernel/Syscall.antt =====
-- crates/grafted-kernel/src/syscall.rs.
use Prim.Native.Nat.{bit_and}
use grafted.Base.{ℕ, ◌==◌, nat_eq, if◌then◌else◌, u32, List, [], ◌∷◌, Option, none, some}
pub mod Laws

-- The result of a translation: an `i64` that is a Linux number, or -1.
pub data LinuxNr : Type 0 where
  nr : ℕ → LinuxNr
  minus_one : LinuxNr

pub data DarwinSyscall : Type 0 where
  unix : ℕ → LinuxNr → DarwinSyscall
  mach_trap : ℕ → DarwinSyscall
  unknown : ℕ → DarwinSyscall

abbrev pub darwin_syscall_class_mask : ℕ
darwin_syscall_class_mask = 0xFF00_0000

abbrev pub darwin_syscall_class_unix : ℕ
darwin_syscall_class_unix = 0x0200_0000

abbrev pub darwin_syscall_class_mach : ℕ
darwin_syscall_class_mach = 0x0100_0000

abbrev pub darwin_syscall_number_mask : ℕ
darwin_syscall_number_mask = 0x00FF_FFFF

-- The arms of the `match`, in order.
abbrev pub arms : List (ℕ × ℕ)
arms =
    (1, 60)
    ∷ (2, 57)
    ∷ (7, 61)
    ∷ (20, 39)
    ∷ (3, 0)
    ∷ (4, 1)
    ∷ (5, 2)
    ∷ (6, 3)
    ∷ (10, 87)
    ∷ (15, 90)
    ∷ (16, 93)
    ∷ (197, 9)
    ∷ (73, 11)
    ∷ (74, 10)
    ∷ (46, 13)
    ∷ (48, 62)
    ∷ (13, 13)
    ∷ (59, 84)
    ∷ (338, 59)
    ∷ (116, 96)
    ∷ (24, 102)
    ∷ (25, 104)
    ∷ (43, 103)
    ∷ (47, 107)
    ∷ (54, 16)
    ∷ []

unfoldable pub first_arm : List (ℕ × ℕ) → ℕ → LinuxNr
first_arm [] n = minus_one
first_arm ((darwin, linux) ∷ rest) n = if n == darwin then nr linux else first_arm rest n

unfoldable pub darwin_unix_to_linux : ℕ → LinuxNr
unfolding first_arm
darwin_unix_to_linux darwin_nr = first_arm arms darwin_nr

unfoldable pub translate : ℕ → DarwinSyscall
translate raw_syscall =
    let class = bit_and raw_syscall darwin_syscall_class_mask in
    let number = u32 (bit_and raw_syscall darwin_syscall_number_mask) in
    if class == darwin_syscall_class_unix
    then unix number (darwin_unix_to_linux number)
    else if class == darwin_syscall_class_mach
    then mach_trap number
    else unknown raw_syscall
