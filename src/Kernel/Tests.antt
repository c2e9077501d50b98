-- ===== src/Kernel/Tests.antt =====
-- The cases of the source's tests, and the theorems at concrete inputs.
use grafted.Base.{◌+◌, ◌*◌, ◌^◌, ◌≡◌, ◌↔◌, refl, arith, ℕ}
use grafted.Kernel.Syscall.{nr, unix, mach_trap, unknown, darwin_unix_to_linux, translate}
use grafted.Kernel.Syscall.Laws.{
  translate_classifies, translate-encode, darwin_unix_to_linux_execve,
}

translate_test :
    (translate 0x200_0004 ≡ unix 4 (nr 1))
    × (translate 0x200_0001 ≡ unix 1 (nr 60))
    × (translate 0x100_001a ≡ mach_trap 26)
    × (translate 0x0500_0001 ≡ unknown 0x0500_0001)
unfolding translate darwin_unix_to_linux
translate_test = (refl, refl, refl, refl)

test_translate_classifies : translate 0x0500_0001 ≡ unknown 0x0500_0001
test_translate_classifies = (translate_classifies 0x0500_0001).2 (omega arith) (omega arith)

test_translate-encode :
    (translate (0 * 2 ^ 32 + 0x200_0000 + 4) ≡ unix 4 (darwin_unix_to_linux 4))
    × (translate (0 * 2 ^ 32 + 0x100_0000 + 4) ≡ mach_trap 4)
test_translate-encode = translate-encode 4 0 (omega arith)

test_darwin_unix_to_linux_execve :
    (darwin_unix_to_linux 59 ≡ nr 59 ↔ ◌≡◌ {A = ℕ} 59 338)
    × (darwin_unix_to_linux 59 ≡ nr 84 ↔ ◌≡◌ {A = ℕ} 59 59)
test_darwin_unix_to_linux_execve = darwin_unix_to_linux_execve 59
