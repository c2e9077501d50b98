-- ===== src/Kernel/Syscall/Laws.antt =====
-- What the classification promises.
use grafted.Base.{ℕ, ◌+◌, ◌*◌, ◌/◌, ◌%◌, ◌^◌, ◌<◌, ◌≡◌, ◌≢◌, ◌↔◌, arith, nat_eq}
use Prim.Native.Nat.{bit_and}
use grafted.Base.Bits.{bit_and-low_mask, bit_and-field_mask}
use grafted.Kernel.Syscall.{nr, unix, mach_trap, unknown, darwin_unix_to_linux, translate}

class_of : (raw : ℕ) → bit_and raw 0xFF00_0000 ≡ raw / 2 ^ 24 % 2 ^ 8 * 2 ^ 24
class_of raw = bit_and-field_mask 24 8 raw

number_of : (raw : ℕ) → bit_and raw 0x00FF_FFFF ≡ raw % 2 ^ 24
number_of raw = bit_and-low_mask 24 raw

-- A raw number is read as its class byte (bits 24 to 31) and its number (bits 0 to 23): class 2 is
-- a BSD call, translated by the table, class 1 a Mach trap, and any other is unknown and kept whole.
pub translate_classifies :
    (raw : ℕ)
    → let class = raw / 2 ^ 24 % 2 ^ 8 in
      let number = raw % 2 ^ 24 in
      (class ≡ 2 → translate raw ≡ unix number (darwin_unix_to_linux number))
      × (class ≡ 1 → translate raw ≡ mach_trap number)
      × (class ≢ 2 → class ≢ 1 → translate raw ≡ unknown raw)
unfolding translate
translate_classifies raw = (
  λ h. ground (arith, class_of raw, number_of raw),
  λ h. ground (arith, class_of raw, number_of raw),
  λ h k. ground (arith, class_of raw),
)

-- Building a raw number by the documented convention and translating it gives the call back.
pub translate-encode :
    (number high : ℕ)
    → number < 2 ^ 24
    → (translate (high * 2 ^ 32 + 0x200_0000 + number) ≡ unix number (darwin_unix_to_linux number))
      × (translate (high * 2 ^ 32 + 0x100_0000 + number) ≡ mach_trap number)
translate-encode number high h = ground (
  arith,
  (translate_classifies (high * 2 ^ 32 + 0x200_0000 + number)).0,
  (translate_classifies (high * 2 ^ 32 + 0x100_0000 + number)).1,
)

-- The Linux number 59 comes from the Darwin number 338 alone, and 84 from the Darwin number 59
-- alone.
pub darwin_unix_to_linux_execve :
    (n : ℕ)
    → (darwin_unix_to_linux n ≡ nr 59 ↔ (n ≡ 338)) × (darwin_unix_to_linux n ≡ nr 84 ↔ (n ≡ 59))
unfolding darwin_unix_to_linux
darwin_unix_to_linux_execve n = ground arith
