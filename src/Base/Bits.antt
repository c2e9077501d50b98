-- ===== src/Base/Bits.antt =====
-- `&` with a mask, as arithmetic: low bits are a remainder, and a field is a quotient's remainder.
use Prim.Native.Nat.{
  ℕ, zero, suc, ◌+◌, ◌-◌, ◌*◌, ◌/◌, ◌%◌, ◌^◌, ◌≤◌, ◌<◌, min, digits, bit_and, bit_and-bitwise,
}
use mathlib.Core.Path.{◌≡◌, refl, ap}
use native.Mathlib.Nat.{pow-suc, one-le-pow}
use native.Mathlib.Omega.{arith}

abbrev both : ℕ → ℕ → ℕ → ℕ
both = digits (λ _. zero) min

-- A count of digits above those of the first number changes nothing.
both_spare : (spare n a b : ℕ) → n ≤ spare → a ≤ n → both spare a b ≡ both n a b
both_spare zero zero a b le small = refl
both_spare zero (suc n) a b le small = absurd (omega arith)
both_spare (suc spare) n zero b le small = nothing n
  where
    nothing : (n : ℕ) → zero ≡ both n zero b
    nothing zero = refl
    nothing (suc n) = refl
both_spare (suc spare) zero (suc a) b le small = absurd (omega arith)
both_spare (suc spare) (suc n) (suc a) b le small =
    omega (arith, both_spare spare n (suc a / 2) (b / 2) (omega arith) (omega arith))

-- The lowest digit and the others.
pub bit_and_halves : (a b : ℕ) → bit_and a b ≡ bit_and (a / 2) (b / 2) * 2 + min (a % 2) (b % 2)
bit_and_halves zero b = omega (arith, bit_and-bitwise 0 b, bit_and-bitwise 0 (b / 2))
bit_and_halves (suc a) b = omega (
  arith,
  bit_and-bitwise (suc a) b,
  bit_and-bitwise (suc a / 2) (b / 2),
  both_spare a (suc a / 2) (suc a / 2) (b / 2) (omega arith) (omega arith),
)

none_set : (fuel a : ℕ) → a ≤ fuel → bit_and a 0 ≡ 0
none_set fuel zero h = refl
none_set zero (suc a) h = absurd (omega arith)
none_set (suc fuel) (suc a) h =
    omega (arith, bit_and_halves (suc a) 0, none_set fuel (suc a / 2) (omega arith))

double : (q w : ℕ) → q * 2 ^ suc w ≡ 2 * (q * 2 ^ w)
double q w = omega (arith, ap (λ (t : ℕ). q * t) (pow-suc 2 w))

low_digits : (w q r : ℕ) → r < 2 ^ w → bit_and (q * 2 ^ w + r) (2 ^ w - 1) ≡ r
low_digits zero q r h = omega (arith, none_set (q * 1 + r) (q * 1 + r) (omega arith))
low_digits (suc w) q r h = ground (
  arith,
  bit_and_halves (q * 2 ^ suc w + r) (2 ^ suc w - 1),
  double q w,
  pow-suc 2 w,
  low_digits w q (r / 2) (omega (arith, pow-suc 2 w)),
)

-- `a & ((1 << w) - 1)`.
pub bit_and-low_mask : (w a : ℕ) → bit_and a (2 ^ w - 1) ≡ a % 2 ^ w
bit_and-low_mask w a = ground (arith, one-le-pow w 2, low_digits w (a / 2 ^ w) (a % 2 ^ w))

shifted : (s t n r : ℕ) → r < 2 ^ s → bit_and (t * 2 ^ s + r) (n * 2 ^ s) ≡ bit_and t n * 2 ^ s
shifted zero t n r h = let e : r ≡ 0 = omega arith in ground arith
shifted (suc s) t n r h = ground (
  arith,
  bit_and_halves (t * 2 ^ suc s + r) (n * 2 ^ suc s),
  double t s,
  double n s,
  double (bit_and t n) s,
  shifted s t n (r / 2) (omega (arith, pow-suc 2 s)),
)

-- `a & (((1 << w) - 1) << s)`.
pub bit_and-field_mask : (s w a : ℕ) → bit_and a ((2 ^ w - 1) * 2 ^ s) ≡ a / 2 ^ s % 2 ^ w * 2 ^ s
bit_and-field_mask s w a = ground (
  arith,
  one-le-pow s 2,
  shifted s (a / 2 ^ s) (2 ^ w - 1) (a % 2 ^ s),
  bit_and-low_mask w (a / 2 ^ s),
)
