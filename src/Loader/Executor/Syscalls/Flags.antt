-- ===== src/Loader/Executor/Syscalls/Flags.antt =====
-- The translated flags, bit by bit.
use grafted.Base.{
  ℕ, zero, suc, ◌+◌, ◌*◌, ◌/◌, ◌%◌, ◌^◌, ◌<◌, ◌≡◌, nat_eq, has_bit, arith, Bool-cases, inl, inr,
}
use grafted.Loader.Executor.Syscalls.{mmap_flags, open_flags}

-- The low five bits of a number, under higher ones.
low_bits : (df z k : ℕ) → k < 5 → has_bit (df % 2 ^ 5 + z * 2 ^ 5) k ≡ has_bit df k
low_bits df z zero h = ground arith
low_bits df z (suc zero) h = ground arith
low_bits df z (suc (suc zero)) h = ground arith
low_bits df z (suc (suc (suc zero))) h = ground arith
low_bits df z (suc (suc (suc (suc zero)))) h = ground arith
low_bits df z (suc (suc (suc (suc (suc k))))) h = absurd (omega arith)

-- For `mmap`, Linux is given the low five bits as they are, MAP_ANONYMOUS (bit 5) for Darwin's
-- MAP_ANON (bit 12), MAP_NORESERVE (bit 14) for Darwin's (bit 6), and nothing else.
pub mmap_flags_bits :
    (df : ℕ)
    → ((k : ℕ) → k < 5 → has_bit (mmap_flags df) k ≡ has_bit df k)
      × (has_bit (mmap_flags df) 5 ≡ has_bit df 12)
      × (has_bit (mmap_flags df) 14 ≡ has_bit df 6)
      × (mmap_flags df / 2 ^ 6 % 2 ^ 8 ≡ 0)
      × (mmap_flags df < 2 ^ 15)
unfolding mmap_flags
mmap_flags_bits df = elim (Bool-cases (has_bit df 12)) [
  | inl anon ↦ elim (Bool-cases (has_bit df 6)) [
    | inl lazy ↦ (
      λ k h. ground (arith, low_bits df 513 k h),
      ground arith,
      ground arith,
      ground arith,
      ground arith,
    )
    | inr lazy ↦ (
      λ k h. ground (arith, low_bits df 1 k h),
      ground arith,
      ground arith,
      ground arith,
      ground arith,
    )
  ]
  | inr anon ↦ elim (Bool-cases (has_bit df 6)) [
    | inl lazy ↦ (
      λ k h. ground (arith, low_bits df 512 k h),
      ground arith,
      ground arith,
      ground arith,
      ground arith,
    )
    | inr lazy ↦ (
      λ k h. ground (arith, low_bits df 0 k h),
      ground arith,
      ground arith,
      ground arith,
      ground arith,
    )
  ]
]

-- For `open`, Linux is given the access mode (bits 0 and 1) as it is, O_APPEND (bit 10) for
-- Darwin's (bit 3), O_NONBLOCK (bit 11) for Darwin's (bit 2), O_CREAT (bit 6) for Darwin's (bit 9),
-- O_TRUNC (bit 9) for Darwin's (bit 10), O_EXCL (bit 7) for Darwin's (bit 11), and nothing else.
pub open_flags_bits :
    (df : ℕ)
    → (open_flags df % 2 ^ 2 ≡ df % 2 ^ 2)
      × (has_bit (open_flags df) 10 ≡ has_bit df 3)
      × (has_bit (open_flags df) 11 ≡ has_bit df 2)
      × (has_bit (open_flags df) 6 ≡ has_bit df 9)
      × (has_bit (open_flags df) 9 ≡ has_bit df 10)
      × (has_bit (open_flags df) 7 ≡ has_bit df 11)
      × (open_flags df / 2 ^ 2 % 2 ^ 4 ≡ 0)
      × (open_flags df / 2 ^ 8 % 2 ≡ 0)
      × (open_flags df < 2 ^ 12)
unfolding open_flags
open_flags_bits df = (
  ground arith,
  ground arith,
  ground arith,
  ground arith,
  ground arith,
  ground arith,
  ground arith,
  ground arith,
  ground arith,
)
