-- ===== src/Loader/Memory.antt =====
-- Memory by bytes, and little-endian words in it, for crates/grafted-loader/src/chained_fixups.rs.
use grafted.Base.{
  ℕ, zero, suc, ◌+◌, ◌*◌, ◌/◌, ◌%◌, ◌^◌, ◌≤◌, ◌<◌, ◌≡◌, refl, ◌⊎◌, inl, inr, ◌==◌, nat_eq,
  if◌then◌else◌, arith,
}
use native.Mathlib.Nat.{pow-suc}

abbrev pub Memory : Type 0
Memory = ℕ → ℕ

-- The word of `n` bytes at an address.
unfoldable pub read_word : ℕ → Memory → ℕ → ℕ
read_word zero m at = 0
read_word (suc n) m at = m at + 256 * read_word n m (at + 1)

abbrev pub put : Memory → ℕ → ℕ → Memory
put m at b x = if x == at then b else m x

unfoldable pub write_word : ℕ → Memory → ℕ → ℕ → Memory
write_word zero m at v = m
write_word (suc n) m at v = put (write_word n m (at + 1) (v / 256)) at (v % 256)

read_word-put :
    (n : ℕ) (m : Memory) (at b from : ℕ)
    → (at < from) ⊎ (from + n ≤ at)
    → read_word n (put m at b) from ≡ read_word n m from
unfolding read_word
read_word-put zero m at b from apart = refl
read_word-put (suc n) m at b from (inl h) =
    ground (arith, read_word-put n m at b (from + 1) (inl (omega arith)))
read_word-put (suc n) m at b from (inr h) =
    ground (arith, read_word-put n m at b (from + 1) (inr (omega arith)))

-- A write leaves the words beside it, and the bytes.
pub read-write_apart :
    (k n : ℕ) (m : Memory) (at v from : ℕ)
    → (at + n ≤ from) ⊎ (from + k ≤ at)
    → read_word k (write_word n m at v) from ≡ read_word k m from
unfolding write_word
read-write_apart k zero m at v from apart = refl
read-write_apart k (suc n) m at v from (inl h) = ground (
  arith,
  read_word-put k (write_word n m (at + 1) (v / 256)) at (v % 256) from (inl (omega arith)),
  read-write_apart k n m (at + 1) (v / 256) from (inl (omega arith)),
)
read-write_apart k (suc n) m at v from (inr h) = ground (
  arith,
  read_word-put k (write_word n m (at + 1) (v / 256)) at (v % 256) from (inr (omega arith)),
  read-write_apart k n m (at + 1) (v / 256) from (inr (omega arith)),
)

pub byte-write_apart :
    (n : ℕ) (m : Memory) (at v x : ℕ) → (x < at) ⊎ (at + n ≤ x) → write_word n m at v x ≡ m x
unfolding write_word
byte-write_apart zero m at v x apart = refl
byte-write_apart (suc n) m at v x (inl h) =
    ground (arith, byte-write_apart n m (at + 1) (v / 256) x (inl (omega arith)))
byte-write_apart (suc n) m at v x (inr h) =
    ground (arith, byte-write_apart n m (at + 1) (v / 256) x (inr (omega arith)))

-- A word that was written is read back.
pub read-write_same :
    (n : ℕ) (m : Memory) (at v : ℕ) → v < 256 ^ n → read_word n (write_word n m at v) at ≡ v
unfolding read_word write_word
read-write_same zero m at v h = omega arith
read-write_same (suc n) m at v h = ground (
  arith,
  pow-suc 256 n,
  read_word-put n (write_word n m (at + 1) (v / 256)) at (v % 256) (at + 1) (inl (omega arith)),
  read-write_same n m (at + 1) (v / 256) (omega (arith, pow-suc 256 n)),
)

-- A word is that of its bytes.
pub read_word-cong :
    (n : ℕ) (m m' : Memory) (at : ℕ)
    → ((x : ℕ) → at ≤ x → x < at + n → m x ≡ m' x)
    → read_word n m at ≡ read_word n m' at
unfolding read_word
read_word-cong zero m m' at same = refl
read_word-cong (suc n) m m' at same = ground (
  arith,
  same at (omega arith) (omega arith),
  read_word-cong n m m' (at + 1) (λ x lo hi. same x (omega arith) (omega arith)),
)
