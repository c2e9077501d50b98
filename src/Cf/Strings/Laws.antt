-- ===== src/Cf/Strings/Laws.antt =====
-- What crates/grafted-frameworks/src/cf/string.rs writes to a caller's buffer.
use grafted.Base.{
  ℕ, zero, suc, ◌+◌, ◌-◌, ◌≤◌, ◌<◌, ◌≡◌, ◌≢◌, ◌⊎◌, inl, inr, refl, min, true, [], ◌∷◌, some, nat_eq,
  length, take, get_or, length-take, arith, Bytes, ap, Bool-cases, ltb, leb,
}
use grafted.Cf.{Store, is_positive}
use grafted.Cf.Strings.{string_at, cf_string_get_c_string}
use grafted.Loader.Memory.{Memory, put}
use grafted.Loader.Executor.Signals.{copy_bytes}

next : (at i : ℕ) → at + 1 + i ≡ at + suc i
next at i = omega arith

copy_bytes-get_or :
    (m : Memory) (at : ℕ) (bs : Bytes) (i : ℕ)
    → i < length bs
    → copy_bytes m at bs (at + i) ≡ get_or bs i 0
copy_bytes-get_or m at [] i h = absurd (omega arith)
copy_bytes-get_or m at (b ∷ bs) zero h = ground arith
copy_bytes-get_or m at (b ∷ bs) (suc i) h = ground (
  arith,
  copy_bytes-get_or m (at + 1) bs i (omega arith),
  ap (copy_bytes m (at + 1) bs) (next at i),
)

copy_bytes_apart :
    (m : Memory) (at : ℕ) (bs : Bytes) (x : ℕ)
    → (x < at) ⊎ (at + length bs ≤ x)
    → copy_bytes m at bs x ≡ m x
copy_bytes_apart m at [] x h = refl
copy_bytes_apart m at (b ∷ bs) x (inl h) =
    ground (arith, copy_bytes_apart m (at + 1) bs x (inl (omega arith)))
copy_bytes_apart m at (b ∷ bs) x (inr h) =
    ground (arith, copy_bytes_apart m (at + 1) bs x (inr (omega arith)))

get_or-take : (n : ℕ) (bs : Bytes) (i : ℕ) → i < n → get_or (take n bs) i 0 ≡ get_or bs i 0
get_or-take zero bs i h = absurd (omega arith)
get_or-take (suc n) [] i h = refl
get_or-take (suc n) (b ∷ bs) zero h = refl
get_or-take (suc n) (b ∷ bs) (suc i) h = get_or-take n bs i (omega arith)

outside :
    (buffer size x : ℕ)
    → ((buffer ≤ x) × (x < buffer + size)) ⊎ ((x < buffer) ⊎ (buffer + size ≤ x))
outside buffer size x = elim (Bool-cases (leb buffer x)) [
  | inr h ↦ inr (inl (ground (arith, h)))
  | inl h ↦ elim (Bool-cases (ltb x (buffer + size))) [
    | inl k ↦ inl (ground (arith, h), ground (arith, k))
    | inr k ↦ inr (inr (ground (arith, k)))
  ]
]

-- For a live string, a buffer that is not null and a positive size, the buffer gets the bytes that
-- fit before its last one and a NUL after them, and nothing is written outside of its size.
pub get_c_string_writes :
    (st : Store) (s buffer size : ℕ) (m : Memory) (bytes : Bytes)
    → s ≢ 0
    → buffer ≢ 0
    → is_positive size ≡ true
    → string_at st s ≡ some bytes
    → (m1 : Memory) × (cf_string_get_c_string st s buffer size m ≡ some (m1, true))
      × ((i : ℕ) → (min (size - 1) (length bytes) ≤ i) ⊎ (m1 (buffer + i) ≡ get_or bytes i 0))
      × (m1 (buffer + min (size - 1) (length bytes)) ≡ 0)
      × ((x : ℕ) → ((buffer ≤ x) × (x < buffer + size)) ⊎ (m1 x ≡ m x))
unfolding cf_string_get_c_string
get_c_string_writes st s buffer size m bytes h1 h2 h3 there =
    let n : ℕ = min (size - 1) (length bytes) in
    let copied : Memory = copy_bytes m buffer (take n bytes) in
    (
      put copied (buffer + n) 0,
      rw there (ground (arith, h1, h2, h3)),
      λ i. elim (Bool-cases (ltb i n)) [
        | inl h ↦ inr (
            ground (
              arith,
              copy_bytes-get_or m buffer (take n bytes) i (ground (arith, length-take n bytes)),
              get_or-take n bytes i (ground arith),
              h,
            ))
        | inr h ↦ inl (ground (arith, h))
      ],
      ground arith,
      λ x. elim (outside buffer size x) [
        | inl h ↦ inl h
        | inr h ↦ inr (
            ground (
              arith,
              h,
              h3,
              length-take n bytes,
              copy_bytes_apart m buffer (take n bytes) x (elim h [
                | inl lo ↦ inl lo
                | inr hi ↦ inr (ground (arith, length-take n bytes, hi, h3))
              ]),
            ))
      ],
    )
