-- ===== src/Cf/Buffers.antt =====
-- crates/grafted-frameworks/src/cf/data.rs: byte buffers. Memory that a caller passes is a function
-- of the index, or `none` where its pointer is null.
use grafted.Base.{
  ℕ, zero, suc, [], ◌∷◌, Option, none, some, ◌==◌, nat_eq, if◌then◌else◌, length, Bytes,
}
use grafted.Cf.{Payload, cf_data, Store, object, create, is_positive, cf_data_type_id}

-- The `n` bytes from number `i`: `from_raw_parts(…).to_vec()`.
unfoldable pub bytes_from : (ℕ → ℕ) → ℕ → ℕ → Bytes
bytes_from memory i zero = []
bytes_from memory i (suc n) = memory i ∷ bytes_from memory (suc i) n

unfoldable pub data_bytes : Option (ℕ → ℕ) → ℕ → Bytes
unfolding bytes_from
data_bytes none len = []
data_bytes (some memory) len = if is_positive len then bytes_from memory 0 len else []

unfoldable pub cf_data_create : ℕ → Store → Option (ℕ → ℕ) → ℕ → Store × ℕ
unfolding data_bytes create
cf_data_create fresh st bytes len = create st fresh cf_data_type_id (cf_data (data_bytes bytes len))

abbrev pub data_of : Payload → Option Bytes
data_of (cf_data bytes) = some bytes
data_of p = none

unfoldable pub cf_data_get_length : Store → ℕ → Option ℕ
unfolding object
cf_data_get_length st a = if a == 0 then some 0 else elim (object st a) [
  | none ↦ none
  | some o ↦ elim (data_of o.payload) [ none ↦ none | some bytes ↦ some (length bytes) ]
]

-- The bytes behind the pointer, or null.
unfoldable pub cf_data_get_byte_ptr : Store → ℕ → Option (Option Bytes)
unfolding object
cf_data_get_byte_ptr st a = if a == 0 then some none else elim (object st a) [
  | none ↦ none
  | some o ↦ elim (data_of o.payload) [ none ↦ none | some bytes ↦ some (some bytes) ]
]
