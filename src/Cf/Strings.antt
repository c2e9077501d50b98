-- ===== src/Cf/Strings.antt =====
-- crates/grafted-frameworks/src/cf/string.rs: strings in UTF-8. What `from_utf8_lossy` makes of bytes
-- is a parameter. A C string that a caller passes is its bytes before the NUL, or `none` where the
-- pointer is null; the buffers that are written to are memory by addresses, the UTF-16 buffer by
-- units. The formats and encodings that are passed are not looked at.

pub mod Laws
use grafted.Base.{
  u64, ℕ, ◌+◌, ◌-◌, ◌^◌, ◌%◌, min, Bool, true, false, not, ◌||◌, List, [], ◌∷◌, Option, none, some,
  ◌==◌, nat_eq, ltb, if◌then◌else◌, length, take, drop, contains, Bytes,
}
use grafted.Cf.{Payload, cf_string, Store, object, create, is_positive, cf_string_type_id}
use grafted.Cf.Buffers.{bytes_from}
use grafted.Cf.Unicode.{
  Ordering, less, equal, greater, str_or_empty, encode_utf16, compare_bytes, decode_from,
}
use grafted.Loader.Memory.{Memory, put}
use grafted.Loader.Executor.Signals.{copy_bytes}

abbrev pub string_of : Payload → Option Bytes
string_of (cf_string bytes) = some bytes
string_of p = none

-- `&*s`: the bytes of the string at an address.
unfoldable pub string_at : Store → ℕ → Option Bytes
unfolding object
string_at st s = elim (object st s) [ none ↦ none | some o ↦ string_of o.payload ]

abbrev pub new_string : ℕ → Store → Bytes → Store × ℕ
unfolding create
new_string fresh st s = create st fresh cf_string_type_id (cf_string s)

unfoldable pub cf_string_create_with_c_string : ℕ → Store → Option Bytes → Store × ℕ
unfolding create str_or_empty
cf_string_create_with_c_string fresh st none = (st, 0)
cf_string_create_with_c_string fresh st (some cstr) = new_string fresh st (str_or_empty cstr)

unfoldable pub cf_string_create_with_bytes :
    (Bytes → Bytes) → ℕ → Store → Option (ℕ → ℕ) → ℕ → Store × ℕ
unfolding create bytes_from
cf_string_create_with_bytes from_utf8_lossy fresh st none num_bytes = (st, 0)
cf_string_create_with_bytes from_utf8_lossy fresh st (some memory) num_bytes =
    if is_positive num_bytes
    then new_string fresh st (from_utf8_lossy (bytes_from memory 0 num_bytes))
    else (st, 0)

unfoldable pub cf_string_create_with_format : ℕ → Store → ℕ → Option (Store × ℕ)
unfolding create string_at str_or_empty
cf_string_create_with_format fresh st format =
    if format == 0 then some (st, 0) else elim (string_at st format) [
      | none ↦ none
      | some fmt ↦ some (new_string fresh st (str_or_empty fmt))
    ]

unfoldable pub cf_string_get_length : Store → ℕ → Option ℕ
unfolding string_at encode_utf16
cf_string_get_length st s =
    if s == 0
    then some 0
    else elim (string_at st s) [ none ↦ none | some bytes ↦ some (length (encode_utf16 bytes)) ]

-- The bytes behind the pointer, or null.
unfoldable pub cf_string_get_c_string_ptr : Store → ℕ → Option (Option Bytes)
unfolding string_at
cf_string_get_c_string_ptr st s = if s == 0 then some none else elim (string_at st s) [
  | none ↦ none
  | some bytes ↦ some (if contains bytes 0 then none else some bytes)
]

unfoldable pub cf_string_get_c_string : Store → ℕ → ℕ → ℕ → Memory → Option (Memory × Bool)
unfolding string_at
cf_string_get_c_string st s buffer buffer_size m =
    if (s == 0) || ((buffer == 0) || not (is_positive buffer_size))
    then some (m, false)
    else elim (string_at st s) [
      | none ↦ none
      | some bytes ↦
          let max_copy = min (buffer_size - 1) (length bytes) in
          some (put (copy_bytes m buffer (take max_copy bytes)) (buffer + max_copy) 0, true)
    ]

-- The sum of start and length wraps.
unfoldable pub cf_string_get_characters : Store → ℕ → ℕ → ℕ → ℕ → (ℕ → ℕ) → Option (ℕ → ℕ)
unfolding string_at encode_utf16
cf_string_get_characters st s range_loc range_len buffer units =
    if (s == 0) || (buffer == 0) then some units else elim (string_at st s) [
      | none ↦ none
      | some bytes ↦
          let utf16 = encode_utf16 bytes in
          let end = min (u64 (range_loc + range_len)) (length utf16) in
          if ltb range_loc end
          then some (copy_bytes units 0 (take (end - range_loc) (drop range_loc utf16)))
          else some units
    ]

-- `-1` of an `i32`.
abbrev pub ordering_value : Ordering → ℕ
ordering_value less = 2 ^ 32 - 1
ordering_value equal = 0
ordering_value greater = 1

abbrev pub str_at : Store → ℕ → Option Bytes
unfolding string_at str_or_empty
str_at st s =
    if s == 0
    then some []
    else elim (string_at st s) [ none ↦ none | some bytes ↦ some (str_or_empty bytes) ]

unfoldable pub cf_string_compare : Store → ℕ → ℕ → Option ℕ
unfolding string_at str_or_empty compare_bytes
cf_string_compare st s1 s2 = elim (str_at st s1) [
  | none ↦ none
  | some str1 ↦ elim (str_at st s2) [
    | none ↦ none
    | some str2 ↦ some (ordering_value (compare_bytes str1 str2))
  ]
]
