-- ===== src/Cf/Unicode.antt =====
-- What crates/grafted-frameworks/src/cf/string.rs uses of the standard library's strings:
-- `from_utf8`, `encode_utf16` and the order of strings. A string is the list of its bytes in UTF-8.
use grafted.Base.{
  ℕ, ◌+◌, ◌-◌, ◌*◌, ◌/◌, ◌%◌, Bool, not, ◌&&◌, ◌||◌, List, [], ◌∷◌, ◌++◌, Option, none, some, ◌==◌,
  nat_eq, ltb, leb, if◌then◌else◌, Bytes,
}

-- Within a character: how many bytes are to come, the bits so far, and the least character that
-- needs so many bytes.
pub record Decoder : Type 0 where
  pub need : ℕ
  pub bits : ℕ
  pub least : ℕ

abbrev pub between : Decoder
between = record { need = 0; bits = 0; least = 0 }

abbrev pub is_scalar : ℕ → ℕ → Bool
is_scalar least c = leb least c && ((ltb c 0xd800 || leb 0xe000 c) && ltb c 0x110000)

unfoldable pub first_byte : ℕ → Option (Decoder × List ℕ)
first_byte b =
    if ltb b 0x80
    then some (between, b ∷ [])
    else if leb 0xc0 b && ltb b 0xe0
    then some (record { need = 1; bits = b % 32; least = 0x80 }, [])
    else if leb 0xe0 b && ltb b 0xf0
    then some (record { need = 2; bits = b % 16; least = 0x800 }, [])
    else if leb 0xf0 b && ltb b 0xf8
    then some (record { need = 3; bits = b % 8; least = 0x10000 }, [])
    else none

-- The decoder after a byte, and the characters that end with it.
unfoldable pub next_byte : Decoder → ℕ → Option (Decoder × List ℕ)
unfolding first_byte
next_byte d b =
    let c = d.bits * 64 + b % 64 in
    if d.need == 0
    then first_byte b
    else if not (leb 0x80 b && ltb b 0xc0)
    then none
    else if leb 2 d.need
    then some (record d { need = d.need - 1; bits = c }, [])
    else if is_scalar d.least c
    then some (between, c ∷ [])
    else none

-- The characters of bytes that are valid UTF-8.
unfoldable pub decode_from : Decoder → Bytes → Option (List ℕ)
unfolding next_byte
decode_from d [] = if d.need == 0 then some [] else none
decode_from d (b ∷ bs) = elim (next_byte d b) [
  | none ↦ none
  | some r ↦ elim (decode_from r.0 bs) [ none ↦ none | some cs ↦ some (r.1 ++ cs) ]
]

abbrev pub decode_utf8 : Bytes → Option (List ℕ)
unfolding decode_from
decode_utf8 = decode_from between

-- `from_utf8(bytes).unwrap_or("")`.
unfoldable pub str_or_empty : Bytes → Bytes
unfolding decode_from
str_or_empty bytes = elim (decode_utf8 bytes) [ none ↦ [] | some cs ↦ bytes ]

unfoldable pub utf16_units : ℕ → List ℕ
utf16_units c =
    if ltb c 0x10000
    then c ∷ []
    else (0xd800 + (c - 0x10000) / 1024) ∷ (0xdc00 + (c - 0x10000) % 1024) ∷ []

unfoldable pub units_of : List ℕ → List ℕ
unfolding utf16_units
units_of [] = []
units_of (c ∷ cs) = utf16_units c ++ units_of cs

-- `as_str().encode_utf16()` of the stored bytes.
unfoldable pub encode_utf16 : Bytes → List ℕ
unfolding decode_from units_of
encode_utf16 bytes = elim (decode_utf8 bytes) [ none ↦ [] | some cs ↦ units_of cs ]

pub data Ordering : Type 0 where
  less : Ordering
  equal : Ordering
  greater : Ordering

-- Strings are ordered by their bytes.
unfoldable pub compare_bytes : Bytes → Bytes → Ordering
compare_bytes [] [] = equal
compare_bytes [] (y ∷ ys) = less
compare_bytes (x ∷ xs) [] = greater
compare_bytes (x ∷ xs) (y ∷ ys) =
    let rest = compare_bytes xs ys in if ltb x y then less else if ltb y x then greater else rest
