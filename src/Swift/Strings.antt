-- ===== src/Swift/Strings.antt =====
-- crates/grafted-frameworks/src/swift_string_abi.rs: strings of two words. The bytes of a CFString at
-- an address are a parameter.
use grafted.Base.{
  ℕ, zero, suc, ◌+◌, ◌-◌, ◌*◌, ◌/◌, ◌%◌, ◌^◌, min, Bool, [], ◌∷◌, ◌++◌, ◌==◌, nat_eq, has_bit,
  if◌then◌else◌, length, take, drop, Bytes,
}
use grafted.Loader.Executor.Signals.{to_le_bytes}

pub record DarwinString : Type 0 where
  pub word0 : ℕ
  pub word1 : ℕ

pub record LinuxString : Type 0 where
  pub word0 : ℕ
  pub word1 : ℕ

abbrev pub is_small : DarwinString → Bool
is_small s = s.word1 / 2 ^ 60 == 0xe

abbrev pub is_bridged : DarwinString → Bool
is_bridged s = has_bit s.word1 62

-- The first `count` bytes as a word, the lowest first; they are bytes, so that `|` is `+`.
unfoldable pub pack_bytes : ℕ → Bytes → ℕ
pack_bytes zero bs = 0
pack_bytes (suc count) [] = 0
pack_bytes (suc count) (b ∷ bs) = b + 256 * pack_bytes count bs

unfoldable pub pack : ℕ → Bytes → LinuxString
unfolding pack_bytes
pack count bytes = record {
  word0 = pack_bytes count (take 8 bytes);
  word1 = pack_bytes (count - 8) (drop 8 bytes) + (0xe0 + count) * 2 ^ 56;
}

unfoldable pub to_linux_string : (ℕ → Bytes) → DarwinString → LinuxString
unfolding pack
to_linux_string cf_bytes s =
    let bytes = cf_bytes s.word0 in
    let count = min (length bytes) 15 in
    if is_small s
    then pack (s.word1 / 2 ^ 56 % 16) (to_le_bytes 8 s.word0 ++ to_le_bytes 7 s.word1)
    else if is_bridged s
    then if s.word0 == 0 then pack 0 [] else pack count (take count bytes)
    else record { word0 = s.word0; word1 = s.word1 }
