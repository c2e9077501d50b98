-- ===== src/Loader/Fixups/Entries.antt =====
-- The entries of a chain, as their format documents them, and what the decoder makes of them.
use grafted.Base.{
  ℕ, ◌+◌, ◌-◌, ◌*◌, ◌/◌, ◌%◌, ◌^◌, ◌<◌, ◌≡◌, refl, ap, List, some, ◌==◌, nat_eq, ltb, if◌then◌else◌,
  u64, get_or, arith,
}
use grafted.Loader.Fixups.{next_of, decode, decode_64_offset}

-- A pointer to a place in the image, or an import with a signed addend.
pub data Entry : Type 0 where
  rebase : ℕ → ℕ → Entry
  bind : ℕ → ℕ → Entry

-- DYLD_CHAINED_PTR_64_OFFSET: target:36, high8:8, reserved:7, next:12, bind:1, or
-- ordinal:24, addend:8, reserved:19, next:12, bind:1.
abbrev pub encode_offset : Entry → ℕ → ℕ
encode_offset (Entry.rebase target high8) next = target + high8 * 2 ^ 36 + next * 2 ^ 51
encode_offset (Entry.bind ordinal addend) next = ordinal + addend * 2 ^ 24 + next * 2 ^ 51 + 2 ^ 63

abbrev pub IsEntry : Entry → Type 0
IsEntry (Entry.rebase target high8) = (target < 2 ^ 36) × (high8 < 2 ^ 8)
IsEntry (Entry.bind ordinal addend) = (ordinal < 2 ^ 24) × (addend < 2 ^ 8)

-- The address meant: the load address and the offset, where the offset 0 is a null pointer; or
-- the import's address and the addend, where an unresolved import stays null.
abbrev pub meant : List ℕ → ℕ → Entry → ℕ
meant imports load (Entry.rebase target high8) = if target == 0 then 0 else u64 (load + target)
meant imports load (Entry.bind ordinal addend) =
    let base = get_or imports ordinal 0 in
    if base == 0
    then 0
    else if ltb addend 128
    then u64 (base + addend)
    else u64 (base + (2 ^ 64 - (256 - addend)))

decode_rebase :
    (imports : List ℕ) (load x target high8 : ℕ)
    → x / 2 ^ 63 % 2 ≡ 0
    → x % 2 ^ 36 ≡ target
    → decode_64_offset imports load x ≡ meant imports load (Entry.rebase target high8)
unfolding decode_64_offset
decode_rebase imports load x target high8 off low = rw (off, low) refl

decode_bind :
    (imports : List ℕ) (load x ordinal addend : ℕ)
    → x / 2 ^ 63 % 2 ≡ 1
    → x % 2 ^ 24 ≡ ordinal
    → x / 2 ^ 24 % 2 ^ 8 ≡ addend
    → addend < 2 ^ 8
    → decode_64_offset imports load x ≡ meant imports load (Entry.bind ordinal addend)
unfolding decode_64_offset
decode_bind imports load x ordinal addend on low mid small =
    ground (arith, ap (λ (k : ℕ). get_or imports k 0) low)

-- An entry of format 6 (DYLD_CHAINED_PTR_64_OFFSET) that is encoded as documented is decoded to the
-- address it means and to the distance of the next entry. The top byte of a rebase, high8, is
-- dropped.
pub decode-encode_offset :
    (imports : List ℕ) (load next : ℕ) (e : Entry)
    → IsEntry e
    → next < 2 ^ 12
    → (decode 6 imports load (encode_offset e next) ≡ some (meant imports load e))
      × (next_of (encode_offset e next) ≡ next)
unfolding decode decode_64_offset
decode-encode_offset imports load next (Entry.rebase target high8) (h, k) n = (
  ap some (
      decode_rebase imports load (encode_offset (Entry.rebase target high8) next) target high8
        (omega arith) (omega arith)),
  omega arith,
)
decode-encode_offset imports load next (Entry.bind ordinal addend) (h, k) n = (
  ap some (
      decode_bind imports load (encode_offset (Entry.bind ordinal addend) next) ordinal addend
        (omega arith) (omega arith) (omega arith) k),
  omega arith,
)
