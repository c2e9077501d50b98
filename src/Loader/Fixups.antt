-- ===== src/Loader/Fixups.antt =====
-- crates/grafted-loader/src/chained_fixups.rs: patching the pointers of a mapped image.
-- The fixups are read through raw pointers, also beyond the end of their slice: `raw` is what
-- stands from its start on. `mprotect` makes each page writable and its result is ignored: it is
-- left out. `c_string` is `CStr::from_ptr(..).to_str()`, `none` if that is not UTF-8.
pub mod Entries
pub mod Chain
pub mod Imports
use grafted.Base.{
  ℕ, zero, suc, ◌+◌, ◌-◌, ◌*◌, ◌/◌, ◌%◌, ◌^◌, Bool, true, false, ◌&&◌, ◌||◌, not, List, [], ◌∷◌,
  ◌++◌, Option, none, some, ◌==◌, nat_eq, list_eq, leb, ltb, if◌then◌else◌, has_bit, u32, u64,
  length, get_or, get_elem?, drop, Bytes, codes,
}
use grafted.Loader.Outcome.{Outcome}
use grafted.Loader.Format.{Segment, DylibDep, MachOBinary}
use grafted.Loader.Memory.{Memory, read_word, write_word}
use grafted.Loader.Mapper.{pagezero, text_vmaddr}

-- `dyld_chained_fixups_header`.
pub record FixupsHeader : Type 0 where
  pub fixups_version : ℕ
  pub starts_offset : ℕ
  pub imports_offset : ℕ
  pub symbols_offset : ℕ
  pub imports_count : ℕ
  pub imports_format : ℕ
  pub symbols_format : ℕ

-- `dyld_chained_starts_in_segment`.
pub record StartsInSegment : Type 0 where
  pub page_size : ℕ
  pub pointer_format : ℕ
  pub page_count : ℕ

abbrev pub read_header : Memory → FixupsHeader
read_header raw = record {
  fixups_version = read_word 4 raw 0;
  starts_offset = read_word 4 raw 4;
  imports_offset = read_word 4 raw 8;
  symbols_offset = read_word 4 raw 12;
  imports_count = read_word 4 raw 16;
  imports_format = read_word 4 raw 20;
  symbols_format = read_word 4 raw 24;
}

abbrev pub read_starts : Memory → ℕ → StartsInSegment
read_starts raw at = record {
  page_size = read_word 2 raw (at + 4);
  pointer_format = read_word 2 raw (at + 6);
  page_count = read_word 2 raw (at + 20);
}

-- The library that an import names by its ordinal.
unfoldable pub dylib_name : List DylibDep → ℕ → Bytes
dylib_name deps lib_ordinal =
    if ltb 0 lib_ordinal && ltb lib_ordinal 253 && leb lib_ordinal (length deps)
    then (elim (get_elem? deps (lib_ordinal - 1)) [
      | none ↦ codes "self"
      | some dep ↦ DylibDep.dep_name dep
    ])
    else codes "self"

-- An entry with bit 63 set binds a symbol, another is a rebase; bits 51 to 62 are the distance to
-- the next one, in words of 4 bytes.
abbrev pub is_bind : ℕ → Bool
is_bind encoded = has_bit encoded 63

abbrev pub next_of : ℕ → ℕ
next_of encoded = encoded / 2 ^ 51 % 2 ^ 12

abbrev pub import_at : List ℕ → ℕ → ℕ
import_at imports encoded = get_or imports (encoded % 2 ^ 24) 0

-- `(base as i64 + addend as i8 as i64) as u64`.
abbrev pub add_signed : ℕ → ℕ → ℕ
add_signed base addend =
    if ltb addend 128 then u64 (base + addend) else u64 (base + addend + 2 ^ 64 - 256)

unfoldable pub decode_64 : List ℕ → ℕ → ℕ → ℕ
decode_64 imports load encoded =
    let target = encoded % 2 ^ 36 in
    let high8 = encoded / 2 ^ 36 % 2 ^ 8 in
    let unpacked = high8 * 2 ^ 56 + target in
    if is_bind encoded
    then import_at imports encoded
    else if unpacked == 0
    then 0
    else u64 (load + unpacked)

unfoldable pub decode_64_offset : List ℕ → ℕ → ℕ → ℕ
decode_64_offset imports load encoded =
    let base = import_at imports encoded in
    let target = encoded % 2 ^ 36 in
    if is_bind encoded
    then (if base == 0 then 0 else add_signed base (encoded / 2 ^ 24 % 2 ^ 8))
    else if target == 0
    then 0
    else u64 (load + target)

-- The address that an entry stands for; `none` if the format is not supported.
unfoldable pub decode : ℕ → List ℕ → ℕ → ℕ → Option ℕ
decode format imports load encoded =
    if format == 1
    then some (decode_64 imports load encoded)
    else if format == 6
    then some (decode_64_offset imports load encoded)
    else none

-- The loop over one chain, with fuel for its entries; `none` is a loop that still runs.
unfoldable pub walk_chain : ℕ → ℕ → List ℕ → ℕ → ℕ → Memory → Option Memory
walk_chain zero format imports load ptr m = none
walk_chain (suc fuel) format imports load ptr m =
    let encoded = read_word 8 m ptr in
    elim (decode format imports load encoded) [
      | none ↦ some m
      | some addr ↦
          let m' = write_word 8 m ptr addr in
          elim (next_of encoded == 0) [
            | true ↦ some m'
            | false ↦ walk_chain fuel format imports load (u64 (ptr + next_of encoded * 4)) m'
          ]
    ]

-- The loop over the pages of a segment, of which `left` are left and `j` were done; 0xFFFF marks a
-- page without fixups. `base` is where the segment is mapped.
unfoldable pub fix_pages :
    ℕ → Memory → ℕ → StartsInSegment → List ℕ → ℕ → ℕ → ℕ → ℕ → Memory → Option Memory
fix_pages fuel raw at starts imports load base zero j m = some m
fix_pages fuel raw at starts imports load base (suc left) j m =
    let start = read_word 2 raw (at + 22 + j * 2) in
    elim (start == 65535) [
      | true ↦ fix_pages fuel raw at starts imports load base left (j + 1) m
      | false ↦
          elim (walk_chain fuel (StartsInSegment.pointer_format starts) imports load
            (u64 (base + j * StartsInSegment.page_size starts + start)) m) [
              | none ↦ none
              | some m' ↦ fix_pages fuel raw at starts imports load base left (j + 1) m'
            ]
    ]

-- One segment's part: skipped without starts, for `__PAGEZERO` and beyond the segments.
unfoldable pub fix_segment : ℕ → Memory → ℕ → MachOBinary → List ℕ → ℕ → ℕ → Memory → Option Memory
fix_segment fuel raw starts b imports load i m =
    let info_offset = read_word 4 raw (starts + 4 + i * 4) in
    let at = starts + info_offset in
    elim (info_offset == 0) [
      | true ↦ some m
      | false ↦ elim (get_elem? b.segments i) [
        | none ↦ some m
        | some seg ↦ elim (Segment.name seg == pagezero) [
          | true ↦ some m
          | false ↦
              fix_pages fuel raw at (read_starts raw at) imports load (seg.vmaddr + b.slide)
                (read_starts raw at).page_count 0 m
        ]
      ]
    ]

unfoldable pub fix_segments :
    ℕ → Memory → ℕ → MachOBinary → List ℕ → ℕ → ℕ → ℕ → Memory → Option Memory
fix_segments fuel raw starts b imports load zero i m = some m
fix_segments fuel raw starts b imports load (suc left) i m =
    elim (fix_segment fuel raw starts b imports load i m) [
      | none ↦ none
      | some m' ↦ fix_segments fuel raw starts b imports load left (i + 1) m'
    ]

module _ (c_string : Memory → ℕ → Option Bytes) (resolve_symbol : Bytes → Bytes → ℕ) where
  -- The imports from number `i` on; `none` is a name that is not UTF-8, at which `unwrap` panics.
  unfoldable pub resolve_imports : Memory → FixupsHeader → List DylibDep → ℕ → ℕ → Option (List ℕ)
  resolve_imports raw header deps zero i = some []
  resolve_imports raw header deps (suc left) i =
      let import_raw = read_word 4 raw (header.imports_offset + i * 4) in
      elim (c_string raw (u32 (header.symbols_offset + import_raw / 2 ^ 9))) [
        | none ↦ none
        | some name ↦ elim (resolve_imports raw header deps left (i + 1)) [
          | none ↦ none
          | some rest ↦ some (resolve_symbol (dylib_name deps (import_raw % 2 ^ 8)) name ∷ rest)
        ]
      ]

  -- What stands from offset `off` of the file on, `beyond` being what follows the file.
  abbrev pub raw_from : Bytes → Memory → ℕ → Memory
  raw_from file beyond off n =
      if ltb (off + n) (length file) then get_or file (off + n) 0 else beyond (off + n)

  unfoldable pub apply_fixups : ℕ → MachOBinary → Memory → Memory → Option (Outcome Memory)
  apply_fixups fuel b beyond m = elim b.chained_fixups [
    | none ↦ some (Outcome.ok m)
    | some (off, size) ↦
        let raw = raw_from b.data_bytes beyond off in
        let header = read_header raw in
        if not (leb off (u32 (off + size)) && leb (u32 (off + size)) (length b.data_bytes))
        then some Outcome.panicked
        else elim (resolve_imports raw header b.dylib_deps header.imports_count 0) [
          | none ↦ some Outcome.panicked
          | some imports ↦
              let load = u64 (text_vmaddr b.segments + b.slide) in
              elim (fix_segments fuel raw header.starts_offset b imports load
                (read_word 4 raw header.starts_offset) 0 m) [
                  | none ↦ none
                  | some m' ↦ some (Outcome.ok m')
                ]
        ]
  ]
