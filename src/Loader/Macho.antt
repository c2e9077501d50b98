-- ===== src/Loader/Macho.antt =====
-- crates/grafted-loader/src/macho.rs: reading a Mach-O file.
pub mod Laws
use grafted.Base.{
  ℕ, ◌+◌, ◌*◌, ◌^◌, ◌≤◌, Bool, true, false, not, ◌&&◌, ◌||◌, List, [], ◌∷◌, ◌++◌, map, Option, none,
  some, ◌==◌, nat_eq, list_eq, leb, ltb, if◌then◌else◌, u32, u64, length, get_or, take, drop,
  retain, Bytes, codes,
}
use grafted.Loader.Outcome.{Outcome, LoaderError, and_then}
use grafted.Loader.Format.{
  cpu_type_x86_64, Segment, DylibDep, MachOBinary, ParsedInfo, Command, Section, MachO, FatArch,
  Mach, Goblin,
}

-- One load command.
unfoldable pub read_command : ParsedInfo → Command → ParsedInfo
read_command info (Command.segment64 seg) = record info { segments = info.segments ++ (seg ∷ []) }
read_command info (Command.main entryoff) = record info {
  entry_point = entryoff;
  entry_is_offset = true;
}
read_command info (Command.unixthread flavor count thread_state) =
    if (flavor == 4) && leb 42 count
    then (record info {
      entry_point = get_or thread_state 33 0 * 2 ^ 32 + get_or thread_state 32 0;
      entry_is_offset = false;
    })
    else info
read_command info (Command.dyld_chained_fixups off size) = record info {
  chained_fixups = some (off, size);
}
read_command info (Command.dyld_exports_trie off size) = record info {
  exports_trie = some (off, size);
}
read_command info Command.other = info

unfoldable pub read_commands : ParsedInfo → List Command → ParsedInfo
read_commands info [] = info
read_commands info (lc ∷ lcs) = read_commands (read_command info lc) lcs

abbrev pub is_empty : Bytes → Bool
is_empty [] = true
is_empty (b ∷ bs) = false

abbrev pub unwrap_or : {A : Type 0} → Option A → A → A
unwrap_or none d = d
unwrap_or (some a) d = a

-- The libraries that count as dependencies: not the empty name, not the library itself.
unfoldable pub is_dep : Bytes → Bytes → Bool
is_dep self lib = not (is_empty lib) && not (lib == self) && not (lib == codes "self")

abbrev pub dep_of : Bytes → DylibDep
dep_of lib = record { dep_name = lib; current_version = 0; compat_version = 0 }

-- The first four bytes, big-endian, tell a fat file: 0xcafebabe or 0xcafebabf.
abbrev pub be_u32 : Bytes → ℕ
be_u32 bytes =
    get_or bytes 0 0 * 2 ^ 24
    + get_or bytes 1 0 * 2 ^ 16
    + get_or bytes 2 0 * 2 ^ 8
    + get_or bytes 3 0

abbrev pub is_fat : Bytes → Bool
is_fat bytes =
    leb 4 (length bytes) && ((be_u32 bytes == 3405691582) || (be_u32 bytes == 3405691583))

-- The sections that initialise thread-local variables: address and size of `__thread_data`,
-- size of `__thread_bss`. The last of a name counts.
abbrev pub tlv_section : ℕ × ℕ × ℕ → Option Section → ℕ × ℕ × ℕ
tlv_section (a, d, b) none = (a, d, b)
tlv_section (a, d, b) (some s) =
    if s.section_name == codes "__thread_data"
    then (s.addr, s.size, b)
    else if s.section_name == codes "__thread_bss"
    then (a, d, s.size)
    else (a, d, b)

abbrev pub tlv_sections : ℕ × ℕ × ℕ → List (Option Section) → ℕ × ℕ × ℕ
tlv_sections t [] = t
tlv_sections t (s ∷ ss) = tlv_sections (tlv_section t s) ss

abbrev pub tlv_segments : ℕ × ℕ × ℕ → List (List (Option Section)) → ℕ × ℕ × ℕ
tlv_segments t [] = t
tlv_segments t (seg ∷ segs) = tlv_segments (tlv_sections t seg) segs

-- What is known before the load commands are read.
abbrev pub empty_info : MachO → ParsedInfo
empty_info macho = record {
  file_type = macho.filetype;
  cpu_type = macho.cputype;
  entry_point = 0;
  entry_is_offset = false;
  segments = [];
  dylib_deps = map dep_of (retain (is_dep (unwrap_or macho.self_name [])) macho.libs);
  rpaths = macho.run_paths;
  chained_fixups = none;
  exports_trie = none;
}

module _ (goblin : Goblin) where
  open goblin use {parse_macho, parse_mach}

  unfoldable pub extract_info : Bytes → Outcome ParsedInfo
  extract_info bytes = elim (parse_macho bytes) [
    | none ↦ Outcome.err LoaderError.parse_error
    | some macho ↦
        if not (macho.cputype == cpu_type_x86_64)
        then Outcome.err (LoaderError.unsupported_cpu_type macho.cputype)
        else Outcome.ok (read_commands (empty_info macho) macho.load_commands)
  ]

  abbrev pub binary_of : Bytes → Bytes → ParsedInfo → MachOBinary
  binary_of path bytes info = record {
    path = path;
    file_type = info.file_type;
    cpu_type = info.cpu_type;
    entry_point = info.entry_point;
    entry_is_offset = info.entry_is_offset;
    segments = info.segments;
    dylib_deps = info.dylib_deps;
    rpaths = info.rpaths;
    chained_fixups = info.chained_fixups;
    exports_trie = info.exports_trie;
    data_bytes = bytes;
    slide = 0;
  }

  unfoldable pub parse_single : Bytes → Bytes → Outcome MachOBinary
  parse_single path bytes =
      and_then (extract_info bytes) (λ info. Outcome.ok (binary_of path bytes info))

  -- The loop over the slices of a fat file. `data[offset..offset + size]` panics out of bounds;
  -- both are u32, widened before the sum.
  unfoldable pub first_slice : Bytes → Bytes → List FatArch → Outcome MachOBinary
  first_slice path bytes [] = Outcome.err (LoaderError.unsupported_cpu_type 0)
  first_slice path bytes (arch ∷ arches) = elim (arch.cputype == cpu_type_x86_64) [
    | false ↦ first_slice path bytes arches
    | true ↦ elim (leb (arch.offset + arch.size) (length bytes)) [
      | false ↦ Outcome.panicked
      | true ↦ parse_single path (take arch.size (drop arch.offset bytes))
    ]
  ]

  unfoldable pub parse_fat : Bytes → Bytes → Outcome MachOBinary
  parse_fat path bytes = elim (parse_mach bytes) [
    | none ↦ Outcome.err LoaderError.parse_error
    | some (Mach.fat none) ↦ Outcome.err LoaderError.parse_error
    | some (Mach.fat (some arches)) ↦ first_slice path bytes arches
    | some (Mach.binary macho) ↦
        if macho.cputype == cpu_type_x86_64
        then parse_single path bytes
        else Outcome.err (LoaderError.unsupported_cpu_type macho.cputype)
  ]

  unfoldable pub parse : Bytes → Bytes → Outcome MachOBinary
  parse path bytes = if is_fat bytes then parse_fat path bytes else parse_single path bytes

  -- The sum is one of u64 values.
  unfoldable pub tlv_init_image : MachOBinary → Option (ℕ × ℕ × ℕ)
  tlv_init_image b = elim (parse_macho b.data_bytes) [
    | none ↦ none
    | some macho ↦
        let (addr, size, bss) = tlv_segments (0, 0, 0) macho.sections in
        if ltb 0 size || ltb 0 bss then some (addr, size, u64 (size + bss)) else none
  ]
