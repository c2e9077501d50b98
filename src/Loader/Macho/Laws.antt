-- ===== src/Loader/Macho/Laws.antt =====
-- What the readers of Mach-O files promise.
use grafted.Base.{
  ℕ, ◌+◌, ◌*◌, ◌^◌, ◌≤◌, ◌<◌, ◌↔◌, ◌≡◌, ◌≢◌, ◌⊎◌, refl, sym, ap, ◌∙◌, Bool, true, false, ◌&&◌, List,
  [], ◌∷◌, ◌++◌, Option, none, some, ◌==◌, nat_eq, leb, if◌then◌else◌, length, take, drop, Bytes,
  arith, get_or, Option-cases, Bool-cases, inl, inr,
}
use mathlib.Core.List.{append-nil, append_assoc}
use grafted.Loader.Outcome.{Outcome, LoaderError}
use grafted.Loader.Format.{
  Segment, MachOBinary, ParsedInfo, Command, MachO, FatArch, Mach, Goblin, cpu_type_x86_64,
}
use grafted.Loader.Macho.{
  unwrap_or, is_fat, read_command, read_commands, empty_info, extract_info, parse_single,
  first_slice, parse_fat, parse, tlv_init_image, tlv_segments,
}

-- What the load commands say, command by command: the last of a kind counts.
abbrev pub segments_of : List Command → List Segment
segments_of [] = []
segments_of (Command.segment64 seg ∷ lcs) = seg ∷ segments_of lcs
segments_of (lc ∷ lcs) = segments_of lcs

abbrev pub last_of : {A : Type 0} → (Command → Option A) → A → List Command → A
last_of says d [] = d
last_of says d (lc ∷ lcs) = last_of says (unwrap_or (says lc) d) lcs

abbrev pub entry_said : Command → Option (ℕ × Bool)
entry_said (Command.main entryoff) = some (entryoff, true)
entry_said (Command.unixthread flavor count state) =
    if (flavor == 4) && leb 42 count
    then some (get_or state 33 0 * 2 ^ 32 + get_or state 32 0, false)
    else none
entry_said lc = none

abbrev pub fixups_said : Command → Option (Option (ℕ × ℕ))
fixups_said (Command.dyld_chained_fixups off size) = some (some (off, size))
fixups_said lc = none

abbrev pub IsRead : ParsedInfo → ParsedInfo → List Command → Type 0
IsRead before info lcs =
    (info.segments ≡ before.segments ++ segments_of lcs)
    × ((info.entry_point, info.entry_is_offset)
        ≡ last_of entry_said (before.entry_point, before.entry_is_offset) lcs)
    × (info.chained_fixups ≡ last_of fixups_said before.chained_fixups lcs)
    × (info.cpu_type ≡ before.cpu_type)

read_commands-IsRead :
    (info : ParsedInfo) (lcs : List Command) → IsRead info (read_commands info lcs) lcs
unfolding read_commands read_command
read_commands-IsRead info [] = ground (arith, append-nil info.segments)
read_commands-IsRead info (Command.segment64 seg ∷ lcs) =
    let next = read_command info (Command.segment64 seg) in
    ground (
      arith,
      read_commands-IsRead next lcs,
      append_assoc info.segments (seg ∷ []) (segments_of lcs),
    )
read_commands-IsRead info (Command.main entryoff ∷ lcs) =
    read_commands-IsRead (read_command info (Command.main entryoff)) lcs
read_commands-IsRead info (Command.unixthread flavor count state ∷ lcs) =
    elim (Bool-cases ((flavor == 4) && leb 42 count)) [
      | inl h ↦ ground (
        arith,
        read_commands-IsRead
            (record info {
              entry_point = get_or state 33 0 * 2 ^ 32 + get_or state 32 0;
              entry_is_offset = false;
            })
            lcs,
      )
      | inr h ↦ ground (arith, read_commands-IsRead info lcs)
    ]
read_commands-IsRead info (Command.dyld_chained_fixups off size ∷ lcs) =
    read_commands-IsRead (read_command info (Command.dyld_chained_fixups off size)) lcs
read_commands-IsRead info (Command.dyld_exports_trie off size ∷ lcs) =
    read_commands-IsRead (read_command info (Command.dyld_exports_trie off size)) lcs
read_commands-IsRead info (Command.other ∷ lcs) = read_commands-IsRead info lcs

-- Of a file for x86_64, all segments are kept in the order of the load commands; the entry point
-- is that of the last command that gives one, an offset if it is LC_MAIN, and 0 without any; the
-- chained fixups are those of the last such command.
pub extract_info_reads :
    (goblin : Goblin) (bytes : Bytes) (macho : MachO) (info : ParsedInfo)
    → Goblin.parse_macho goblin bytes ≡ some macho
    → extract_info goblin bytes ≡ Outcome.ok info
    → (info.segments ≡ segments_of macho.load_commands)
      × ((info.entry_point, info.entry_is_offset)
          ≡ last_of entry_said (0, false) macho.load_commands)
      × (info.chained_fixups ≡ last_of fixups_said none macho.load_commands)
      × (info.cpu_type ≡ cpu_type_x86_64)
unfolding extract_info
extract_info_reads goblin bytes macho info found h =
    ground (arith, read_commands-IsRead (empty_info macho) macho.load_commands)

single-x86_64 :
    (goblin : Goblin) (path bytes : Bytes) (b : MachOBinary)
    → parse_single goblin path bytes ≡ Outcome.ok b
    → (b.cpu_type ≡ cpu_type_x86_64) × (b.slide ≡ 0) × (b.data_bytes ≡ bytes)
unfolding parse_single extract_info
single-x86_64 goblin path bytes b h = elim (Option-cases (Goblin.parse_macho goblin bytes)) [
  | inl none_read ↦ ground arith
  | inr (macho, found) ↦ ground (arith, read_commands-IsRead (empty_info macho) macho.load_commands)
]

abbrev pub HasNoX86 : List FatArch → Type 0
HasNoX86 [] = Unit {0}
HasNoX86 (arch ∷ arches) = ((arch.cputype == cpu_type_x86_64) ≡ false) × HasNoX86 arches

-- The bytes are those of the first x86_64 slice of a fat file, which lies within the file.
abbrev pub IsSlice : Bytes → List FatArch → Bytes → Type 0
IsSlice bytes arches image =
    (others : List FatArch) × (arch : FatArch) × (after : List FatArch) × (arches
      ≡ others ++ arch ∷ after)
    × HasNoX86 others
    × (arch.cputype ≡ cpu_type_x86_64)
    × (arch.offset + arch.size ≤ length bytes)
    × (image ≡ take arch.size (drop arch.offset bytes))

-- The file does not start as a fat one does, or is not decoded as one.
abbrev pub IsThin : Goblin → Bytes → Type 0
IsThin goblin bytes =
    (is_fat bytes ≡ false)
    ⊎ ((arches : List FatArch) → Goblin.parse_mach goblin bytes ≢ some (Mach.fat (some arches)))

-- The bytes are those of the whole file, which is not a fat one, or of a slice of it.
abbrev pub IsImage : Goblin → Bytes → Bytes → Type 0
IsImage goblin bytes image =
    (IsThin goblin bytes × (image ≡ bytes))
    ⊎ ((arches : List FatArch) × (Goblin.parse_mach goblin bytes ≡ some (Mach.fat (some arches)))
        × IsSlice bytes arches image)

first_slice-x86_64 :
    (goblin : Goblin) (path bytes : Bytes) (arches : List FatArch) (b : MachOBinary)
    → first_slice goblin path bytes arches ≡ Outcome.ok b
    → (b.cpu_type ≡ cpu_type_x86_64) × (b.slide ≡ 0) × IsSlice bytes arches b.data_bytes
unfolding first_slice
first_slice-x86_64 goblin path bytes [] b h = absurd cc
first_slice-x86_64 goblin path bytes (arch ∷ arches) b h =
    elim (Bool-cases (arch.cputype == cpu_type_x86_64)) [
      | inr other ↦
          let (cpu, slide, (others, at, after, split, clear, is_x86, fits, image)) =
            first_slice-x86_64 goblin path bytes arches b
              (sym (rw (other, first_slice) refl) ∙ h) in
          (
            cpu,
            slide,
            (
              arch ∷ others,
              at,
              after,
              ap (λ (l : List FatArch). arch ∷ l) split,
              (other, clear),
              is_x86,
              fits,
              image,
            ),
          )
      | inl here ↦ elim (Bool-cases (leb (arch.offset + arch.size) (length bytes))) [
        | inr outside ↦
            let q : Outcome.panicked ≡ Outcome.ok b =
              sym (rw (here, outside, first_slice) refl) ∙ h in
            absurd cc
        | inl within ↦
            let (cpu, slide, image) =
              single-x86_64 goblin path (take arch.size (drop arch.offset bytes)) b
                (sym (rw (here, within, first_slice) refl) ∙ h) in
            (
              cpu,
              slide,
              ([], arch, arches, refl, tt, ground (arith, here), ground (arith, within), image),
            )
      ]
    ]

whole-x86_64 :
    (goblin : Goblin) (path bytes : Bytes) (b : MachOBinary)
    → IsThin goblin bytes
    → parse_single goblin path bytes ≡ Outcome.ok b
    → (b.cpu_type ≡ cpu_type_x86_64) × (b.slide ≡ 0) × IsImage goblin bytes b.data_bytes
whole-x86_64 goblin path bytes b thin h =
    let (cpu, slide, image) = single-x86_64 goblin path bytes b h in (cpu, slide, inl (thin, image))

-- What parses is for x86_64 and not yet slid, whatever the file claims. Its bytes are those of the
-- first x86_64 slice, which lies within the file, if the file is a fat one, and else the file's.
pub parse-x86_64 :
    (goblin : Goblin) (path bytes : Bytes) (b : MachOBinary)
    → parse goblin path bytes ≡ Outcome.ok b
    → (b.cpu_type ≡ cpu_type_x86_64) × (b.slide ≡ 0) × IsImage goblin bytes b.data_bytes
unfolding parse parse_fat
parse-x86_64 goblin path bytes b h = elim (Bool-cases (is_fat bytes)) [
  | inr thin ↦ whole-x86_64 goblin path bytes b (inl thin) (sym (rw (thin, parse) refl) ∙ h)
  | inl fat ↦
      let h1 : parse_fat goblin path bytes ≡ Outcome.ok b = sym (rw (fat, parse) refl) ∙ h in
      elim (Option-cases (Goblin.parse_mach goblin bytes)) [
        | inl missing ↦ absurd (ground (arith, h1, missing))
        | inr (Mach.fat none, found) ↦ absurd (ground (arith, h1, found))
        | inr (Mach.fat (some arches), found) ↦
            let (cpu, slide, slice) =
              first_slice-x86_64 goblin path bytes arches b
                (sym (rw (found, parse_fat) refl) ∙ h1) in
            (cpu, slide, inr (arches, found, slice))
        | inr (Mach.binary macho, found) ↦ elim (Bool-cases (macho.cputype == cpu_type_x86_64)) [
          | inl x86 ↦
              whole-x86_64 goblin path bytes b (inr (λ arches z. cc))
                (sym (rw (found, x86, parse_fat) refl) ∙ h1)
          | inr other ↦ absurd (ground (arith, h1, found, other))
        ]
      ]
]

first_slice_skips :
    (goblin : Goblin) (path bytes : Bytes) (others arches : List FatArch)
    → HasNoX86 others
    → first_slice goblin path bytes (others ++ arches) ≡ first_slice goblin path bytes arches
unfolding first_slice
first_slice_skips goblin path bytes [] arches clear = refl
first_slice_skips goblin path bytes (o ∷ others) arches (differs, clear) =
    rw (differs, first_slice) (first_slice_skips goblin path bytes others arches clear)

-- Of a fat file, the first x86_64 slice is read and nothing else: if it lies within the file, as
-- that file alone would be; if not, the loader panics instead of reporting an error. Without such
-- a slice, the CPU type is not supported.
pub parse_fat_picks :
    (goblin : Goblin) (path bytes : Bytes) (others after : List FatArch) (arch : FatArch)
    → HasNoX86 others
    → arch.cputype ≡ cpu_type_x86_64
    → ((Goblin.parse_mach goblin bytes ≡ some (Mach.fat (some (others ++ arch ∷ after))))
        → parse_fat goblin path bytes ≡ (
            if leb (arch.offset + arch.size) (length bytes)
            then parse_single goblin path (take arch.size (drop arch.offset bytes))
            else Outcome.panicked))
      × ((Goblin.parse_mach goblin bytes ≡ some (Mach.fat (some others)))
          → parse_fat goblin path bytes ≡ Outcome.err (LoaderError.unsupported_cpu_type 0))
unfolding parse_fat first_slice
parse_fat_picks goblin path bytes others after arch clear is_x86 = (
  λ found. ground (arith, first_slice_skips goblin path bytes others (arch ∷ after) clear),
  λ found. ground (arith, first_slice_skips goblin path bytes others [] clear, append-nil others),
)

-- The image of the thread-local variables: there is one if and only if a section of them is not
-- empty, and then its whole size is the sum of the initialised and the zeroed part, which are
-- the last sections of their names.
pub tlv_init_image_size :
    (goblin : Goblin) (b : MachOBinary) (macho : MachO) (addr size bss : ℕ)
    → Goblin.parse_macho goblin b.data_bytes ≡ some macho
    → tlv_segments (0, 0, 0) macho.sections ≡ (addr, size, bss)
    → ((size + bss ≡ 0) ↔ (tlv_init_image goblin b ≡ none))
      × (0 < size + bss
          → size + bss < 2 ^ 64
          → tlv_init_image goblin b ≡ some (addr, size, size + bss))
unfolding tlv_init_image
tlv_init_image_size goblin b macho addr size bss found sizes = ground arith
