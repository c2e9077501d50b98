-- ===== src/Loader/Tests.antt =====
-- Small binaries, and the loader's theorems at them.
use grafted.Base.{
  ℕ, ◌+◌, ◌*◌, ◌^◌, ◌≡◌, refl, List, [], ◌∷◌, none, some, get_or, Bytes, codes, arith,
}
use grafted.Loader.Outcome.{Outcome}
use grafted.Loader.Format.{
  Segment, MachOBinary, ParsedInfo, Command, MachO, FatArch, Mach, Goblin, cpu_type_x86_64,
}
use grafted.Loader.Macho.{
  read_command, read_commands, is_dep, extract_info, parse_single, first_slice, parse_fat, parse,
  tlv_init_image, empty_info, binary_of,
}
use grafted.Loader.Macho.Laws.{
  extract_info_reads, parse-x86_64, parse_fat_picks, tlv_init_image_size,
}
use grafted.Loader.Mapper.{
  protect, fill, map_segment, map_segments, choose_slide, entry_address, map_binary,
}
use grafted.Loader.Mapper.Calls.{recorder}
use grafted.Loader.Mapper.Laws.{AreWithin, map_segment-AreWithin, map_binary_entry}
use grafted.Loader.Memory.{Memory, read_word, write_word}
use grafted.Loader.Fixups.{
  FixupsHeader, read_header, dylib_name, decode_64, decode_64_offset, decode, walk_chain,
  resolve_imports,
}
use grafted.Loader.Fixups.Entries.{Entry, encode_offset, decode-encode_offset}
use grafted.Loader.Fixups.Chain.{Links, IsPatched, IsOutside, walk_chain_patches}
use grafted.Loader.Fixups.Imports.{resolve_imports_reads}

program : Unit {0}
unfolding read_command read_commands is_dep extract_info parse_single first_slice parse_fat parse
    tlv_init_image protect fill map_segment map_segments choose_slide entry_address map_binary
    read_word write_word dylib_name decode_64 decode_64_offset decode walk_chain resolve_imports
program = tt

abbrev text : Segment
text = record {
  name = codes "__TEXT";
  vmaddr = 0x100000000;
  vmsize = 4096;
  fileoff = 0;
  filesize = 4;
  initprot = 5;
  maxprot = 5;
}

abbrev page_zero : Segment
page_zero = record text {
  name = codes "__PAGEZERO";
  vmaddr = 0;
  vmsize = 0x100000000;
  filesize = 0;
}

abbrev app : MachO
app = record {
  filetype = 2;
  cputype = cpu_type_x86_64;
  load_commands =
      Command.segment64 page_zero
      ∷ Command.segment64 text
      ∷ Command.main 2
      ∷ Command.dyld_chained_fixups 8 16
      ∷ [];
  libs = codes "self" ∷ codes "libSystem" ∷ [];
  self_name = none;
  run_paths = [];
  sections =
      (some (record { section_name = codes "__thread_data"; addr = 64; size = 8 })
        ∷ some (record { section_name = codes "__thread_bss"; addr = 72; size = 16 })
        ∷ [])
      ∷ [];
}

abbrev arm : FatArch
arm = record { cputype = 0x0100000c; offset = 0; size = 4 }

abbrev intel : FatArch
intel = record { cputype = cpu_type_x86_64; offset = 4; size = 4 }

-- A library that reads every file as the same one.
abbrev goblin : Goblin
goblin = record {
  parse_macho = λ bytes. some app;
  parse_mach = λ bytes. some (Mach.fat (some (arm ∷ intel ∷ [])));
}

abbrev fat_file : Bytes
fat_file = 0xca ∷ 0xfe ∷ 0xba ∷ 0xbe ∷ 1 ∷ 2 ∷ 3 ∷ 4 ∷ []

abbrev app_info : ParsedInfo
app_info = read_commands (empty_info app) app.load_commands

abbrev app_binary : MachOBinary
app_binary = binary_of goblin (codes "app") (1 ∷ 2 ∷ 3 ∷ 4 ∷ []) app_info

extract_info_reads_example : app_info.segments ≡ page_zero ∷ text ∷ []
unfolding program
extract_info_reads_example = (extract_info_reads goblin fat_file app app_info refl refl).0

parse-x86_64_example : MachOBinary.cpu_type app_binary ≡ cpu_type_x86_64
unfolding program
parse-x86_64_example = (parse-x86_64 goblin (codes "app") fat_file app_binary refl).0

test_parse_fat_picks : parse_fat goblin (codes "app") fat_file ≡ Outcome.ok app_binary
unfolding program
test_parse_fat_picks =
    (parse_fat_picks goblin (codes "app") fat_file (arm ∷ []) [] intel (refl, tt) refl).0 refl

test_tlv_init_image_size : tlv_init_image goblin app_binary ≡ some (64, 8, 24)
unfolding program
test_tlv_init_image_size =
    (tlv_init_image_size goblin app_binary app 64 8 16 refl refl).1 (omega arith) (omega arith)

-- A segment of one byte in memory and two in the file.
abbrev overlong : Segment
overlong = record text { vmsize = 1; filesize = 2 }

map_segment-AreWithin_example :
    ¬ AreWithin 0x100000000 1 (map_segment (recorder 0x7000) overlong (1 ∷ 2 ∷ 3 ∷ 4 ∷ []) 0 []).1
map_segment-AreWithin_example =
    (map_segment-AreWithin 0x7000 overlong (1 ∷ 2 ∷ 3 ∷ 4 ∷ []) 0
        (omega arith, omega arith, omega arith) (λ h. absurd (omega (arith, h)))).1
      (omega arith) (omega arith)

test_map_binary_entry : 0x100000002 + 0 ≡ 0x100000000 + 0 + 2
unfolding program
test_map_binary_entry =
    (map_binary_entry (recorder 0x7000) app_binary [] 0x100000002 0 text refl).1 refl refl
      (omega arith) (omega arith) (omega arith)

test_decode-encode_offset : decode 6 (4096 ∷ []) 0 (encode_offset (Entry.bind 0 255) 2) ≡ some 4095
test_decode-encode_offset =
    (decode-encode_offset (4096 ∷ []) 0 2 (Entry.bind 0 255) (omega arith, omega arith)
      (omega arith)).0

-- A rebase to offset 16 and a binding of the first import, 8 bytes apart from address 4096 on.
abbrev links : Links
links = (Entry.rebase 16 0, 2) ∷ (Entry.bind 0 1, 0) ∷ []

abbrev chain_memory : Memory
chain_memory =
    write_word 8 (write_word 8 (λ x. 0) 4096 (encode_offset (Entry.rebase 16 0) 2)) 4104
      (encode_offset (Entry.bind 0 1) 0)

walk_chain_patches_example :
    (m' : Memory) × ((walk_chain 2 6 (500 ∷ []) 0x7000 4096 chain_memory ≡ some m')
      × (IsPatched (500 ∷ []) 0x7000 m' 4096 links
          × ((x : ℕ) → IsOutside x 4096 links → m' x ≡ chain_memory x)))
unfolding program
walk_chain_patches_example =
    walk_chain_patches links 2 (500 ∷ []) 0x7000 4096 chain_memory
      (
        ((omega arith, omega arith), omega arith, omega arith, omega arith, refl),
        (((omega arith, omega arith), refl, omega arith, refl), omega arith),
      )
      (omega arith)

-- One import of the binary itself, whose name is at offset 40.
abbrev import_bytes : Memory
import_bytes = write_word 4 (λ x. 0) 32 (4 * 2 ^ 9)

abbrev import_header : FixupsHeader
import_header = record (read_header (λ x. 0)) {
  imports_offset = 32;
  symbols_offset = 36;
  imports_count = 1;
}

abbrev table : List ℕ
table = 77 ∷ []

test_resolve_imports_reads : get_or table 0 0 ≡ 77
unfolding program
test_resolve_imports_reads =
    (resolve_imports_reads (λ m at. some (codes "_main")) (λ dylib name. 77) import_bytes
        import_header [] 1 0 table refl).1
      0 (codes "_main") (omega arith) refl
