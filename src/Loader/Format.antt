-- ===== src/Loader/Format.antt =====
-- crates/grafted-loader/src/macho.rs: the data of a Mach-O file.
-- `Segment` to `ParsedInfo` are the source's own types. The rest is what the goblin library gives,
-- as far as the source reads it: the library itself is a parameter, the record `Goblin`.
use grafted.Base.{ℕ, Bool, List, Option, Bytes}

abbrev pub cpu_type_x86_64 : ℕ
cpu_type_x86_64 = 16777223

pub record Segment : Type 0 where
  pub name : Bytes
  pub vmaddr : ℕ
  pub vmsize : ℕ
  pub fileoff : ℕ
  pub filesize : ℕ
  pub initprot : ℕ
  pub maxprot : ℕ

pub record DylibDep : Type 0 where
  pub dep_name : Bytes
  pub current_version : ℕ
  pub compat_version : ℕ

pub record MachOBinary : Type 0 where
  pub path : Bytes
  pub file_type : ℕ
  pub cpu_type : ℕ
  pub entry_point : ℕ
  pub entry_is_offset : Bool
  pub segments : List Segment
  pub dylib_deps : List DylibDep
  pub rpaths : List Bytes
  pub chained_fixups : Option (ℕ × ℕ)
  pub exports_trie : Option (ℕ × ℕ)
  pub data_bytes : Bytes
  pub slide : ℕ

pub record ParsedInfo : Type 0 where
  pub file_type : ℕ
  pub cpu_type : ℕ
  pub entry_point : ℕ
  pub entry_is_offset : Bool
  pub segments : List Segment
  pub dylib_deps : List DylibDep
  pub rpaths : List Bytes
  pub chained_fixups : Option (ℕ × ℕ)
  pub exports_trie : Option (ℕ × ℕ)

-- goblin's load commands, as far as the source reads them. The name of a segment that is not
-- UTF-8 is read as empty.
pub data Command : Type 0 where
  segment64 : Segment → Command
  main : ℕ → Command
  unixthread : ℕ → ℕ → List ℕ → Command
  dyld_chained_fixups : ℕ → ℕ → Command
  dyld_exports_trie : ℕ → ℕ → Command
  other : Command

pub record Section : Type 0 where
  pub section_name : Bytes
  pub addr : ℕ
  pub size : ℕ

-- A section that goblin cannot read is `none`.
pub record MachO : Type 0 where
  pub filetype : ℕ
  pub cputype : ℕ
  pub load_commands : List Command
  pub libs : List Bytes
  pub self_name : Option Bytes
  pub run_paths : List Bytes
  pub sections : List (List (Option Section))

pub record FatArch : Type 0 where
  pub cputype : ℕ
  pub offset : ℕ
  pub size : ℕ

pub data Mach : Type 0 where
  fat : Option (List FatArch) → Mach
  binary : MachO → Mach

-- `MachO::parse(data, 0)` and `Mach::parse(data)`.
pub record Goblin : Type 0 where
  pub parse_macho : Bytes → Option MachO
  pub parse_mach : Bytes → Option Mach
