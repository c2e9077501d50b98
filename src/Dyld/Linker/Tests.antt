-- ===== src/Dyld/Linker/Tests.antt =====
-- The linker's theorems at a library that depends on itself.
use grafted.Base.{
  ◌+◌, ◌++◌, true, List, inr, length, ℕ, ◌≡◌, ◌≢◌, ◌↔◌, ◌⊎◌, ◌≤◌, ◌∙◌, sym, refl, inl, true, false,
  nat_eq, list_eq, [], ◌∷◌, ◌++◌, Option, none, some, length, Bytes, codes, arith,
}
use mathlib.Core.Path.{subst}
use grafted.Base.Assoc.{lookup, insert, is_some}
use grafted.Objc.Runtime.{Heap, Registries}
use grafted.Loader.Outcome.{ok}
use grafted.Loader.Format.{Segment, MachOBinary, Command, MachO, Goblin, cpu_type_x86_64}
use grafted.Loader.Macho.{read_command, read_commands, is_dep, extract_info, parse_single, parse}
use grafted.Loader.Mapper.{
  Os, protect, fill, map_segment, map_segments, choose_slide, entry_address, map_binary,
}
use grafted.Dyld.Resolver.{
  Paths, new_resolver, resolve_rpath, try_rpaths, try_special, try_dirs, fall_back,
}
use grafted.Dyld.Linker.{
  after_classes, Symbols, Linker, in_library, in_libraries, by_short_name, defined, by_dlsym,
  class_name, resolve,
}
use grafted.Dyld.Linker.Classes.{ObjcState, Fresh, c_string}
use grafted.Dyld.Linker.Classes.Laws.{IsConsistent, IsAllocated}
use grafted.Dyld.Linker.Lookups.{IsUnregistered, IsInNoLibrary, IsNoClass, IsNotInSwift}
use grafted.Dyld.Linker.Laws.{resolve_unresolved, resolve_class_once}
use grafted.Loader.Memory.{Memory, read_word, write_word}
use grafted.Dyld.Linker.Bind.{Import, target_of, bind, bind_entries}
use grafted.Dyld.Linker.Bind.Laws.{AreRead, targets, bind_reads}
use grafted.Dyld.Linker.Bind.Entries.{entries, bind_entries_reads}
use grafted.Dyld.Linker.Init.{Image, run_initializers}
use grafted.Dyld.Linker.Init.Laws.{note, read_pointer, of_segments, run_initializers_calls}
use grafted.Dyld.Linker.Load.{from_path, load_file, load_one, load_loop, load_dependencies}
use grafted.Dyld.Linker.Load.Measure.{IsFinite, AreNamed, load_dependencies_ends}
use grafted.Dyld.Linker.Load.Steps.{IsMissing}
use grafted.Dyld.Linker.Load.Closure.{load_dependencies_closed}

program : Unit {0}
unfolding after_classes lookup insert read_command read_commands is_dep extract_info parse_single
    parse protect fill map_segment map_segments choose_slide entry_address map_binary resolve_rpath
    try_rpaths try_special try_dirs fall_back grafted.Dyld.Resolver.resolve in_library in_libraries
    by_short_name defined by_dlsym class_name resolve from_path load_file load_one load_loop
    load_dependencies target_of bind bind_entries entries read_word write_word
program = tt

abbrev no_symbols : Bytes → Option Symbols
no_symbols = λ b. none

abbrev linker : Linker
linker = record { registry = []; resolver = new_resolver; loaded_libraries = [] }

abbrev empty_heap : Heap
empty_heap = record {
  isa = λ p. 0;
  data_bits = λ p. 0;
  name_of = λ p. 0;
  to_str = λ p. none;
  to_string_lossy = λ p. [];
}

abbrev no_classes : ObjcState
no_classes = record {
  class_cache = [];
  heap = empty_heap;
  registries = record { methods = []; classes = []; selectors = [] };
}

abbrev first_page : Fresh
first_page = record { fresh_class = 0x1000; fresh_data = 0x1100; fresh_name = 0x1200 }

abbrev second_page : Fresh
second_page = record { fresh_class = 0x2000; fresh_data = 0x2100; fresh_name = 0x2200 }

no_classes-IsConsistent : IsConsistent no_classes
unfolding lookup
no_classes-IsConsistent name cls e = absurd cc

first_page-IsAllocated : IsAllocated first_page
first_page-IsAllocated = ((λ h. omega arith), (λ h. omega arith), refl, λ h. omega arith)

second_page-IsAllocated : IsAllocated second_page
second_page-IsAllocated = ((λ h. omega arith), (λ h. omega arith), refl, λ h. omega arith)

resolve_unresolved_example :
    (resolve no_symbols
        (λ name. 0)
        first_page
        linker
        (codes "libFoo.dylib")
        (codes "_bar")
        false
        no_classes).0
      ≡ none
    ↔ (IsUnregistered linker.registry (codes "libFoo.dylib") (codes "_bar")
        × IsInNoLibrary no_symbols linker.loaded_libraries (codes "_bar")
        × IsNoClass (codes "_bar")
        × IsNotInSwift (λ name. 0) (codes "_bar"))
resolve_unresolved_example =
    resolve_unresolved no_symbols (λ name. 0) linker first_page (codes "libFoo.dylib")
      (codes "libFoo.dylib") (codes "_bar") no_classes first_page-IsAllocated
      no_classes-IsConsistent (refl, inl refl)

abbrev class_symbol : Bytes
class_symbol = codes "_OBJC_CLASS_$_" ++ codes "NSCell"

abbrev metaclass_symbol : Bytes
metaclass_symbol = codes "_OBJC_METACLASS_$_" ++ codes "NSCell"

resolve_class_once_example :
    (cls : ℕ) × (st' : ObjcState) × (cls ≢ 0)
    × IsConsistent st'
    × (lookup (Registries.classes st'.registries) (c_string (codes "NSCell")) ≡ some cls)
    × (resolve no_symbols (λ name. 0) first_page linker [] class_symbol false no_classes
        ≡ (some cls, st'))
    × (resolve no_symbols (λ name. 0) first_page linker [] metaclass_symbol false no_classes
        ≡ (some cls, st'))
    × (resolve no_symbols (λ name. 0) second_page linker [] class_symbol false st'
        ≡ (some cls, st'))
    × (resolve no_symbols (λ name. 0) second_page linker [] metaclass_symbol false st'
        ≡ (some cls, st'))
unfolding program
resolve_class_once_example =
    resolve_class_once no_symbols (λ name. 0) linker first_page second_page [] (codes "NSCell")
      false no_classes first_page-IsAllocated second_page-IsAllocated no_classes-IsConsistent refl
      refl

-- Every file is a library at 0x1000 that depends on `/a`.
abbrev text : Segment
text = record {
  name = codes "__TEXT";
  vmaddr = 0x1000;
  vmsize = 0;
  fileoff = 0;
  filesize = 0;
  initprot = 5;
  maxprot = 5;
}

abbrev file : MachO
file = record {
  filetype = 6;
  cputype = cpu_type_x86_64;
  load_commands = Command.segment64 text ∷ [];
  libs = codes "/a" ∷ [];
  self_name = none;
  run_paths = [];
  sections = [];
}

abbrev goblin : Goblin
goblin = record { parse_macho = λ bytes. some file; parse_mach = λ bytes. none }

abbrev read : Bytes → Option Bytes
read = λ path. some []

abbrev os : Os ℕ
os = record {
  mmap = λ at size prot s. (some 0x9000, s);
  copy = λ at bytes s. s;
  mprotect = λ at size prot s. (true, s);
  munmap = λ at size s. s;
}

abbrev paths : Paths
paths = record {
  parent = λ p. none;
  join = λ p q. p ++ q;
  file_name = λ p. some p;
  exists = λ p. true;
}

abbrev library : Bytes → MachOBinary
library path = record {
  path = path;
  file_type = 6;
  cpu_type = cpu_type_x86_64;
  entry_point = 0;
  entry_is_offset = false;
  segments = text ∷ [];
  dylib_deps = record { dep_name = codes "/a"; current_version = 0; compat_version = 0 } ∷ [];
  rpaths = [];
  chained_fixups = none;
  exports_trie = none;
  data_bytes = [];
  slide = 0;
}

abbrev linked : Linker
linked = record linker { loaded_libraries = (codes "/a", library (codes "/a")) ∷ [] }

opens : (path : Bytes) → from_path os goblin read paths path ≡ ok (library path)
unfolding program
opens path = refl

finite : IsFinite os goblin read paths (codes "/a" ∷ []) 1
finite path lib e =
    let same : ok (library path) ≡ ok lib = sym (opens path) ∙ e in
    let equal : library path ≡ lib = cc in
    subst (λ (l : MachOBinary). (length l.dylib_deps ≤ 1) × AreNamed (codes "/a" ∷ []) l.dylib_deps)
      equal ((omega arith), (refl, tt))

load_dependencies_ends_example :
    load_dependencies os goblin read paths 3 linker (library (codes "/app")) 0 ≢ none
load_dependencies_ends_example =
    load_dependencies_ends os goblin read paths (codes "/a" ∷ []) 1 3 linker
      (library (codes "/app")) 0 finite (refl, tt) (omega arith)

loads_itself :
    load_dependencies os goblin read paths 3 linker (library (codes "/app")) 0
    ≡ some (ok tt, (linked, 0))
unfolding program
loads_itself = refl

load_dependencies_closed_example :
    (is_some (lookup (Linker.registry linker) (codes "/a")) ≡ true)
    ⊎ ((is_some (lookup (Linker.loaded_libraries linked) (codes "/a")) ≡ true)
        ⊎ IsMissing os goblin read paths linker (library (codes "/app")) (codes "/a"))
load_dependencies_closed_example =
    load_dependencies_closed os goblin read paths 3 linker linked (library (codes "/app")) 0 0
      (library (codes "/app")).dylib_deps (codes "/a") refl loads_itself (inl refl) refl

-- `_puts` is in the registry, and `_gone` is nowhere.
abbrev with_puts : Linker
with_puts = record linker {
  registry = (codes "/usr/lib/libSystem.B.dylib", (codes "_puts", 0x4000) ∷ []) ∷ [];
}

abbrev imports : List Import
imports =
    record {
      dylib = codes "libSystem.B.dylib";
      symbol = codes "_puts";
      address = 0x1000;
      is_weak = false;
    }
    ∷ (record {
      dylib = codes "libSystem.B.dylib";
      symbol = codes "_gone";
      address = 0x1008;
      is_weak = false;
    }
        ∷ [])

abbrev zeros : Memory
zeros = λ x. 0

abbrev allocated : ℕ → Fresh
allocated = λ k. first_page

abbrev bound : ℕ × (Memory × ObjcState)
bound = bind no_symbols (λ name. 0) with_puts 0x666 allocated 0 imports zeros no_classes

test_targets :
    targets no_symbols (λ name. 0) with_puts 0x666 allocated 0 imports no_classes
    ≡ (0x1000, 0x4000) ∷ ((0x1008, 0x666) ∷ [])
unfolding program
test_targets = refl

bind_reads_example :
    (bound.0 ≡ 2)
    × AreRead bound.1.0
        (targets no_symbols (λ name. 0) with_puts 0x666 allocated 0 imports no_classes)
    × (bound.1.0 0x1010 ≡ 0)
unfolding program
bind_reads_example =
    bind_reads no_symbols (λ name. 0) with_puts 0x666 allocated 0 imports zeros no_classes 0x1010
      ((omega arith), (inl (omega arith), tt), ((omega arith), tt, tt))
      (inr (omega arith), (inr (omega arith), tt))

-- Two entries: the first is symbol 1, `_puts`, and the second is none.
abbrev indirect_table : Bytes
indirect_table = 1 ∷ (0 ∷ (0 ∷ (0 ∷ (9 ∷ (0 ∷ (0 ∷ (0 ∷ [])))))))

abbrev symbol_names : List (Option Bytes)
symbol_names = none ∷ (some (codes "_puts") ∷ [])

abbrev bound_entries : ℕ × (Memory × ObjcState)
bound_entries =
    bind_entries no_symbols (λ name. 0) with_puts 0x666 allocated 2 0 0x1000 0 indirect_table
      symbol_names zeros no_classes

abbrev named_entries : List (ℕ × ℕ)
named_entries =
    entries no_symbols (λ name. 0) with_puts 0x666 allocated 0x1000 0 indirect_table symbol_names 2
      0 no_classes

test_bind_entries_reads :
    (bound_entries.0 ≡ length named_entries)
    × AreRead bound_entries.1.0 named_entries
    × (bound_entries.1.0 0x1008 ≡ 0)
unfolding program
test_bind_entries_reads =
    bind_entries_reads no_symbols (λ name. 0) with_puts 0x666 allocated 0x1000 0 indirect_table
      symbol_names 2 zeros no_classes 0x1008 (omega arith) ((omega arith), tt)
      (inr (omega arith), tt)

-- A routine, and two functions of a section at 0x2000.
abbrev image : Image
image = record {
  routines = 0x500 ∷ [];
  sections =
      (none
        ∷ (some (record { section_name = codes "__mod_init_func"; addr = 0x2000; size = 16 }) ∷ []))
      ∷ [];
}

test_of_segments : of_segments (λ at. at + 1) image.sections ≡ 0x2001 ∷ (0x2009 ∷ [])
test_of_segments = refl

run_initializers_calls_example :
    run_initializers (note (λ at. at + 1)) (read_pointer (λ at. at + 1)) (some image) []
    ≡ (true, image.routines ++ of_segments (λ at. at + 1) image.sections)
run_initializers_calls_example = run_initializers_calls (λ at. at + 1) image
