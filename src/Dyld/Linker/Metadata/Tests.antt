-- ===== src/Dyld/Linker/Metadata/Tests.antt =====
-- Classes of a binary at concrete inputs, for crates/grafted-dyld/src/linker.rs.
use grafted.Base.{
  ℕ, ◌≡◌, refl, false, List, [], ◌∷◌, Option, none, some, codes, ◌==◌, nat_eq, list_eq,
  if◌then◌else◌, Bytes,
}
use grafted.Base.Assoc.{lookup, insert}
use grafted.Loader.Format.{MachOBinary}
use grafted.Loader.Memory.{Memory, read_word}
use grafted.Objc.Runtime.{
  Heap, Registries, class_add_method, register_class_pair, sel_register_name, pair_eq,
}
use grafted.Dyld.Linker.Init.{Image, run_initializers, call_routines, call_segments}
use grafted.Dyld.Linker.Metadata.{
  add_method, add_methods, register_class_metadata, register_class_name, each_class, each_section,
  each_segment, register_image, register_libraries, initialize_libraries, run_all_initializers,
}
use grafted.Dyld.Linker.Metadata.Laws.{classes_are_known}

program : Unit {0}
unfolding lookup insert read_word class_add_method register_class_pair sel_register_name
    run_initializers call_routines call_segments add_method add_methods register_class_metadata
    register_class_name each_class each_section each_segment register_image register_libraries
    initialize_libraries run_all_initializers
program = tt

-- Two class pointers at 0x1000, the second null; the class at 0x3000 has its data at 0x4000, which has
-- a name and a list with one absolute method at 0x20000.
abbrev memory : Memory
memory x =
    if x == 0x1001
    then 0x30
    else if x == 0x4022
    then 2
    else if x == 0x20000
    then 24
    else if x == 0x20004
    then 1
    else if x == 0x20008
    then 5
    else if x == 0x20018
    then 9
    else 0

abbrev heap : Heap
heap = record {
  isa = λ p. 0;
  data_bits = λ p. if p == 0x3000 then 0x4001 else 0;
  name_of = λ p. if p == 0x4000 then 0x5000 else 0;
  to_str = λ p. none;
  to_string_lossy = λ p. if p == 0x5000 then codes "Thing" else codes "run";
}

abbrev nothing : Registries
nothing = record { methods = []; classes = []; selectors = [] }

test_names :
    each_class heap
      (λ r. 0x900)
      memory
      (register_class_name heap (λ r. 0x900) memory)
      2
      0x1000
      nothing
    ≡ record {
      methods = ((0x3000, 0x900), some 9) ∷ [];
      classes = (codes "Thing", 0x3000) ∷ [];
      selectors = (codes "run", 0x900) ∷ [];
    }
unfolding program
test_names = refl

classes_are_known_example :
    (lookup
        (each_class heap
          (λ r. 0x900)
          memory
          (register_class_metadata heap (λ r. 0x900) memory)
          2
          0x1000
          nothing).classes
        (codes "Thing")
      ≡ some 0x3000)
    × (lookup
          (each_class heap
            (λ r. 0x900)
            memory
            (register_class_name heap (λ r. 0x900) memory)
            2
            0x1000
            nothing).classes
          (codes "Thing")
        ≡ some 0x3000)
unfolding program
classes_are_known_example =
    classes_are_known heap (λ r. 0x900) memory 2 0x1000 nothing (codes "Thing")

-- The initializers that are called, the last one first.
abbrev called : ℕ → Registries × List ℕ → Registries × List ℕ
called f (r, fs) = (r, f ∷ fs)

abbrev image : Bytes → Option Image
image b =
    if b == codes "lib"
    then some (record { routines = 1 ∷ []; sections = [] })
    else if b == codes "main"
    then some (record { routines = 2 ∷ []; sections = [] })
    else none

abbrev binary : ℕ → Bytes → MachOBinary
binary at file = record {
  path = [];
  file_type = 0;
  cpu_type = 0;
  entry_point = 0;
  entry_is_offset = false;
  segments =
      record {
        name = codes "__TEXT";
        vmaddr = at;
        vmsize = 0;
        fileoff = 0;
        filesize = 0;
        initprot = 0;
        maxprot = 0;
      }
      ∷ [];
  dylib_deps = [];
  rpaths = [];
  chained_fixups = none;
  exports_trie = none;
  data_bytes = file;
  slide = 0;
}

abbrev started : List MachOBinary → Option (List ℕ)
started libs =
    let r =
      run_all_initializers {S = List ℕ} (λ s. heap) (λ s. memory) (λ r. 0x900) image called libs
        (binary 1 (codes "main")) (nothing, []) in
    if r.0 then some r.1.1 else none

-- A library at address 0 is passed over, and one that cannot be parsed ends the start.
test_started :
    (started (binary 4096 (codes "lib") ∷ (binary 0 (codes "lib") ∷ [])) ≡ some (2 ∷ (1 ∷ [])))
    × (started (binary 4096 (codes "bad") ∷ []) ≡ none)
unfolding program
test_started = (refl, refl)
