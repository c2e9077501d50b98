-- ===== src/Dyld/Linker/Metadata.antt =====
-- crates/grafted-dyld/src/linker.rs: register_objc_metadata, register_objc_class_names and
-- run_all_initializers. What goblin reads of a file is an argument, `none` if it cannot parse it.
-- Class pointers and method lists are read in memory, class data and names by the runtime's heap.
-- `fresh` is the address of the copy of a name that is made for a new selector. Logs are left out.

pub mod Laws
pub mod Tests
use grafted.Base.{
  ℕ, zero, suc, ◌+◌, ◌-◌, ◌*◌, ◌/◌, ◌%◌, ◌^◌, Bool, true, false, not, ◌&&◌, ◌||◌, List, [], ◌∷◌,
  Option, none, some, ◌==◌, nat_eq, list_eq, ltb, leb, has_bit, if◌then◌else◌, u32, u64, Bytes,
  codes,
}
use grafted.Loader.Format.{Section, Segment, MachOBinary}
use grafted.Loader.Mapper.{find_text}
use grafted.Loader.Memory.{Memory, read_word}
use grafted.Objc.Runtime.{
  Heap, Registries, class_add_method, register_class_pair, sel_register_name,
}
use grafted.Dyld.Linker.Init.{Image, run_initializers}

-- An `i32` as an offset to an address.
abbrev pub offset_from : ℕ → ℕ → ℕ
offset_from base v = u64 (base + (if ltb v (2 ^ 31) then v else v + (2 ^ 64 - 2 ^ 32)))

abbrev pub data_of_class : Heap → ℕ → ℕ
data_of_class heap cls = heap.data_bits cls / 8 * 8

-- `baseMethods` without its tag bits.
abbrev pub method_list_of : Memory → ℕ → ℕ
method_list_of m data_ptr = read_word 8 m (data_ptr + 32) / 4 * 4

abbrev pub method_count : Memory → ℕ → ℕ
method_count m list = read_word 4 m (list + 4)

abbrev pub entry_size : Memory → ℕ → ℕ
entry_size m list = read_word 4 m list % 2 ^ 16

module _ (heap : Heap) (fresh : Registries → ℕ) (m : Memory) where
  -- One method, which is given by offsets or by pointers.
  unfoldable pub add_method : (cls base : ℕ) → (is_relative : Bool) → Registries → Registries
  add_method cls base is_relative r =
      let name_ptr =
        if is_relative then offset_from base (read_word 4 m base) else read_word 8 m base in
      let imp =
        if is_relative
        then offset_from (base + 8) (read_word 4 m (base + 8))
        else read_word 8 m (base + 16) in
      let s = sel_register_name heap (fresh r) r name_ptr in
      (class_add_method s.0 cls s.1 (some imp)).0

  -- The `n` methods from number `i`.
  unfoldable pub add_methods : (n i cls list : ℕ) → Registries → Registries
  add_methods zero i cls list r = r
  add_methods (suc n) i cls list r =
      add_methods n (suc i) cls list (
        add_method cls (list + 8 + u32 (i * entry_size m list)) (has_bit (read_word 4 m list) 31) r)

  -- A class of a library. Its methods come first, and a list that looks wrong is skipped.
  unfoldable pub register_class_metadata : ℕ → Registries → Registries
  register_class_metadata cls r =
      let data_ptr = data_of_class heap cls in
      let list = method_list_of m data_ptr in
      let n = method_count m list in
      if (cls == 0) || (data_ptr == 0)
      then r
      else if (list == 0) || (ltb 500 n || ((entry_size m list == 0) || ltb 64 (entry_size m list)))
      then register_class_pair heap r cls
      else register_class_pair heap (add_methods n 0 cls list r) cls

  -- A class of the main binary.
  unfoldable pub register_class_name : ℕ → Registries → Registries
  register_class_name cls r =
      let data_ptr = data_of_class heap cls in
      let list = method_list_of m data_ptr in
      let n = method_count m list in
      let named = register_class_pair heap r cls in
      if (cls == 0) || ((data_ptr == 0) || (heap.name_of data_ptr == 0))
      then r
      else if ltb 0x10000 list
          && (leb n 200 && (not (entry_size m list == 0) && leb (entry_size m list) 64))
      then add_methods n 0 cls list named
      else named

  module _ (register : ℕ → Registries → Registries) where
    -- The `n` classes whose pointers start at `ptrs`.
    unfoldable pub each_class : (n ptrs : ℕ) → Registries → Registries
    each_class zero ptrs r = r
    each_class (suc n) ptrs r = each_class n (ptrs + 8) (register (read_word 8 m ptrs) r)

    unfoldable pub each_section : ℕ → List (Option Section) → Registries → Registries
    each_section slide [] r = r
    each_section slide (none ∷ sections) r = each_section slide sections r
    each_section slide (some section ∷ sections) r = each_section slide sections (
        if Section.section_name section == codes "__objc_classlist"
        then each_class (section.size / 8) (u64 (section.addr + slide)) r
        else r)

    unfoldable pub each_segment : ℕ → List (List (Option Section)) → Registries → Registries
    each_segment slide [] r = r
    each_segment slide (sections ∷ segments) r =
        each_segment slide segments (each_section slide sections r)

    -- A file that cannot be parsed gives an error, which only is logged.
    unfoldable pub register_image : ℕ → Option Image → Registries → Registries
    register_image slide none r = r
    register_image slide (some image) r = each_segment slide image.sections r

-- The registries, and what initializers may change besides them.
module _ {S : Type 0} (heap_of : S → Heap) (memory_of : S → Memory) (fresh : Registries → ℕ)
    (read_image : Bytes → Option Image) (call : ℕ → Registries × S → Registries × S) where
  abbrev pub is_at_address : MachOBinary → Bool
  is_at_address lib = elim (find_text lib.segments) [
    | none ↦ false
    | some text ↦ ltb 0 (Segment.vmaddr text)
  ]

  unfoldable pub register_libraries : List MachOBinary → Registries × S → Registries × S
  register_libraries [] s = s
  register_libraries (lib ∷ libs) (r, s) = register_libraries libs (
    if is_at_address lib
        then register_image (heap_of s) fresh (memory_of s)
            (register_class_metadata (heap_of s) fresh (memory_of s)) lib.slide
            (read_image lib.data_bytes) r
        else r,
    s,
  )

  abbrev pub read_pointer : ℕ → Registries × S → ℕ
  read_pointer at s = read_word 8 (memory_of s.1) at

  -- The first library whose file cannot be parsed ends the loop with an error.
  unfoldable pub initialize_libraries : List MachOBinary → Registries × S → Bool × (Registries × S)
  initialize_libraries [] s = (true, s)
  initialize_libraries (lib ∷ libs) s =
      if not (is_at_address lib)
      then initialize_libraries libs s
      else elim (run_initializers call read_pointer (read_image lib.data_bytes) s).0 [
        | false ↦ run_initializers call read_pointer (read_image lib.data_bytes) s
        | true ↦
            initialize_libraries libs
              (run_initializers call read_pointer (read_image lib.data_bytes) s).1
      ]

  unfoldable pub run_all_initializers :
      List MachOBinary → MachOBinary → Registries × S → Bool × (Registries × S)
  run_all_initializers libs main s =
      let s1 = register_libraries libs s in
      let r1 =
        register_image (heap_of s1.1) fresh (memory_of s1.1)
          (register_class_name (heap_of s1.1) fresh (memory_of s1.1)) main.slide
          (read_image main.data_bytes) s1.0 in
      let done_ = initialize_libraries libs (r1, s1.1) in
      elim done_.0 [
        | false ↦ done_
        | true ↦ run_initializers call read_pointer (read_image main.data_bytes) done_.1
      ]
