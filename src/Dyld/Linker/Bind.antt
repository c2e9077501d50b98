-- ===== src/Dyld/Linker/Bind.antt =====
-- crates/grafted-dyld/src/linker.rs: `bind` and `bind_nl_symbol_ptrs`.
-- What goblin reads in the file is an argument. The writes go to memory; making the page writable
-- is left out, and so are the log lines.
pub mod Laws
pub mod Entries
use grafted.Base.{
  ℕ, zero, suc, ◌+◌, ◌*◌, ◌/◌, ◌%◌, ◌^◌, Bool, true, false, ◌&&◌, List, [], ◌∷◌, Option, none, some,
  ◌==◌, nat_eq, ltb, if◌then◌else◌, u64, length, get_elem?, get_or, Bytes, codes,
}
use grafted.Loader.Memory.{Memory, write_word}
use grafted.Dyld.Linker.{Symbols, Linker, resolve}
use grafted.Dyld.Linker.Classes.{ObjcState, Fresh}

-- goblin's `Import`, as far as it is read.
pub record Import : Type 0 where
  pub dylib : Bytes
  pub symbol : Bytes
  pub address : ℕ
  pub is_weak : Bool

-- A section's flags, address and size.
pub record Pointers : Type 0 where
  pub flags : ℕ
  pub addr : ℕ
  pub size : ℕ

-- The load commands that say where the tables are.
pub data Table : Type 0 where
  symtab : ℕ → ℕ → Table
  dysymtab : ℕ → ℕ → Table
  other : Table

-- S_NON_LAZY_SYMBOL_POINTERS: the last such section, by its address and its number of entries.
unfoldable pub find_pointers : ℕ × ℕ → List (Option Pointers) → ℕ × ℕ
find_pointers found [] = found
find_pointers found (none ∷ sections) = find_pointers found sections
find_pointers found (some s ∷ sections) =
    find_pointers (if s.flags % 2 ^ 8 == 6 then (s.addr, s.size / 8) else found) sections

-- The symbol table's offset and number, and the indirect table's.
unfoldable pub find_tables : (ℕ × ℕ) × (ℕ × ℕ) → List Table → (ℕ × ℕ) × (ℕ × ℕ)
find_tables found [] = found
find_tables (syms, ind) (symtab symoff nsyms ∷ tables) = find_tables ((symoff, nsyms), ind) tables
find_tables (syms, ind) (dysymtab off n ∷ tables) = find_tables (syms, (off, n)) tables
find_tables found (other ∷ tables) = find_tables found tables

-- Where the indirect table is: by its header, or behind the symbol table.
unfoldable pub indirect_offset : List Table → ℕ
indirect_offset tables =
    let ((symoff, nsyms), (off, n)) = find_tables ((0, 0), (0, 0)) tables in
    if ltb 0 off && ltb 0 n then off else symoff + nsyms * 16

-- `u32::from_le_bytes`.
abbrev pub u32_at : Bytes → ℕ → ℕ
u32_at bytes at =
    get_or bytes at 0
    + 256 * get_or bytes (at + 1) 0
    + 2 ^ 16 * get_or bytes (at + 2) 0
    + 2 ^ 24 * get_or bytes (at + 3) 0

abbrev pub lib_system : Bytes
lib_system = codes "/usr/lib/libSystem.B.dylib"

-- `trap` is the address of `shim_unresolved_trap`, and `fresh` gives what is allocated for the
-- import with a number.
module _ (read_symbols : Bytes → Option Symbols) (dlsym : Bytes → ℕ) (linker : Linker) (trap : ℕ)
    (fresh : ℕ → Fresh) where
  -- The address that a symbol is bound to.
  unfoldable pub target_of : ℕ → Bytes → Bytes → Bool → ObjcState → ℕ × ObjcState
  target_of k dylib symbol is_weak st =
      let (found, st') = resolve read_symbols dlsym (fresh k) linker dylib symbol is_weak st in
      (elim found [ none ↦ trap | some addr ↦ addr ], st')

  -- The loop over the imports, the first of them with the number `k`, and the number of those bound.
  unfoldable pub bind : ℕ → List Import → Memory → ObjcState → ℕ × (Memory × ObjcState)
  bind k [] m st = (0, (m, st))
  bind k (i ∷ imports) m st =
      let (addr, st') = target_of k i.dylib i.symbol i.is_weak st in
      let (bound, rest) = bind (k + 1) imports (write_word 8 m i.address addr) st' in
      (bound + 1, rest)

  -- The loop over the entries from number `k` on, `n` of them, for the table at `indirect` and the
  -- pointers at `addr`. An entry beyond the file ends it.
  unfoldable pub bind_entries :
      ℕ → ℕ → ℕ → ℕ → Bytes → List (Option Bytes) → Memory → ObjcState → ℕ × (Memory × ObjcState)
  bind_entries zero k addr indirect bytes symbols m st = (0, (m, st))
  bind_entries (suc n) k addr indirect bytes symbols m st =
      if ltb (length bytes) (indirect + k * 4 + 4)
      then (0, (m, st))
      else elim (get_elem? symbols (u32_at bytes (indirect + k * 4))) [
        | none ↦ bind_entries n (k + 1) addr indirect bytes symbols m st
        | some none ↦ bind_entries n (k + 1) addr indirect bytes symbols m st
        | some (some name) ↦
            let (to, st') = target_of k lib_system name false st in
            let (bound, rest) =
              bind_entries n (k + 1) addr indirect bytes symbols
                (write_word 8 m (u64 (addr + k * 8)) to) st' in
            (bound + 1, rest)
      ]

  unfoldable pub bind_nl_symbol_ptrs :
      List (Option Pointers)
      → List Table
      → Bytes
      → List (Option Bytes)
      → Memory
      → ObjcState
      → ℕ × (Memory × ObjcState)
  bind_nl_symbol_ptrs sections tables bytes symbols m st =
      let (nl_ptr_addr, nl_ptr_count) = find_pointers (0, 0) sections in
      if nl_ptr_count == 0
      then (0, (m, st))
      else bind_entries nl_ptr_count 0 nl_ptr_addr (indirect_offset tables) bytes symbols m st
