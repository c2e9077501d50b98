-- ===== src/Dyld/Linker.antt =====
-- crates/grafted-dyld/src/linker.rs: the linker's state and the search for a symbol.
-- A `HashMap` is walked in the order of its association list. What goblin reads in a file and
-- `dlsym` are parameters; no name has a byte 0 in it.
pub mod Bind
pub mod Classes
pub mod Init
pub mod Laws
pub mod Load
pub mod Lookups
pub mod Metadata
mod Tests
use grafted.Base.{
  ℕ, zero, suc, ◌+◌, ◌^◌, Bool, true, false, not, ◌&&◌, ◌||◌, List, [], ◌∷◌, ◌++◌, Option, none,
  some, ◌==◌, nat_eq, list_eq, if◌then◌else◌, u64, Bytes, codes,
}
use grafted.Base.Assoc.{Map, lookup}
use grafted.Loader.Format.{Segment, MachOBinary}
use grafted.Loader.Mapper.{find_text}
use grafted.Dyld.Resolver.{DylibResolver, strip_prefix}
use grafted.Dyld.Linker.Classes.{ObjcState, Fresh, auto_create_objc_class}

-- What `MachO::parse(data, 0)` gives of a file's symbols: the export trie, `none` if it cannot be
-- read, and the symbol table with names and values.
pub record Symbols : Type 0 where
  pub exports : Option (List (Bytes × ℕ))
  pub symbols : List (Option (Bytes × ℕ))

pub record Linker : Type 0 where
  pub registry : Map Bytes (Map Bytes ℕ)
  pub resolver : DylibResolver
  pub loaded_libraries : Map Bytes MachOBinary

abbrev pub or_else : Option ℕ → Option ℕ → Option ℕ
or_else none next = next
or_else (some a) next = some a

unfoldable pub find_export : ℕ → Bytes → List (Bytes × ℕ) → Option ℕ
find_export base_addr symbol [] = none
find_export base_addr symbol ((name, offset) ∷ exports) =
    let rest = find_export base_addr symbol exports in
    if name == symbol then some (u64 (base_addr + offset)) else rest

-- `name.strip_prefix('_') == Some(symbol)`.
abbrev pub is_underscored : Bytes → Bytes → Bool
is_underscored [] symbol = false
is_underscored (b ∷ name) symbol = (b == 95) && (name == symbol)

unfoldable pub find_legacy : Bytes → List (Option (Bytes × ℕ)) → Option ℕ
find_legacy symbol [] = none
find_legacy symbol (none ∷ symbols) = find_legacy symbol symbols
find_legacy symbol (some (name, n_value) ∷ symbols) =
    let rest = find_legacy symbol symbols in
    if ((name == symbol) || is_underscored name symbol) && not (n_value == 0)
    then some n_value
    else rest

unfoldable pub find_symbol_in_binary : (Bytes → Option Symbols) → MachOBinary → Bytes → Option ℕ
find_symbol_in_binary read_symbols binary symbol = elim (read_symbols binary.data_bytes) [
  | none ↦ none
  | some macho ↦ elim (find_text binary.segments) [
    | none ↦ none
    | some text_seg ↦ elim macho.exports [
      | none ↦ find_legacy symbol macho.symbols
      | some exports ↦
          or_else (find_export text_seg.vmaddr symbol exports) (find_legacy symbol macho.symbols)
    ]
  ]
]

-- `dylib.rsplit('/').next()`: what is behind the last slash.
abbrev pub has_slash : Bytes → Bool
has_slash [] = false
has_slash (b ∷ bs) = (b == 47) || has_slash bs

abbrev pub short_name : Bytes → Bytes
short_name [] = []
short_name (b ∷ bs) = let rest = short_name bs in if (b == 47) || has_slash bs then rest else b ∷ bs

-- `str::ends_with`.
abbrev pub ends_with : Bytes → Bytes → Bool
ends_with [] suffix = [] == suffix
ends_with (b ∷ bs) suffix = (b ∷ bs == suffix) || ends_with bs suffix

abbrev pub starts_with : Bytes → Bytes → Bool
starts_with text prefix = elim (strip_prefix prefix text) [ none ↦ false | some rest ↦ true ]

abbrev pub in_registry : Map Bytes (Map Bytes ℕ) → Bytes → Bytes → Option ℕ
in_registry registry dylib symbol = elim (lookup registry dylib) [
  | none ↦ none
  | some symbols ↦ lookup symbols symbol
]

unfoldable pub by_short_name : Map Bytes (Map Bytes ℕ) → Bytes → Bytes → Option ℕ
by_short_name [] short symbol = none
by_short_name ((reg_name, symbols) ∷ registry) short symbol =
    or_else (if ends_with reg_name short then lookup symbols symbol else none)
      (by_short_name registry short symbol)

-- The class that a symbol names, if it names one.
unfoldable pub class_name : Bytes → Option Bytes
class_name symbol = elim (strip_prefix (codes "_OBJC_CLASS_$_") symbol) [
  | some name ↦ some name
  | none ↦ strip_prefix (codes "_OBJC_METACLASS_$_") symbol
]

module _ (read_symbols : Bytes → Option Symbols) where
  unfoldable pub in_library : Map Bytes MachOBinary → Bytes → Bytes → Option ℕ
  in_library libraries dylib symbol = elim (lookup libraries dylib) [
    | none ↦ none
    | some lib ↦ find_symbol_in_binary read_symbols lib symbol
  ]

  unfoldable pub in_libraries : Map Bytes MachOBinary → Bytes → Option ℕ
  in_libraries [] symbol = none
  in_libraries ((path, lib) ∷ libraries) symbol =
      or_else (find_symbol_in_binary read_symbols lib symbol) (in_libraries libraries symbol)

  -- Where the symbol is defined, without the classes that are made up.
  unfoldable pub defined : Linker → Bytes → Bytes → Option ℕ
  defined linker dylib symbol = or_else (in_registry linker.registry dylib symbol) (
      or_else (by_short_name linker.registry (short_name dylib) symbol) (
        or_else (in_library linker.loaded_libraries dylib symbol)
          (in_libraries linker.loaded_libraries symbol)))

module _ (dlsym : Bytes → ℕ) where
  -- The last resort: the Swift runtime in the process itself.
  unfoldable pub by_dlsym : Bytes → Option ℕ
  by_dlsym symbol =
      let clean : Bytes = elim (strip_prefix (codes "_") symbol) [
        | none ↦ symbol
        | some rest ↦ rest
      ] in
      if starts_with symbol (codes "_$s")
        || (starts_with symbol (codes "$s") || starts_with symbol (codes "_swift_"))
      then (if dlsym clean == 0 then none else some (dlsym clean))
      else none

  unfoldable pub after_classes : Bytes → Bool → Option ℕ
  after_classes symbol is_weak = or_else (by_dlsym symbol) (if is_weak then some 0 else none)

-- An error of `resolve` is always `Unresolved`: it is `none`.
module _ (read_symbols : Bytes → Option Symbols) (dlsym : Bytes → ℕ) where
  unfoldable pub resolve : Fresh → Linker → Bytes → Bytes → Bool → ObjcState → Option ℕ × ObjcState
  resolve fresh linker dylib symbol is_weak st = elim (defined read_symbols linker dylib symbol) [
    | some addr ↦ (some addr, st)
    | none ↦ elim (class_name symbol) [
      | none ↦ (after_classes dlsym symbol is_weak, st)
      | some name ↦
          let (cls, st') = auto_create_objc_class fresh name st in
          (if cls == 0 then after_classes dlsym symbol is_weak else some cls, st')
    ]
  ]

  -- An unresolved symbol is bound to a stub.
  unfoldable pub resolve_external : ℕ → Fresh → Linker → Bytes → Bytes → ObjcState → ℕ × ObjcState
  resolve_external stub fresh linker dylib symbol st =
      let (found, st') = resolve fresh linker dylib symbol false st in
      (elim found [ none ↦ stub | some addr ↦ addr ], st')
