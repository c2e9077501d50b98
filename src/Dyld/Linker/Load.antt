-- ===== src/Dyld/Linker/Load.antt =====
-- crates/grafted-dyld/src/linker.rs: `load_dependencies`, with `from_path` of
-- crates/grafted-loader/src/macho.rs. The operating system, goblin, the reading of files and Rust's
-- paths are parameters. The stack `to_load` is a list with its top first; fuel bounds the loop.
pub mod Asked
pub mod Measure
pub mod Handled
pub mod Steps
pub mod Closure
use grafted.Base.{
  ℕ, zero, suc, Bool, true, false, ◌||◌, List, [], ◌∷◌, Option, none, some, ◌==◌, nat_eq, list_eq,
  if◌then◌else◌, contains, Bytes,
}
use grafted.Base.Assoc.{Map, lookup, insert, is_some}
use grafted.Loader.Outcome.{Outcome, LoaderError, ok, err, panicked, io_error}
use grafted.Loader.Format.{MachOBinary, DylibDep, Goblin}
use grafted.Loader.Macho.{parse}
use grafted.Loader.Mapper.{Os, map_binary}
use grafted.Dyld.Resolver.{Paths, DylibResolver}
use grafted.Dyld.Linker.{Linker}

-- A library to load, the path of the file that asks for it, and the run paths of that file.
abbrev pub Pending : Type 0
Pending = Bytes × Bytes × List Bytes

-- What the loop has done: the names it is through with, and the libraries it loaded.
pub record Loading : Type 0 where
  pub loaded : List Bytes
  pub libraries : Map Bytes MachOBinary

abbrev pub push_deps : List DylibDep → Bytes → List Bytes → List Pending → List Pending
push_deps [] from rpaths to_load = to_load
push_deps (dep ∷ deps) from rpaths to_load =
    push_deps deps from rpaths ((DylibDep.dep_name dep, from, rpaths) ∷ to_load)

abbrev pub is_settled : Linker → Loading → Bytes → Bool
is_settled linker ld dylib =
    contains (Loading.loaded ld) dylib || is_some (lookup (Linker.registry linker) dylib)

abbrev pub finish : Bytes → Loading → Loading
finish dylib ld = record ld { loaded = dylib ∷ Loading.loaded ld }

-- A turn of the loop: it goes on, or it ends with an error or a panic.
pub data Turn (S : Type 0) : Type 0 where
  went_on : List Pending → Loading → S → Turn S
  stopped : Outcome (Unit {0}) → Loading → S → Turn S

module _ {S : Type 0} (os : Os S) (goblin : Goblin) (read : Bytes → Option Bytes)
    (paths : Paths) where
  unfoldable pub from_path : Bytes → Outcome MachOBinary
  from_path path = elim (read path) [
    | none ↦ err io_error
    | some data_bytes ↦ parse goblin path data_bytes
  ]

  unfoldable pub load_file : Bytes → Bytes → List Pending → Loading → S → Turn S
  load_file dylib linux_path rest ld s = elim (from_path linux_path) [
    | err e ↦ went_on rest (finish dylib ld) s
    | panicked ↦ stopped panicked ld s
    | ok lib_binary ↦
        let (mapped, s') = map_binary os lib_binary s in
        elim mapped [
          | err e ↦ stopped (err e) ld s'
          | panicked ↦ stopped panicked ld s'
          | ok (entry, slide) ↦
              went_on (push_deps lib_binary.dylib_deps linux_path lib_binary.rpaths rest)
                (record {
                  loaded = dylib ∷ Loading.loaded ld;
                  libraries =
                      insert (Loading.libraries ld) dylib (record lib_binary { slide = slide });
                })
                s'
        ]
  ]

  unfoldable pub load_one : Linker → Bytes → Pending → List Pending → Loading → S → Turn S
  load_one linker executable (dylib, loader, rpaths) rest ld s =
      if is_settled linker ld dylib
      then went_on rest ld s
      else elim (grafted.Dyld.Resolver.resolve paths linker.resolver dylib (some executable)
          (some loader) rpaths) [
            | none ↦ went_on rest (finish dylib ld) s
            | some linux_path ↦ load_file dylib linux_path rest ld s
          ]

  unfoldable pub load_loop :
      ℕ → Linker → Bytes → List Pending → Loading → S → Option (Outcome (Unit {0}) × (Loading × S))
  load_loop zero linker executable to_load ld s = none
  load_loop (suc fuel) linker executable [] ld s = some (ok tt, (ld, s))
  load_loop (suc fuel) linker executable (p ∷ rest) ld s =
      elim (load_one linker executable p rest ld s) [
        | went_on to_load ld' s' ↦ load_loop fuel linker executable to_load ld' s'
        | stopped outcome ld' s' ↦ some (outcome, (ld', s'))
      ]

  unfoldable pub load_dependencies :
      ℕ → Linker → MachOBinary → S → Option (Outcome (Unit {0}) × (Linker × S))
  load_dependencies fuel linker binary s =
      elim (load_loop fuel linker binary.path
        (push_deps binary.dylib_deps binary.path binary.rpaths [])
        (record { loaded = []; libraries = linker.loaded_libraries }) s) [
          | none ↦ none
          | some (outcome, (ld, s')) ↦
              some (outcome, (record linker { loaded_libraries = Loading.libraries ld }, s'))
        ]
