-- ===== src/Dyld/Linker/Load/Asked.antt =====
-- Who asks for a library: the binary, and the libraries that are found for what is asked for.
use grafted.Base.{
  ◌≡◌, Bool, true, false, ◌||◌, List, [], ◌∷◌, Option, some, ◌==◌, nat_eq, list_eq, list_beq_iff,
  Bytes, arith,
}
use grafted.Loader.Outcome.{ok}
use grafted.Loader.Format.{MachOBinary, DylibDep, Goblin}
use grafted.Loader.Mapper.{Os}
use grafted.Dyld.Resolver.{Paths}
use grafted.Dyld.Linker.{Linker}
use grafted.Dyld.Linker.Load.{Pending, push_deps, from_path}

-- A name among the dependencies.
abbrev pub depends : List DylibDep → Bytes → Bool
depends [] name = false
depends (dep ∷ deps) name = (DylibDep.dep_name dep == name) || depends deps name

module _ {S : Type 0} (os : Os S) (goblin : Goblin) (read : Bytes → Option Bytes) (paths : Paths)
    (linker : Linker) (binary : MachOBinary) where
  -- A name that a file at a path asks for, and the run paths of this file. The file is the binary, or
  -- one that is found, by the run paths of a file that asks for it, and read.
  pub data IsAsked : Bytes → Bytes → List Bytes → Type 0 where
    by_binary :
        {d : Bytes} → depends binary.dylib_deps d ≡ true → IsAsked d binary.path binary.rpaths
    by_library :
        {name loader file d : Bytes} {rpaths : List Bytes} {lib : MachOBinary}
        → IsAsked name loader rpaths
        → grafted.Dyld.Resolver.resolve paths linker.resolver name
            (some binary.path)
            (some loader)
            rpaths
          ≡ some file
        → from_path os goblin read paths file ≡ ok lib
        → depends lib.dylib_deps d ≡ true
        → IsAsked d file lib.rpaths

  abbrev pub AreAsked : List Pending → Type 0
  AreAsked [] = Unit {0}
  AreAsked ((d, loader, rpaths) ∷ rest) = IsAsked d loader rpaths × AreAsked rest

  pub push_deps-AreAsked :
      (deps : List DylibDep) (from : Bytes) (rpaths : List Bytes) (rest : List Pending)
      → ((d : Bytes) → depends deps d ≡ true → IsAsked d from rpaths)
      → AreAsked rest
      → AreAsked (push_deps deps from rpaths rest)
  push_deps-AreAsked [] from rpaths rest asks asked = asked
  push_deps-AreAsked (dep ∷ deps) from rpaths rest asks asked =
      let name = DylibDep.dep_name dep in
      push_deps-AreAsked deps from rpaths ((name, from, rpaths) ∷ rest)
        (λ d h. asks d (ground (arith, h)))
        (asks name (ground (arith, list_beq_iff name name)), asked)
