-- ===== src/Dyld/Linker/Load/Closure.antt =====
-- What is loaded is closed: no dependency of what was loaded is forgotten.
use grafted.Base.{
  ℕ, ◌≡◌, ◌≢◌, refl, sym, ◌∙◌, ap, true, List, [], ◌∷◌, Option, none, some, ◌==◌, nat_eq, list_eq,
  list_beq_iff, contains, Bytes, arith, Bool-cases, Option-cases, inl, inr, ◌⊎◌,
}
use mathlib.Core.Path.{subst}
use grafted.Base.Assoc.{Map, lookup, is_some}
use grafted.Loader.Outcome.{Outcome, ok}
use grafted.Loader.Format.{MachOBinary, DylibDep, Goblin}
use grafted.Loader.Mapper.{Os}
use grafted.Dyld.Resolver.{Paths}
use grafted.Dyld.Linker.{Linker}
use grafted.Dyld.Linker.Load.{Pending, Loading, push_deps, load_loop, load_dependencies}
use grafted.Dyld.Linker.Load.Asked.{depends, by_binary, push_deps-AreAsked}
use grafted.Dyld.Linker.Load.Handled.{
  is_handled, AreHandled, IsClosed, Keeps, AreHandled-kept, push_deps-AreHandled,
}
use grafted.Dyld.Linker.Load.Steps.{IsMissing, IsFair, loop_closes}

handled_dep :
    (linker : Linker) (to_load : List Pending) (ld : Loading) (deps : List DylibDep) (name : Bytes)
    → AreHandled linker to_load ld deps
    → depends deps name ≡ true
    → is_handled linker to_load ld name ≡ true
handled_dep linker to_load ld [] name handled h = absurd cc
handled_dep linker to_load ld (dep ∷ deps) name (here, others) h =
    elim (Bool-cases (DylibDep.dep_name dep == name)) [
      | inl same ↦
          subst (λ (x : Bytes). is_handled linker to_load ld x ≡ true)
            ((list_beq_iff (DylibDep.dep_name dep) name).0 same) here
      | inr other ↦ handled_dep linker to_load ld deps name others (ground (arith, h, other))
    ]

nothing : (path : Bytes) (lib : MachOBinary) → lookup [] path ≢ some lib
unfolding lookup
nothing path lib h = cc

-- When the loading of dependencies succeeds, where no library was loaded before, each dependency of
-- the binary, and of every library that was loaded, is a library of the registry, or was loaded, or
-- is missing: a file asks for it, the binary or one that was found and read for what another file
-- asks for, and with the run paths of this file none is found for it, or one that is not read.
pub load_dependencies_closed :
    {S : Type 0} (os : Os S) (goblin : Goblin) (read : Bytes → Option Bytes) (paths : Paths)
    (fuel : ℕ) (linker linker' : Linker) (binary : MachOBinary) (s s' : S) (deps : List DylibDep)
    (name : Bytes)
    → linker.loaded_libraries ≡ []
    → load_dependencies os goblin read paths fuel linker binary s ≡ some (ok tt, (linker', s'))
    → (deps ≡ binary.dylib_deps)
      ⊎ ((path : Bytes) × (lib : MachOBinary) × (lookup (Linker.loaded_libraries linker') path
            ≡ some lib)
          × (deps ≡ lib.dylib_deps))
    → depends deps name ≡ true
    → (is_some (lookup linker.registry name) ≡ true)
      ⊎ ((is_some (lookup (Linker.loaded_libraries linker') name) ≡ true)
          ⊎ IsMissing os goblin read paths linker binary name)
unfolding load_dependencies Keeps
load_dependencies_closed os goblin read paths fuel linker linker' binary s s' deps name empty e
      whose among =
    elim (Option-cases (load_loop os goblin read paths fuel linker binary.path to_load start s)) [
      | inl out_of_fuel ↦
          let q : none ≡ some (ok tt, (linker', s')) =
            sym (rw (out_of_fuel, load_dependencies) refl) ∙ e in
          absurd cc
      | inr ((outcome, (ld, s1)), ends) ↦
          let q : some (outcome, (record linker { loaded_libraries = Loading.libraries ld }, s1))
              ≡ some (ok tt, (linker', s')) =
            sym (rw (ends, load_dependencies) refl) ∙ e in
          let okay : outcome ≡ ok tt = cc in
          let here : record linker { loaded_libraries = Loading.libraries ld } ≡ linker' = cc in
          let same : Loading.libraries ld ≡ Linker.loaded_libraries linker' =
            ap (λ (l : Linker). Linker.loaded_libraries l) here in
          subst
            (λ (m : Map Bytes MachOBinary).
              (is_some (lookup linker.registry name) ≡ true)
              ⊎ ((is_some (lookup m name) ≡ true)
                  ⊎ IsMissing os goblin read paths linker binary name))
            same
            (settled_in ld
              (loop_closes os goblin read paths linker binary fuel to_load start ld s s1
                (ends ∙ ap (λ (o : Outcome (Unit {0})). some (o, (ld, s1))) okay))
              same)
    ]
  where
    start : Loading
    start = record { loaded = []; libraries = linker.loaded_libraries }

    to_load : List Pending
    to_load = push_deps binary.dylib_deps binary.path binary.rpaths []

    settled_in :
        (ld : Loading)
        → Keeps linker to_load start [] ld
          × (IsClosed linker to_load start → IsClosed linker [] ld)
          × (IsFair os goblin read paths linker binary to_load start
              → IsFair os goblin read paths linker binary [] ld)
        → Loading.libraries ld ≡ Linker.loaded_libraries linker'
        → (is_some (lookup linker.registry name) ≡ true)
          ⊎ ((is_some (lookup (Loading.libraries ld) name) ≡ true)
              ⊎ IsMissing os goblin read paths linker binary name)
    settled_in ld (keeps, closes, justifies) same =
        let closed_start : IsClosed linker to_load start = λ path lib found. absurd (
          nothing path lib
            (subst (λ (m : Map Bytes MachOBinary). lookup m path ≡ some lib) empty found)) in
        let handled : AreHandled linker [] ld deps = elim whose [
          | inl main ↦ subst (AreHandled linker [] ld) (sym main) (
              AreHandled-kept linker to_load start [] ld binary.dylib_deps keeps
                (push_deps-AreHandled linker binary.dylib_deps binary.path binary.rpaths [] start))
          | inr (path, lib, found, theirs) ↦ subst (AreHandled linker [] ld) (sym theirs) (
              closes closed_start path lib
                (subst (λ (m : Map Bytes MachOBinary). lookup m path ≡ some lib) (sym same) found))
        ] in
        let done = handled_dep linker [] ld deps name handled among in
        elim (Bool-cases (contains (Loading.loaded ld) name)) [
          | inl through ↦ inr (
              (justifies (
                push_deps-AreAsked os goblin read paths linker binary binary.dylib_deps binary.path
                    binary.rpaths [] (λ d h. by_binary h) tt,
                λ d h. absurd cc,
              )).1
                name through)
          | inr not_yet ↦ inl (ground (arith, done, not_yet))
        ]
