-- ===== src/Dyld/Linker/Load/Handled.antt =====
-- Names that the loading is done with, or that still wait on its stack.
use grafted.Base.{
  ◌≡◌, refl, Bool, true, false, ◌||◌, List, [], ◌∷◌, some, ◌==◌, nat_eq, list_eq, list_beq_iff,
  Bytes, arith, Bool-cases, inl, inr,
}
use mathlib.Core.Path.{subst}
use grafted.Base.Assoc.{lookup}
use grafted.Loader.Format.{MachOBinary, DylibDep}
use grafted.Dyld.Linker.{Linker}
use grafted.Dyld.Linker.Load.{Pending, Loading, push_deps, is_settled}

abbrev pub awaits : List Pending → Bytes → Bool
awaits [] d = false
awaits ((dylib, loader, rpaths) ∷ rest) d = (dylib == d) || awaits rest d

-- A name that is done with, or will be.
abbrev pub is_handled : Linker → List Pending → Loading → Bytes → Bool
is_handled linker to_load ld d = is_settled linker ld d || awaits to_load d

abbrev pub AreHandled : Linker → List Pending → Loading → List DylibDep → Type 0
AreHandled linker to_load ld [] = Unit {0}
AreHandled linker to_load ld (dep ∷ deps) =
    (is_handled linker to_load ld (DylibDep.dep_name dep) ≡ true)
    × AreHandled linker to_load ld deps

-- Every library that is loaded has only such dependencies.
abbrev pub IsClosed : Linker → List Pending → Loading → Type 0
IsClosed linker to_load ld =
    (name : Bytes) (lib : MachOBinary)
    → lookup (Loading.libraries ld) name ≡ some lib
    → AreHandled linker to_load ld lib.dylib_deps

-- Nothing that is handled is lost.
unfoldable pub Keeps : Linker → List Pending → Loading → List Pending → Loading → Type 0
Keeps linker to_load ld to_load' ld' =
    (d : Bytes) → is_handled linker to_load ld d ≡ true → is_handled linker to_load' ld' d ≡ true

pub AreHandled-kept :
    (linker : Linker) (to_load : List Pending) (ld : Loading) (to_load' : List Pending)
    (ld' : Loading) (deps : List DylibDep)
    → Keeps linker to_load ld to_load' ld'
    → AreHandled linker to_load ld deps
    → AreHandled linker to_load' ld' deps
unfolding Keeps
AreHandled-kept linker to_load ld to_load' ld' [] keeps h = tt
AreHandled-kept linker to_load ld to_load' ld' (dep ∷ deps) keeps (here, others) = (
  keeps (DylibDep.dep_name dep) here,
  AreHandled-kept linker to_load ld to_load' ld' deps keeps others,
)

pub awaits-push_deps :
    (deps : List DylibDep) (from : Bytes) (rpaths : List Bytes) (rest : List Pending) (d : Bytes)
    → awaits rest d ≡ true
    → awaits (push_deps deps from rpaths rest) d ≡ true
awaits-push_deps [] from rpaths rest d h = h
awaits-push_deps (dep ∷ deps) from rpaths rest d h =
    awaits-push_deps deps from rpaths ((DylibDep.dep_name dep, from, rpaths) ∷ rest) d
      (ground (arith, h))

pub push_deps-AreHandled :
    (linker : Linker) (deps : List DylibDep) (from : Bytes) (rpaths : List Bytes)
    (rest : List Pending) (ld : Loading)
    → AreHandled linker (push_deps deps from rpaths rest) ld deps
push_deps-AreHandled linker [] from rpaths rest ld = tt
push_deps-AreHandled linker (dep ∷ deps) from rpaths rest ld = (
  ground (
    arith,
    awaits-push_deps deps from rpaths ((DylibDep.dep_name dep, from, rpaths) ∷ rest)
        (DylibDep.dep_name dep)
        (rw ((list_beq_iff (DylibDep.dep_name dep) (DylibDep.dep_name dep)).1 refl) refl),
  ),
  push_deps-AreHandled linker deps from rpaths ((DylibDep.dep_name dep, from, rpaths) ∷ rest) ld,
)

-- Taking a name off the stack that is settled then.
pub popped :
    (linker : Linker) (dylib loader : Bytes) (rpaths : List Bytes) (rest to_load' : List Pending)
    (ld ld' : Loading)
    → ((d : Bytes) → is_settled linker ld d ≡ true → is_settled linker ld' d ≡ true)
    → ((d : Bytes) → awaits rest d ≡ true → awaits to_load' d ≡ true)
    → is_settled linker ld' dylib ≡ true
    → Keeps linker ((dylib, loader, rpaths) ∷ rest) ld to_load' ld'
unfolding Keeps
popped linker dylib loader rpaths rest to_load' ld ld' more waits done d h =
    elim (Bool-cases (is_settled linker ld d)) [
      | inl settled ↦ rw (more d settled) refl
      | inr open_yet ↦ elim (Bool-cases (dylib == d)) [
        | inl here ↦
            rw
              (subst (λ (x : Bytes). is_settled linker ld' x ≡ true) ((list_beq_iff dylib d).0 here)
                done)
              refl
        | inr there ↦
            let waiting : awaits rest d ≡ true = ground (arith, h, open_yet, there) in
            ground (arith, waits d waiting)
      ]
    ]
