-- ===== src/Dyld/Linker/Load/Measure.antt =====
-- The loading ends: each turn takes a library from the stack, and only a new one brings others.
use grafted.Base.{
  ℕ, zero, suc, ◌+◌, ◌*◌, ◌≤◌, ◌<◌, ◌≡◌, ◌≢◌, refl, sym, ap, true, false, List, [], ◌∷◌, Option,
  none, some, ◌==◌, nat_eq, list_eq, list_beq_iff, if◌then◌else◌, contains, length, Bytes, arith,
  Bool-cases, Option-cases, inl, inr,
}
use mathlib.Core.Path.{subst}
use native.Mathlib.Nat.{mul-le-mul_right}
use grafted.Loader.Outcome.{ok, Outcome-cases}
use grafted.Loader.Format.{MachOBinary, DylibDep, Goblin}
use grafted.Loader.Mapper.{Os, map_binary}
use grafted.Dyld.Resolver.{Paths, DylibResolver}
use grafted.Dyld.Linker.{Linker}
use grafted.Dyld.Linker.Load.{
  Pending, Loading, Turn, went_on, stopped, push_deps, is_settled, from_path, load_file, load_one,
  load_loop, load_dependencies,
}

-- How many of the names are still to be loaded.
abbrev pub unloaded : List Bytes → List Bytes → ℕ
unloaded [] loaded = 0
unloaded (n ∷ ns) loaded = (if contains loaded n then 0 else 1) + unloaded ns loaded

unloaded_le : (ns loaded : List Bytes) (d : Bytes) → unloaded ns (d ∷ loaded) ≤ unloaded ns loaded
unloaded_le [] loaded d = omega arith
unloaded_le (n ∷ ns) loaded d = ground (arith, unloaded_le ns loaded d)

unloaded_lt :
    (ns loaded : List Bytes) (d : Bytes)
    → contains ns d ≡ true
    → contains loaded d ≡ false
    → unloaded ns (d ∷ loaded) + 1 ≤ unloaded ns loaded
unloaded_lt [] loaded d among new = absurd cc
unloaded_lt (n ∷ ns) loaded d among new = elim (Bool-cases (n == d)) [
  | inl here ↦
      let same : n ≡ d = (list_beq_iff n d).0 here in
      let fresh : contains loaded n ≡ false =
        subst (λ (x : Bytes). contains loaded x ≡ false) (sym same) new in
      let back : (d == n) ≡ true = (list_beq_iff d n).1 (sym same) in
      ground (arith, unloaded_le ns loaded d, fresh, back)
  | inr there ↦ ground (arith, unloaded_lt ns loaded d (ground arith) new)
]

distribute : (a m : ℕ) → (a + 1) * m ≡ a * m + m
distribute a m = omega arith

-- The names of dependencies, and of what is on the stack, are among the names.
abbrev pub AreNamed : List Bytes → List DylibDep → Type 0
AreNamed names [] = Unit {0}
AreNamed names (dep ∷ deps) = (contains names (DylibDep.dep_name dep) ≡ true) × AreNamed names deps

abbrev pub AreAmong : List Bytes → List Pending → Type 0
AreAmong names [] = Unit {0}
AreAmong names ((dylib, loader, rpaths) ∷ rest) =
    (contains names dylib ≡ true) × AreAmong names rest

push_deps-AreAmong :
    (names : List Bytes) (deps : List DylibDep) (from : Bytes) (rpaths : List Bytes)
    (rest : List Pending)
    → AreNamed names deps
    → AreAmong names rest
    → AreAmong names (push_deps deps from rpaths rest)
push_deps-AreAmong names [] from rpaths rest named among = among
push_deps-AreAmong names (dep ∷ deps) from rpaths rest (here, named) among =
    push_deps-AreAmong names deps from rpaths ((DylibDep.dep_name dep, from, rpaths) ∷ rest) named
      (here, among)

length-push_deps :
    (deps : List DylibDep) (from : Bytes) (rpaths : List Bytes) (rest : List Pending)
    → length (push_deps deps from rpaths rest) ≡ length deps + length rest
length-push_deps [] from rpaths rest = omega arith
length-push_deps (dep ∷ deps) from rpaths rest =
    omega (arith, length-push_deps deps from rpaths ((DylibDep.dep_name dep, from, rpaths) ∷ rest))

module _ {S : Type 0} (os : Os S) (goblin : Goblin) (read : Bytes → Option Bytes) (paths : Paths)
    (names : List Bytes) (most : ℕ) where
  -- Every library that can be read depends on a few of the names.
  abbrev pub IsFinite : Type 0
  IsFinite =
      (path : Bytes) (lib : MachOBinary)
      → from_path os goblin read paths path ≡ ok lib
      → (length lib.dylib_deps ≤ most) × AreNamed names lib.dylib_deps

  -- The turns that are left, at most.
  abbrev pub turns : List Pending → Loading → ℕ
  turns to_load ld = length to_load + unloaded names (Loading.loaded ld) * most

  IsProgress : List Pending → Loading → Turn S → Type 0
  IsProgress rest ld (went_on to_load ld' s) =
      AreAmong names to_load × (turns to_load ld' ≤ turns rest ld)
  IsProgress rest ld (stopped outcome ld' s) = Unit {0}

  fewer :
      (ld : Loading) (d : Bytes)
      → contains names d ≡ true
      → contains (Loading.loaded ld) d ≡ false
      → unloaded names (d ∷ Loading.loaded ld) * most + most
        ≤ unloaded names (Loading.loaded ld) * most
  fewer ld d among new = omega (
    arith,
    mul-le-mul_right most (unloaded_lt names (Loading.loaded ld) d among new),
    distribute (unloaded names (d ∷ Loading.loaded ld)) most,
  )

  load_file-IsProgress :
      (dylib linux_path : Bytes) (rest : List Pending) (ld : Loading) (s : S)
      → IsFinite
      → contains names dylib ≡ true
      → contains (Loading.loaded ld) dylib ≡ false
      → AreAmong names rest
      → IsProgress rest ld (load_file os goblin read paths dylib linux_path rest ld s)
  unfolding load_file IsProgress
  load_file-IsProgress dylib linux_path rest ld s finite among new others =
      elim (Outcome-cases (from_path os goblin read paths linux_path)) [
        | inl (lib, opened) ↦ elim (Outcome-cases ((map_binary os lib s).0)) [
          | inl (ends, mapped) ↦
              rw (opened, mapped, load_file)
                (let (few, named) = finite linux_path lib opened in
                  (
                    push_deps-AreAmong names lib.dylib_deps linux_path lib.rpaths rest named others,
                    omega (
                      arith,
                      length-push_deps lib.dylib_deps linux_path lib.rpaths rest,
                      fewer ld dylib among new,
                    ),
                  ))
          | inr (inl (e, fails)) ↦ rw (opened, fails, load_file) tt
          | inr (inr fails) ↦ rw (opened, fails, load_file) tt
        ]
        | inr (inl (e, fails)) ↦
            rw (fails, load_file) (others, omega (arith, fewer ld dylib among new))
        | inr (inr fails) ↦ rw (fails, load_file) tt
      ]

  load_one-IsProgress :
      (linker : Linker) (executable : Bytes) (p : Pending) (rest : List Pending) (ld : Loading)
      (s : S)
      → IsFinite
      → AreAmong names (p ∷ rest)
      → IsProgress rest ld (load_one os goblin read paths linker executable p rest ld s)
  unfolding load_one IsProgress
  load_one-IsProgress linker executable (dylib, loader, rpaths) rest ld s finite (among, others) =
      elim (Bool-cases (is_settled linker ld dylib)) [
        | inl settled ↦ rw (settled, load_one) (others, omega arith)
        | inr fresh ↦
            let new : contains (Loading.loaded ld) dylib ≡ false = ground (arith, fresh) in
            elim (Option-cases (
              grafted.Dyld.Resolver.resolve paths linker.resolver dylib (some executable)
                (some loader) rpaths)) [
                  | inl missing ↦
                      rw (fresh, missing, load_one)
                        (others, omega (arith, fewer ld dylib among new))
                  | inr (linux_path, resolved) ↦
                      rw (fresh, resolved, load_one)
                        (load_file-IsProgress dylib linux_path rest ld s finite among new others)
                ]
      ]

  -- A turn, which ends or leaves fewer.
  loop_ends :
      (fuel : ℕ) (linker : Linker) (executable : Bytes) (to_load : List Pending) (ld : Loading)
      (s : S)
      → IsFinite
      → AreAmong names to_load
      → turns to_load ld < fuel
      → load_loop os goblin read paths fuel linker executable to_load ld s ≢ none
  unfolding load_loop IsProgress
  loop_ends zero linker executable to_load ld s finite among enough = absurd (omega arith)
  loop_ends (suc fuel) linker executable [] ld s finite among enough = λ h. cc
  loop_ends (suc fuel) linker executable (p ∷ rest) ld s finite among enough =
      go (load_one os goblin read paths linker executable p rest ld s)
        (load_one-IsProgress linker executable p rest ld s finite among)
        (λ to_load ld' s' fine few.
          loop_ends fuel linker executable to_load ld' s' finite fine (omega arith))
        refl
    where
      go :
          (turn : Turn S)
          → IsProgress rest ld turn
          → ((to_load : List Pending) (ld' : Loading) (s' : S)
              → AreAmong names to_load
              → turns to_load ld' ≤ turns rest ld
              → load_loop os goblin read paths fuel linker executable to_load ld' s' ≢ none)
          → load_one os goblin read paths linker executable p rest ld s ≡ turn
          → load_loop os goblin read paths (suc fuel) linker executable (p ∷ rest) ld s ≢ none
      go (went_on to_load ld' s') (fine, few) next e =
          rw (e, load_loop) (next to_load ld' s' fine few)
      go (stopped outcome ld' s') progress next e = rw (e, load_loop) (λ h. cc)

unloaded_none : (names : List Bytes) → unloaded names [] ≡ length names
unloaded_none [] = refl
unloaded_none (n ∷ ns) = omega (arith, unloaded_none ns)

-- The loading of dependencies ends. Where every file that can be read has at most `most`
-- dependencies, and all of them among some names, the loop takes no more turns than the binary has
-- dependencies, and `most` for each of the names; with fuel for these it returns, even if the
-- dependencies are cyclic.
pub load_dependencies_ends :
    {S : Type 0} (os : Os S) (goblin : Goblin) (read : Bytes → Option Bytes) (paths : Paths)
    (names : List Bytes) (most fuel : ℕ) (linker : Linker) (binary : MachOBinary) (s : S)
    → IsFinite os goblin read paths names most
    → AreNamed names binary.dylib_deps
    → length binary.dylib_deps + length names * most < fuel
    → load_dependencies os goblin read paths fuel linker binary s ≢ none
unfolding load_dependencies
load_dependencies_ends os goblin read paths names most fuel linker binary s finite named enough =
    let start : Loading = record { loaded = []; libraries = linker.loaded_libraries } in
    let to_load = push_deps binary.dylib_deps binary.path binary.rpaths [] in
    let few : turns os goblin read paths names most to_load start < fuel = omega (
      arith,
      length-push_deps binary.dylib_deps binary.path binary.rpaths [],
      ap (λ (u : ℕ). u * most) (unloaded_none names),
    ) in
    let returns =
      loop_ends os goblin read paths names most fuel linker binary.path to_load start s finite
        (push_deps-AreAmong names binary.dylib_deps binary.path binary.rpaths [] named tt) few in
    elim (Option-cases (load_loop os goblin read paths fuel linker binary.path to_load start s)) [
      | inl none_left ↦ absurd (returns none_left)
      | inr ((outcome, (ld, s')), ends) ↦ rw (ends, load_dependencies) (λ h. cc)
    ]
