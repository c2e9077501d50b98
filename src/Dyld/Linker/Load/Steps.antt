-- ===== src/Dyld/Linker/Load/Steps.antt =====
-- A turn of the loading loses no name.
use grafted.Base.{
  ℕ, zero, suc, ◌≡◌, ◌≢◌, refl, sym, ◌∙◌, true, List, [], ◌∷◌, Option, none, some, ◌==◌, nat_eq,
  list_eq, list_beq_iff, contains, Bytes, arith, Bool-cases, Option-cases, inl, inr, ◌⊎◌,
}
use mathlib.Core.Path.{subst}
use grafted.Base.Assoc.{Map, lookup, insert, is_some, lookup-insert_self, lookup-insert_ne}
use grafted.Loader.Outcome.{LoaderError, ok, err, Outcome-cases}
use grafted.Loader.Format.{MachOBinary, Goblin}
use grafted.Loader.Mapper.{Os, map_binary}
use grafted.Dyld.Resolver.{Paths, DylibResolver}
use grafted.Dyld.Linker.{Linker}
use grafted.Dyld.Linker.Load.{
  Pending, Loading, Turn, went_on, stopped, push_deps, is_settled, finish, from_path, load_file,
  load_one, load_loop,
}
use grafted.Dyld.Linker.Load.Asked.{depends, IsAsked, by_library, AreAsked, push_deps-AreAsked}
use grafted.Dyld.Linker.Load.Handled.{
  is_handled, AreHandled, IsClosed, Keeps, AreHandled-kept, awaits-push_deps, push_deps-AreHandled,
  popped,
}

module _ {S : Type 0} (os : Os S) (goblin : Goblin) (read : Bytes → Option Bytes) (paths : Paths)
    (linker : Linker) (binary : MachOBinary) where
  -- Some file asks for the name, and by the run paths of that file none is found for it, or one that
  -- cannot be read.
  abbrev pub IsMissing : Bytes → Type 0
  IsMissing d =
      (loader : Bytes) × (rpaths : List Bytes) × IsAsked os goblin read paths linker binary d loader
        rpaths
      × ((grafted.Dyld.Resolver.resolve paths linker.resolver d (some binary.path) (some loader)
              rpaths
            ≡ none)
          ⊎ ((file : Bytes) × (e : LoaderError) × (grafted.Dyld.Resolver.resolve paths
                  linker.resolver d (some binary.path) (some loader) rpaths
                ≡ some file)
              × (from_path os goblin read paths file ≡ err e)))

  -- A name that the loop is through with is loaded or missing.
  abbrev pub IsJustified : Loading → Type 0
  IsJustified ld =
      (d : Bytes)
      → contains (Loading.loaded ld) d ≡ true
      → (is_some (lookup (Loading.libraries ld) d) ≡ true) ⊎ IsMissing d

  -- Besides, what waits on the stack is asked for.
  abbrev pub IsFair : List Pending → Loading → Type 0
  IsFair to_load ld = AreAsked os goblin read paths linker binary to_load × IsJustified ld

  -- A turn loses nothing and keeps what is loaded closed; it is stopped by an error or a panic.
  IsStep : List Pending → Loading → Turn S → Type 0
  IsStep before ld (went_on to_load ld' s) =
      Keeps linker before ld to_load ld'
      × (IsClosed linker before ld → IsClosed linker to_load ld')
      × (IsFair before ld → IsFair to_load ld')
  IsStep before ld (stopped outcome ld' s) = outcome ≢ ok tt

  -- The libraries stay.
  same_libraries :
      (before to_load : List Pending) (ld ld' : Loading) (s : S)
      → Loading.libraries ld' ≡ Loading.libraries ld
      → (IsFair before ld → IsFair to_load ld')
      → Keeps linker before ld to_load ld'
      → IsStep before ld (went_on to_load ld' s)
  unfolding IsStep
  same_libraries before to_load ld ld' s same justified keeps = (
    keeps,
    (λ closed name lib e.
        AreHandled-kept linker before ld to_load ld' lib.dylib_deps keeps (
          closed name lib
            (subst (λ (m : Map Bytes MachOBinary). lookup m name ≡ some lib) same e))),
    justified,
  )

  settled_more :
      (ld ld' : Loading) (dylib : Bytes)
      → Loading.loaded ld' ≡ dylib ∷ Loading.loaded ld
      → (d : Bytes) → is_settled linker ld d ≡ true
      → is_settled linker ld' d ≡ true
  settled_more ld ld' dylib e d h = rw e (ground (arith, h))

  settled_now :
      (ld ld' : Loading) (dylib : Bytes)
      → Loading.loaded ld' ≡ dylib ∷ Loading.loaded ld
      → is_settled linker ld' dylib ≡ true
  settled_now ld ld' dylib e = rw (e, (list_beq_iff dylib dylib).1 refl) refl

  finish-IsJustified :
      (ld : Loading) (dylib : Bytes)
      → IsMissing dylib
      → IsJustified ld
      → IsJustified (finish dylib ld)
  finish-IsJustified ld dylib missing old d h = elim (Bool-cases (dylib == d)) [
    | inl here ↦ inr (subst IsMissing ((list_beq_iff dylib d).0 here) missing)
    | inr there ↦ old d (ground (arith, h, there))
  ]

  -- A new library brings its dependencies.
  new_library :
      (dylib loader linux_path : Bytes) (rpaths lib_rpaths : List Bytes) (rest : List Pending)
      (ld : Loading) (lib : MachOBinary) (s : S)
      → (IsAsked os goblin read paths linker binary dylib loader rpaths
          → (d : Bytes) → depends lib.dylib_deps d ≡ true
          → IsAsked os goblin read paths linker binary d linux_path lib_rpaths)
      → IsStep ((dylib, loader, rpaths) ∷ rest) ld (
          went_on
            (push_deps lib.dylib_deps linux_path lib_rpaths rest)
            (record {
              loaded = dylib ∷ Loading.loaded ld;
              libraries = insert (Loading.libraries ld) dylib lib;
            })
            s)
  unfolding IsStep
  new_library dylib loader linux_path rpaths lib_rpaths rest ld lib s asks = (keeps, closed, fair)
    where
      before : List Pending
      before = (dylib, loader, rpaths) ∷ rest

      to_load : List Pending
      to_load = push_deps lib.dylib_deps linux_path lib_rpaths rest

      ld' : Loading
      ld' = record {
        loaded = dylib ∷ Loading.loaded ld;
        libraries = insert (Loading.libraries ld) dylib lib;
      }

      keeps : Keeps linker before ld to_load ld'
      keeps =
          popped linker dylib loader rpaths rest to_load ld ld' (settled_more ld ld' dylib refl)
            (λ d h. awaits-push_deps lib.dylib_deps linux_path lib_rpaths rest d h)
            (settled_now ld ld' dylib refl)

      closed : IsClosed linker before ld → IsClosed linker to_load ld'
      closed old name other e = elim (Bool-cases (dylib == name)) [
        | inl here ↦
            let same : some lib ≡ some other =
              sym (lookup-insert_self (Loading.libraries ld) dylib lib)
              ∙ subst
                  (λ (x : Bytes). lookup (insert (Loading.libraries ld) dylib lib) x ≡ some other)
                  (sym ((list_beq_iff dylib name).0 here)) e in
            let equal : lib ≡ other = cc in
            subst (λ (x : MachOBinary). AreHandled linker to_load ld' x.dylib_deps) equal
              (push_deps-AreHandled linker lib.dylib_deps linux_path lib_rpaths rest ld')
        | inr there ↦ AreHandled-kept linker before ld to_load ld' other.dylib_deps keeps (
            old name other (
              sym (
                lookup-insert_ne (Loading.libraries ld) dylib name lib
                  (λ z. ground (arith, there, (list_beq_iff dylib name).1 z)))
              ∙ e))
      ]

      justified : IsJustified ld → IsJustified ld'
      justified old d h = elim (Bool-cases (dylib == d)) [
        | inl here ↦ inl (
            rw
              (
                sym ((list_beq_iff dylib d).0 here),
                lookup-insert_self (Loading.libraries ld) dylib lib,
              )
              refl)
        | inr there ↦ elim (old d (ground (arith, h, there))) [
          | inl has ↦ inl (
              rw
                (lookup-insert_ne (Loading.libraries ld) dylib d lib
                  (λ z. ground (arith, there, (list_beq_iff dylib d).1 z)))
                has)
          | inr missing ↦ inr missing
        ]
      ]

      fair : IsFair before ld → IsFair to_load ld'
      fair ((here, others), old) = (
        push_deps-AreAsked os goblin read paths linker binary lib.dylib_deps linux_path lib_rpaths
            rest (asks here) others,
        justified old,
      )

  load_file-IsStep :
      (dylib loader linux_path : Bytes) (rpaths : List Bytes) (rest : List Pending) (ld : Loading)
      (s : S)
      → grafted.Dyld.Resolver.resolve paths linker.resolver dylib
          (some binary.path)
          (some loader)
          rpaths
        ≡ some linux_path
      → IsStep
          ((dylib, loader, rpaths) ∷ rest)
          ld
          (load_file os goblin read paths dylib linux_path rest ld s)
  unfolding load_file IsStep
  load_file-IsStep dylib loader linux_path rpaths rest ld s resolved =
      elim (Outcome-cases (from_path os goblin read paths linux_path)) [
        | inl (lib, opened) ↦ elim (Outcome-cases ((map_binary os lib s).0)) [
          | inl (ends, mapped) ↦
              rw (opened, mapped, load_file)
                (new_library dylib loader linux_path rpaths lib.rpaths rest ld
                  (record lib { slide = ends.1 }) ((map_binary os lib s).1)
                  (λ asked d h. by_library asked resolved opened h))
          | inr (inl (e, fails)) ↦ rw (opened, fails, load_file) (λ h. cc)
          | inr (inr fails) ↦ rw (opened, fails, load_file) (λ h. cc)
        ]
        | inr (inl (e, fails)) ↦
            rw (fails, load_file)
              (same_libraries ((dylib, loader, rpaths) ∷ rest) rest ld (finish dylib ld) s refl
                (λ ((asked, others), old). (
                  others,
                  finish-IsJustified ld dylib
                      (loader, rpaths, asked, inr (linux_path, e, resolved, fails)) old,
                ))
                (popped linker dylib loader rpaths rest rest ld (finish dylib ld)
                  (settled_more ld (finish dylib ld) dylib refl) (λ d h. h)
                  (settled_now ld (finish dylib ld) dylib refl)))
        | inr (inr fails) ↦ rw (fails, load_file) (λ h. cc)
      ]

  load_one-IsStep :
      (p : Pending) (rest : List Pending) (ld : Loading) (s : S)
      → IsStep (p ∷ rest) ld (load_one os goblin read paths linker binary.path p rest ld s)
  unfolding load_one IsStep
  load_one-IsStep (dylib, loader, rpaths) rest ld s =
      elim (Bool-cases (is_settled linker ld dylib)) [
        | inl settled ↦
            rw (settled, load_one)
              (same_libraries ((dylib, loader, rpaths) ∷ rest) rest ld ld s refl
                (λ ((asked, others), old). (others, old))
                (popped linker dylib loader rpaths rest rest ld ld (λ d h. h) (λ d h. h) settled))
        | inr fresh ↦
            elim (Option-cases (
              grafted.Dyld.Resolver.resolve paths linker.resolver dylib (some binary.path)
                (some loader) rpaths)) [
                  | inl missing ↦
                      rw (fresh, missing, load_one)
                        (same_libraries ((dylib, loader, rpaths) ∷ rest) rest ld (finish dylib ld) s
                          refl
                          (λ ((asked, others), old). (
                            others,
                            finish-IsJustified ld dylib (loader, rpaths, asked, inl missing) old,
                          ))
                          (popped linker dylib loader rpaths rest rest ld (finish dylib ld)
                            (settled_more ld (finish dylib ld) dylib refl) (λ d h. h)
                            (settled_now ld (finish dylib ld) dylib refl)))
                  | inr (linux_path, resolved) ↦
                      rw (fresh, resolved, load_one)
                        (load_file-IsStep dylib loader linux_path rpaths rest ld s resolved)
                ]
      ]

  -- From the stack to the end of the loop.
  pub loop_closes :
      (fuel : ℕ) (to_load : List Pending) (ld ld' : Loading) (s s' : S)
      → load_loop os goblin read paths fuel linker binary.path to_load ld s
        ≡ some (ok tt, (ld', s'))
      → Keeps linker to_load ld [] ld'
        × (IsClosed linker to_load ld → IsClosed linker [] ld')
        × (IsFair to_load ld → IsFair [] ld')
  unfolding load_loop IsStep Keeps
  loop_closes zero to_load ld ld' s s' e = absurd cc
  loop_closes (suc fuel) [] ld ld' s s' e =
      let same : ld ≡ ld' = cc in
      (
        (λ d h. subst (λ (x : Loading). is_handled linker [] x d ≡ true) same h),
        (λ closed. subst (IsClosed linker []) same closed),
        λ (asked, old). (asked, subst IsJustified same old),
      )
  loop_closes (suc fuel) (p ∷ rest) ld ld' s s' e =
      go (load_one os goblin read paths linker binary.path p rest ld s)
        (load_one-IsStep p rest ld s) (λ to_load ld1 s1 h. loop_closes fuel to_load ld1 ld' s1 s' h)
        refl
    where
      go :
          (turn : Turn S)
          → IsStep (p ∷ rest) ld turn
          → ((to_load : List Pending) (ld1 : Loading) (s1 : S)
              → load_loop os goblin read paths fuel linker binary.path to_load ld1 s1
                ≡ some (ok tt, (ld', s'))
              → Keeps linker to_load ld1 [] ld'
                × (IsClosed linker to_load ld1 → IsClosed linker [] ld')
                × (IsFair to_load ld1 → IsFair [] ld'))
          → load_one os goblin read paths linker binary.path p rest ld s ≡ turn
          → Keeps linker (p ∷ rest) ld [] ld'
            × (IsClosed linker (p ∷ rest) ld → IsClosed linker [] ld')
            × (IsFair (p ∷ rest) ld → IsFair [] ld')
      go (went_on to_load ld1 s1) (keeps, closes, justifies) next taken =
          let (keeps', closes', justifies') =
            next to_load ld1 s1 (sym (rw (taken, load_loop) refl) ∙ e) in
          (
            (λ d h. keeps' d (keeps d h)),
            (λ closed. closes' (closes closed)),
            λ old. justifies' (justifies old),
          )
      go (stopped outcome ld1 s1) wrong next taken =
          let q : some (outcome, (ld1, s1)) ≡ some (ok tt, (ld', s')) =
            sym (rw (taken, load_loop) refl) ∙ e in
          absurd (wrong cc)
