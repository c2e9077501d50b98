-- ===== src/Dyld/Linker/Laws.antt =====
-- What a search for a symbol comes to.
use grafted.Base.{
  ℕ, ◌≡◌, ◌≢◌, ◌↔◌, refl, ◌∙◌, ap, Bool, false, ◌==◌, nat_eq, list_eq, ◌++◌, Option, none, some,
  Bytes, codes, arith, Option-cases, inl, inr,
}
use grafted.Base.Assoc.{lookup}
use grafted.Objc.Runtime.{Registries}
use grafted.Dyld.Linker.Classes.{ObjcState, Fresh, c_string, auto_create_objc_class}
use grafted.Dyld.Linker.Classes.Laws.{
  IsConsistent, IsAllocated, auto_create_objc_class-IsClassFor, auto_create_again,
}
use grafted.Dyld.Linker.Lookups.{
  IsLastPart, IsUnregistered, IsInNoLibrary, IsNoClass, IsNotInSwift, defined-none, class_name-none,
  by_dlsym-none,
}
use grafted.Dyld.Linker.{Symbols, Linker, defined, class_name, by_dlsym, after_classes, resolve}

module _ (read_symbols : Bytes → Option Symbols) (dlsym : Bytes → ℕ) (linker : Linker) where
  abbrev resolves : Fresh → Bytes → Bytes → Bool → ObjcState → Option ℕ × ObjcState
  resolves fresh dylib symbol is_weak st =
      resolve read_symbols dlsym fresh linker dylib symbol is_weak st

  -- The class that is made up, as the result of the search.
  resolve_class :
      (fresh : Fresh) (dylib symbol name : Bytes) (is_weak : Bool) (st : ObjcState)
      → IsAllocated fresh
      → IsConsistent st
      → defined read_symbols linker dylib symbol ≡ none
      → class_name symbol ≡ some name
      → resolves fresh dylib symbol is_weak st ≡ (
        some ((auto_create_objc_class fresh name st).0),
        (auto_create_objc_class fresh name st).1,
      )
  unfolding resolve
  resolve_class fresh dylib symbol name is_weak st allocated same undefined named =
      let (still, filled, cached, known) =
        auto_create_objc_class-IsClassFor fresh name st allocated same in
      let set : ((auto_create_objc_class fresh name st).0 == 0) ≡ false = ground (arith, filled) in
      rw (undefined, named, set, resolve) refl

  resolve_steps :
      (fresh : Fresh) (dylib symbol : Bytes) (st : ObjcState)
      → IsAllocated fresh
      → IsConsistent st
      → (resolve read_symbols dlsym fresh linker dylib symbol false st).0 ≡ none ↔ (
          (defined read_symbols linker dylib symbol ≡ none)
          × (class_name symbol ≡ none)
          × (by_dlsym dlsym symbol ≡ none))
  unfolding resolve after_classes
  resolve_steps fresh dylib symbol st allocated same =
      elim (Option-cases (defined read_symbols linker dylib symbol)) [
        | inr (addr, found) ↦ rw (found, resolve) ((λ h. absurd cc), λ h. absurd cc)
        | inl undefined ↦ elim (Option-cases (class_name symbol)) [
          | inr (name, named) ↦
              rw
                (
                  resolve_class fresh dylib symbol name false st allocated same undefined named,
                  named,
                )
                ((λ h. absurd cc), λ h. absurd cc)
          | inl plain ↦ elim (Option-cases (by_dlsym dlsym symbol)) [
            | inr (addr, found) ↦
                rw (undefined, plain, found, resolve, after_classes)
                  ((λ h. absurd cc), λ h. absurd cc)
            | inl missing ↦
                rw (undefined, plain, missing, resolve, after_classes)
                  ((λ h. (refl, refl, refl)), λ h. refl)
          ]
        ]
      ]

  -- A strong symbol is unresolved exactly if no library of the registry whose name ends with what is
  -- behind the last slash of the one it is asked of has it, no file of a loaded library has it, it
  -- is not `_OBJC_CLASS_$_` or `_OBJC_METACLASS_$_` and a name, and, if it starts with `_$s`, `$s` or
  -- `_swift_`, the Swift runtime does not have it, as `dlsym` answers for it without its underscore.
  -- The allocations for a class that is made up succeed, and the runtime has the classes of the
  -- linker's cache under their names.
  pub resolve_unresolved :
      (fresh : Fresh) (dylib part symbol : Bytes) (st : ObjcState)
      → IsAllocated fresh
      → IsConsistent st
      → IsLastPart dylib part
      → (resolve read_symbols dlsym fresh linker dylib symbol false st).0 ≡ none ↔ (
          IsUnregistered linker.registry part symbol
          × IsInNoLibrary read_symbols linker.loaded_libraries symbol
          × IsNoClass symbol
          × IsNotInSwift dlsym symbol)
  resolve_unresolved fresh dylib part symbol st allocated same last =
      let steps = resolve_steps fresh dylib symbol st allocated same in
      let d = defined-none read_symbols linker dylib part symbol last in
      let c = class_name-none symbol in
      let s = by_dlsym-none dlsym symbol in
      (
        (λ h.
            let (undefined, plain, missing) = steps.0 h in
            ((d.0 undefined).0, (d.0 undefined).1, c.0 plain, s.0 missing)),
        λ (h1, h2, h3, h4). steps.1 (d.1 (h1, h2), c.1 h3, s.1 h4),
      )

class_symbol : (name : Bytes) → class_name (codes "_OBJC_CLASS_$_" ++ name) ≡ some name
unfolding class_name
class_symbol name = refl

metaclass_symbol : (name : Bytes) → class_name (codes "_OBJC_METACLASS_$_" ++ name) ≡ some name
unfolding class_name
metaclass_symbol name = refl

-- A class and its metaclass that no library defines are one made-up class, whichever is resolved
-- first: it is not null, the runtime finds it by its name, and the second search gives it again and
-- changes nothing, where the allocations succeed and the runtime has the classes of the linker's
-- cache under their names.
pub resolve_class_once :
    (read_symbols : Bytes → Option Symbols) (dlsym : Bytes → ℕ) (linker : Linker)
    (fresh fresh' : Fresh) (dylib name : Bytes) (is_weak : Bool) (st : ObjcState)
    → IsAllocated fresh
    → IsAllocated fresh'
    → IsConsistent st
    → defined read_symbols linker dylib (codes "_OBJC_CLASS_$_" ++ name) ≡ none
    → defined read_symbols linker dylib (codes "_OBJC_METACLASS_$_" ++ name) ≡ none
    → (cls : ℕ) × (st' : ObjcState) × (cls ≢ 0)
      × IsConsistent st'
      × (lookup (Registries.classes st'.registries) (c_string name) ≡ some cls)
      × (resolve read_symbols dlsym fresh linker dylib (codes "_OBJC_CLASS_$_" ++ name) is_weak st
          ≡ (some cls, st'))
      × (resolve read_symbols dlsym fresh linker dylib
            (codes "_OBJC_METACLASS_$_" ++ name)
            is_weak
            st
          ≡ (some cls, st'))
      × (resolve read_symbols dlsym fresh' linker dylib (codes "_OBJC_CLASS_$_" ++ name) is_weak st'
          ≡ (some cls, st'))
      × (resolve read_symbols dlsym fresh' linker dylib
            (codes "_OBJC_METACLASS_$_" ++ name)
            is_weak
            st'
          ≡ (some cls, st'))
resolve_class_once read_symbols dlsym linker fresh fresh' dylib name is_weak st allocated allocated'
      same undefined_class undefined_meta =
    let made = auto_create_objc_class fresh name st in
    let (still, filled, cached, known) =
      auto_create_objc_class-IsClassFor fresh name st allocated same in
    let again = auto_create_again fresh' name made.1 made.0 cached in
    let pair : ℕ × ObjcState → Option ℕ × ObjcState = λ (x : ℕ × ObjcState). (some x.0, x.1) in
    (
      made.0,
      made.1,
      filled,
      still,
      known,
      resolve_class read_symbols dlsym linker fresh dylib (codes "_OBJC_CLASS_$_" ++ name) name
          is_weak st allocated same undefined_class (class_symbol name),
      resolve_class read_symbols dlsym linker fresh dylib (codes "_OBJC_METACLASS_$_" ++ name) name
          is_weak st allocated same undefined_meta (metaclass_symbol name),
      resolve_class read_symbols dlsym linker fresh' dylib (codes "_OBJC_CLASS_$_" ++ name) name
            is_weak made.1 allocated' still undefined_class (class_symbol name)
          ∙ ap pair again,
      resolve_class read_symbols dlsym linker fresh' dylib (codes "_OBJC_METACLASS_$_" ++ name) name
            is_weak made.1 allocated' still undefined_meta (metaclass_symbol name)
          ∙ ap pair again,
    )
