-- ===== src/Dyld/Linker/Lookups.antt =====
-- What it means that a search finds nothing, for crates/grafted-dyld/src/linker.rs: said of the
-- entries of the tables and of the symbol's spelling.
use mathlib.Core.Path.{subst}
use grafted.Base.{
  ℕ, ◌≡◌, ◌↔◌, ◌⊎◌, inl, inr, refl, sym, ap, ◌∙◌, true, false, [], ◌∷◌, ◌++◌, Option, none, some,
  ◌==◌, nat_eq, list_eq, if◌then◌else◌, Bytes, codes, arith, Bool-cases, Option-cases, nat_beq_iff,
  list_beq_iff,
}
use grafted.Base.Assoc.{Map, lookup}
use grafted.Loader.Format.{MachOBinary}
use grafted.Dyld.Resolver.{strip_prefix}
use grafted.Dyld.Linker.{
  Symbols, Linker, or_else, has_slash, short_name, ends_with, in_registry, by_short_name,
  class_name, find_symbol_in_binary, in_library, in_libraries, defined, by_dlsym,
}

-- The part of a path behind its last slash.
abbrev pub IsLastPart : Bytes → Bytes → Type 0
IsLastPart path part =
    (has_slash part ≡ false) × ((path ≡ part) ⊎ ((p : Bytes) × (path ≡ p ++ 47 ∷ part)))

-- No library of the registry whose name ends so has the symbol.
abbrev pub IsUnregistered : Map Bytes (Map Bytes ℕ) → Bytes → Bytes → Type 0
IsUnregistered [] part symbol = Unit {0}
IsUnregistered ((name, symbols) ∷ registry) part symbol =
    ((p : Bytes) → name ≡ p ++ part → lookup symbols symbol ≡ none)
    × IsUnregistered registry part symbol

-- No file of a loaded library has the symbol.
abbrev pub IsInNoLibrary : (Bytes → Option Symbols) → Map Bytes MachOBinary → Bytes → Type 0
IsInNoLibrary read_symbols [] symbol = Unit {0}
IsInNoLibrary read_symbols ((path, lib) ∷ libraries) symbol =
    (find_symbol_in_binary read_symbols lib symbol ≡ none)
    × IsInNoLibrary read_symbols libraries symbol

-- The symbol is that of no class and no metaclass.
abbrev pub IsNoClass : Bytes → Type 0
IsNoClass symbol =
    (name : Bytes)
    → ¬ ((symbol ≡ codes "_OBJC_CLASS_$_" ++ name) ⊎ (symbol ≡ codes "_OBJC_METACLASS_$_" ++ name))

-- The Swift runtime of the process lacks it, by its name without the underscore.
abbrev pub IsNotInSwift : (Bytes → ℕ) → Bytes → Type 0
IsNotInSwift dlsym symbol =
    ((rest : Bytes) → symbol ≡ codes "_$s" ++ rest → dlsym (codes "$s" ++ rest) ≡ 0)
    × ((rest : Bytes) → symbol ≡ codes "$s" ++ rest → dlsym symbol ≡ 0)
    × ((rest : Bytes) → symbol ≡ codes "_swift_" ++ rest → dlsym (codes "swift_" ++ rest) ≡ 0)

short_name_self : (part : Bytes) → has_slash part ≡ false → short_name part ≡ part
short_name_self [] h = refl
short_name_self (b ∷ bs) h = rw h refl

has_slash_middle : (p part : Bytes) → has_slash (p ++ 47 ∷ part) ≡ true
has_slash_middle [] part = refl
has_slash_middle (b ∷ p) part = ground (arith, has_slash_middle p part)

short_name_behind : (p part : Bytes) → has_slash part ≡ false → short_name (p ++ 47 ∷ part) ≡ part
short_name_behind [] part h = short_name_self part h
short_name_behind (b ∷ p) part h =
    ground (arith, has_slash_middle p part, short_name_behind p part h)

short_name-last : (path part : Bytes) → IsLastPart path part → short_name path ≡ part
short_name-last path part (plain, inl e) = ap short_name e ∙ short_name_self part plain
short_name-last path part (plain, inr (p, e)) = ap short_name e ∙ short_name_behind p part plain

last_part_suffix : (path part : Bytes) → IsLastPart path part → (p : Bytes) × (path ≡ p ++ part)
last_part_suffix path part (plain, inl e) = ([], e)
last_part_suffix path part (plain, inr (p, e)) = (p ++ 47 ∷ [], e ∙ sym (between p part))
  where
    between : (p part : Bytes) → (p ++ 47 ∷ []) ++ part ≡ p ++ 47 ∷ part
    between [] part = refl
    between (b ∷ p) part = ap (λ (l : Bytes). b ∷ l) (between p part)

ends_with_append : (p suffix : Bytes) → ends_with (p ++ suffix) suffix ≡ true
ends_with_append [] [] = refl
ends_with_append [] (b ∷ bs) = ground (arith, list_beq_iff (b ∷ bs) (b ∷ bs))
ends_with_append (b ∷ p) suffix = ground (arith, ends_with_append p suffix)

ends_with_sound :
    (text suffix : Bytes) → ends_with text suffix ≡ true → (p : Bytes) × (text ≡ p ++ suffix)
ends_with_sound [] suffix h = ([], (list_beq_iff [] suffix).0 h)
ends_with_sound (b ∷ bs) suffix h = elim (Bool-cases (b ∷ bs == suffix)) [
  | inl same ↦ ([], (list_beq_iff (b ∷ bs) suffix).0 same)
  | inr other ↦
      let (p, e) = ends_with_sound bs suffix (ground (arith, h, other)) in
      (b ∷ p, ap (λ (l : Bytes). b ∷ l) e)
]

or_else-none : (a b : Option ℕ) → (or_else a b ≡ none) ↔ ((a ≡ none) × (b ≡ none))
or_else-none none b = ((λ h. (refl, h)), λ h. h.1)
or_else-none (some a) b = ((λ h. absurd cc), λ h. absurd cc)

by_short_name-none :
    (registry : Map Bytes (Map Bytes ℕ)) (part symbol : Bytes)
    → (by_short_name registry part symbol ≡ none) ↔ IsUnregistered registry part symbol
unfolding by_short_name
by_short_name-none [] part symbol = ((λ h. tt), λ h. refl)
by_short_name-none ((name, symbols) ∷ registry) part symbol =
    let rest = by_short_name-none registry part symbol in
    elim (Bool-cases (ends_with name part)) [
      | inl ends ↦
          let both = or_else-none (lookup symbols symbol) (by_short_name registry part symbol) in
          rw ends (
            (λ h. ((λ p e. (both.0 h).0), rest.0 (both.0 h).1)),
            λ h. let (p, e) = ends_with_sound name part ends in both.1 (h.0 p e, rest.1 h.1),
          )
      | inr differs ↦ rw differs (
        (λ h. (
          (λ p e. absurd (
              ground
                (arith, differs, ap (λ (t : Bytes). ends_with t part) e, ends_with_append p part))),
          rest.0 h,
        )),
        λ h. rest.1 h.1,
      )
    ]

in_registry-none :
    (registry : Map Bytes (Map Bytes ℕ)) (dylib part symbol p : Bytes)
    → dylib ≡ p ++ part
    → IsUnregistered registry part symbol
    → in_registry registry dylib symbol ≡ none
unfolding lookup
in_registry-none [] dylib part symbol p e h = refl
in_registry-none ((name, symbols) ∷ registry) dylib part symbol p e (here, rest) =
    elim (Bool-cases (name == dylib)) [
      | inl same ↦ rw (same, in_registry, lookup) (here p ((list_beq_iff name dylib).0 same ∙ e))
      | inr other ↦
          rw (other, in_registry, lookup) (in_registry-none registry dylib part symbol p e rest)
    ]

module _ (read_symbols : Bytes → Option Symbols) where
  in_libraries-none :
      (libraries : Map Bytes MachOBinary) (symbol : Bytes)
      → (in_libraries read_symbols libraries symbol ≡ none)
        ↔ IsInNoLibrary read_symbols libraries symbol
  unfolding in_libraries
  in_libraries-none [] symbol = ((λ h. tt), λ h. refl)
  in_libraries-none ((path, lib) ∷ libraries) symbol =
      let rest = in_libraries-none libraries symbol in
      let both =
        or_else-none (find_symbol_in_binary read_symbols lib symbol)
          (in_libraries read_symbols libraries symbol) in
      ((λ h. ((both.0 h).0, rest.0 (both.0 h).1)), λ h. both.1 (h.0, rest.1 h.1))

  in_library-none :
      (libraries : Map Bytes MachOBinary) (dylib symbol : Bytes)
      → IsInNoLibrary read_symbols libraries symbol
      → in_library read_symbols libraries dylib symbol ≡ none
  unfolding in_library lookup
  in_library-none [] dylib symbol h = refl
  in_library-none ((path, lib) ∷ libraries) dylib symbol (here, rest) =
      elim (Bool-cases (path == dylib)) [
        | inl same ↦ rw (same, in_library, lookup) here
        | inr other ↦ rw (other, in_library, lookup) (in_library-none libraries dylib symbol rest)
      ]

  -- What is defined nowhere.
  pub defined-none :
      (linker : Linker) (dylib part symbol : Bytes)
      → IsLastPart dylib part
      → (defined read_symbols linker dylib symbol ≡ none) ↔ (
          IsUnregistered linker.registry part symbol
          × IsInNoLibrary read_symbols linker.loaded_libraries symbol)
  unfolding defined
  defined-none linker dylib part symbol last =
      let registered = in_registry linker.registry dylib symbol in
      let short = by_short_name linker.registry (short_name dylib) symbol in
      let loaded = in_library read_symbols linker.loaded_libraries dylib symbol in
      let all = in_libraries read_symbols linker.loaded_libraries symbol in
      let e = short_name-last dylib part last in
      let (p, suffix) = last_part_suffix dylib part last in
      let n1 = or_else-none registered (or_else short (or_else loaded all)) in
      let n2 = or_else-none short (or_else loaded all) in
      let n3 = or_else-none loaded all in
      let s = by_short_name-none linker.registry part symbol in
      let l = in_libraries-none linker.loaded_libraries symbol in
      (
        (λ h.
            let q = n2.0 (n1.0 h).1 in
            (
              s.0 (subst (λ (t : Bytes). by_short_name linker.registry t symbol ≡ none) e q.0),
              l.0 (n3.0 q.1).1,
            )),
        λ h. n1.1 (
          in_registry-none linker.registry dylib part symbol p suffix h.0,
          n2.1 (
            subst (λ (t : Bytes). by_short_name linker.registry t symbol ≡ none) (sym e) (s.1 h.0),
            n3.1 (in_library-none linker.loaded_libraries dylib symbol h.1, l.1 h.1),
          ),
        ),
      )

strip_prefix_append : (prefix rest : Bytes) → strip_prefix prefix (prefix ++ rest) ≡ some rest
strip_prefix_append [] rest = refl
strip_prefix_append (b ∷ bs) rest = rw ((nat_beq_iff b b).1 refl) (strip_prefix_append bs rest)

strip_prefix_sound :
    (prefix text rest : Bytes) → strip_prefix prefix text ≡ some rest → text ≡ prefix ++ rest
strip_prefix_sound [] text rest h = cc
strip_prefix_sound (b ∷ bs) [] rest h = absurd cc
strip_prefix_sound (b ∷ bs) (c ∷ text) rest h = elim (Bool-cases (b == c)) [
  | inl same ↦
      let e : strip_prefix bs text ≡ some rest = sym (rw (same, strip_prefix) refl) ∙ h in
      rw (strip_prefix_sound bs text rest e, (nat_beq_iff b c).0 same) refl
  | inr other ↦ let e : none ≡ some rest = sym (rw (other, strip_prefix) refl) ∙ h in absurd cc
]

pub class_name-none : (symbol : Bytes) → (class_name symbol ≡ none) ↔ IsNoClass symbol
unfolding class_name
class_name-none symbol = (
  (λ h name z. elim z [
    | inl e ↦ absurd (some_none (sym (ap class_name e) ∙ h))
    | inr e ↦ absurd (some_none (sym (ap class_name e) ∙ h))
  ]),
  λ h. elim (Option-cases (strip_prefix (codes "_OBJC_CLASS_$_") symbol)) [
    | inr (name, e) ↦
        absurd (h name (inl (strip_prefix_sound (codes "_OBJC_CLASS_$_") symbol name e)))
    | inl first ↦ elim (Option-cases (strip_prefix (codes "_OBJC_METACLASS_$_") symbol)) [
      | inr (name, e) ↦
          absurd (h name (inr (strip_prefix_sound (codes "_OBJC_METACLASS_$_") symbol name e)))
      | inl neither ↦ rw (first, neither) refl
    ]
  ],
)
  where
    some_none : {a : Bytes} → some a ≡ none → ⊥
    some_none e = absurd cc

by_dlsym_lem :
    (dlsym : Bytes → ℕ) (rest : Bytes)
    → (by_dlsym dlsym (codes "_$s" ++ rest) ≡ none → dlsym (codes "$s" ++ rest) ≡ 0)
      × (by_dlsym dlsym (codes "$s" ++ rest) ≡ none → dlsym (codes "$s" ++ rest) ≡ 0)
      × (by_dlsym dlsym (codes "_swift_" ++ rest) ≡ none → dlsym (codes "swift_" ++ rest) ≡ 0)
unfolding by_dlsym
by_dlsym_lem dlsym rest = (
  (λ h. zero_of (dlsym (codes "$s" ++ rest)) h),
  (λ h. zero_of (dlsym (codes "$s" ++ rest)) h),
  λ h. zero_of (dlsym (codes "swift_" ++ rest)) h,
)
  where
    zero_of : (a : ℕ) → (if a == 0 then none else some a) ≡ none → a ≡ 0
    zero_of a h = ground (arith, h)

by_dlsym_zero :
    (dlsym : Bytes → ℕ) (rest : Bytes)
    → (dlsym (codes "$s" ++ rest) ≡ 0 → by_dlsym dlsym (codes "_$s" ++ rest) ≡ none)
      × (dlsym (codes "$s" ++ rest) ≡ 0 → by_dlsym dlsym (codes "$s" ++ rest) ≡ none)
      × (dlsym (codes "swift_" ++ rest) ≡ 0 → by_dlsym dlsym (codes "_swift_" ++ rest) ≡ none)
unfolding by_dlsym
by_dlsym_zero dlsym rest =
    ((λ h. ground (arith, h)), (λ h. ground (arith, h)), λ h. ground (arith, h))

pub by_dlsym-none :
    (dlsym : Bytes → ℕ) (symbol : Bytes)
    → (by_dlsym dlsym symbol ≡ none) ↔ IsNotInSwift dlsym symbol
unfolding by_dlsym
by_dlsym-none dlsym symbol = (
  (λ h. (
    (λ rest e. (by_dlsym_lem dlsym rest).0 (sym (ap (by_dlsym dlsym) e) ∙ h)),
    (λ rest e. ap dlsym e ∙ (by_dlsym_lem dlsym rest).1 (sym (ap (by_dlsym dlsym) e) ∙ h)),
    λ rest e. (by_dlsym_lem dlsym rest).2 (sym (ap (by_dlsym dlsym) e) ∙ h),
  )),
  λ h. elim (Option-cases (strip_prefix (codes "_$s") symbol)) [
    | inr (rest, e) ↦
        let q = strip_prefix_sound (codes "_$s") symbol rest e in
        ap (by_dlsym dlsym) q ∙ (by_dlsym_zero dlsym rest).0 (h.0 rest q)
    | inl first ↦ elim (Option-cases (strip_prefix (codes "$s") symbol)) [
      | inr (rest, e) ↦
          let q = strip_prefix_sound (codes "$s") symbol rest e in
          ap (by_dlsym dlsym) q ∙ (by_dlsym_zero dlsym rest).1 (sym (ap dlsym q) ∙ h.1 rest q)
      | inl second ↦ elim (Option-cases (strip_prefix (codes "_swift_") symbol)) [
        | inr (rest, e) ↦
            let q = strip_prefix_sound (codes "_swift_") symbol rest e in
            ap (by_dlsym dlsym) q ∙ (by_dlsym_zero dlsym rest).2 (h.2 rest q)
        | inl third ↦ rw (first, second, third) refl
      ]
    ]
  ],
)
