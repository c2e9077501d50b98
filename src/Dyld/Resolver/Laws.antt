-- ===== src/Dyld/Resolver/Laws.antt =====
-- What `resolve` answers.
use grafted.Base.{
  ◌≡◌, refl, true, List, [], ◌∷◌, ◌++◌, Option, none, some, nat_eq, list_eq, Bytes, codes, arith,
  Option-cases, inl, inr, list_beq_iff,
}
use grafted.Base.Assoc.{lookup, lookup-insert}
use grafted.Dyld.Resolver.{
  Paths, DylibResolver, add_override, strip_prefix, resolve_rpath, Early, if_exists, join_to,
  parent_of, try_rpaths, try_special, try_dirs, fall_back, resolve,
}

if_exists-found :
    (paths : Paths) (o : Option Bytes) (p : Bytes)
    → if_exists paths o ≡ Early.found p
    → paths.exists p ≡ true
if_exists-found paths none p h = absurd cc
if_exists-found paths (some candidate) p h = ground arith

try_rpaths-found :
    (paths : Paths) (executable loader : Option Bytes) (rpaths : List Bytes) (rest p : Bytes)
    → try_rpaths paths executable loader rpaths rest ≡ Early.found p
    → paths.exists p ≡ true
unfolding try_rpaths
try_rpaths-found paths executable loader [] rest p h = absurd cc
try_rpaths-found paths executable loader (rpath ∷ rpaths) rest p h =
    ground (arith, try_rpaths-found paths executable loader rpaths rest p)

try_special-found :
    (paths : Paths) (executable loader : Option Bytes) (rpaths : List Bytes) (path p : Bytes)
    → try_special paths executable loader rpaths path ≡ Early.found p
    → paths.exists p ≡ true
unfolding try_special
try_special-found paths executable loader rpaths path p h =
    elim (Option-cases (strip_prefix (codes "@executable_path/") path)) [
      | inr (rest, is) ↦
          ground (arith, if_exists-found paths (join_to paths (parent_of paths executable) rest) p)
      | inl no_exec ↦ elim (Option-cases (strip_prefix (codes "@loader_path/") path)) [
        | inr (rest, is) ↦
            ground (arith, if_exists-found paths (join_to paths (parent_of paths loader) rest) p)
        | inl no_loader ↦ elim (Option-cases (strip_prefix (codes "@rpath/") path)) [
          | inr (rest, is) ↦ ground (arith, try_rpaths-found paths executable loader rpaths rest p)
          | inl no_rpath ↦ ground arith
        ]
      ]
    ]

try_dirs-found :
    (paths : Paths) (dirs : List Bytes) (filename p : Bytes)
    → try_dirs paths dirs filename ≡ some p
    → paths.exists p ≡ true
unfolding try_dirs
try_dirs-found paths [] filename p h = absurd cc
try_dirs-found paths (dir ∷ dirs) filename p h =
    ground (arith, try_dirs-found paths dirs filename p)

fall_back-found :
    (paths : Paths) (r : DylibResolver) (path p : Bytes)
    → fall_back paths r path ≡ some p
    → paths.exists p ≡ true
unfolding fall_back
fall_back-found paths r path p h = elim (Option-cases (paths.file_name path)) [
  | inl unnamed ↦ ground arith
  | inr (filename, named) ↦ elim (Option-cases (try_dirs paths r.shim_dirs filename)) [
    | inl missing ↦ ground arith
    | inr (q, there) ↦ ground (arith, try_dirs-found paths r.shim_dirs filename p)
  ]
]

-- An override is what its path resolves to, also if another was set before; without one for the
-- path, only a file that exists is ever the answer.
pub resolve_exists :
    (paths : Paths) (r : DylibResolver) (path linux p : Bytes) (executable loader : Option Bytes)
    (rpaths : List Bytes)
    → (resolve paths (add_override r path linux) path executable loader rpaths ≡ some linux)
      × (lookup r.overrides path ≡ none
          → resolve paths r path executable loader rpaths ≡ some p
          → paths.exists p ≡ true)
unfolding resolve add_override
resolve_exists paths r path linux p executable loader rpaths = (
  ground (arith, lookup-insert r.overrides path path linux, list_beq_iff path path),
  λ plain h. ground (
    arith,
    try_special-found paths executable loader rpaths path p,
    fall_back-found paths r path p,
  ),
)

try_rpaths_skip :
    (paths : Paths) (executable loader : Option Bytes) (before after : List Bytes)
    (rpath rest : Bytes)
    → try_rpaths paths executable loader before rest ≡ Early.go_on
    → resolve_rpath paths executable loader rpath ≡ none
    → try_rpaths paths executable loader (before ++ rpath ∷ after) rest ≡ Early.give_up
unfolding try_rpaths
try_rpaths_skip paths executable loader [] after rpath rest h stuck = ground arith
try_rpaths_skip paths executable loader (b ∷ before) after rpath rest h stuck =
    ground (arith, try_rpaths_skip paths executable loader before after rpath rest)

-- An rpath that needs a path which is not given, before any that has the library, ends the whole
-- resolution: neither later rpaths nor the shim directories nor the path itself are tried.
pub resolve_gives_up :
    (paths : Paths) (r : DylibResolver) (path rest rpath : Bytes) (executable loader : Option Bytes)
    (before after : List Bytes)
    → lookup r.overrides path ≡ none
    → strip_prefix (codes "@executable_path/") path ≡ none
    → strip_prefix (codes "@loader_path/") path ≡ none
    → strip_prefix (codes "@rpath/") path ≡ some rest
    → try_rpaths paths executable loader before rest ≡ Early.go_on
    → resolve_rpath paths executable loader rpath ≡ none
    → resolve paths r path executable loader (before ++ rpath ∷ after) ≡ none
unfolding resolve try_special
resolve_gives_up paths r path rest rpath executable loader before after plain no_exec no_loader is
      earlier stuck =
    let gives_up : try_special paths executable loader (before ++ rpath ∷ after) path
        ≡ Early.give_up =
      rw (no_exec, no_loader, is, try_special)
        (try_rpaths_skip paths executable loader before after rpath rest earlier stuck) in
    rw (plain, gives_up, resolve) refl
