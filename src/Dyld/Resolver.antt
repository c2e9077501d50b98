-- ===== src/Dyld/Resolver.antt =====
-- crates/grafted-dyld/src/resolver.rs: from the path of a library to a file.
-- Paths are byte strings. Rust's `Path` and the file system are a parameter.
pub mod Laws
use grafted.Base.{
  ℕ, Bool, true, false, List, [], ◌∷◌, ◌++◌, Option, none, some, ◌==◌, nat_eq, list_eq,
  if◌then◌else◌, Bytes, codes,
}
use grafted.Base.Assoc.{Map, lookup, insert}

-- `Path::parent`, `join`, `file_name` and `exists`.
pub record Paths : Type 0 where
  pub parent : Bytes → Option Bytes
  pub join : Bytes → Bytes → Bytes
  pub file_name : Bytes → Option Bytes
  pub exists : Bytes → Bool

pub record DylibResolver : Type 0 where
  pub overrides : Map Bytes Bytes
  pub shim_dirs : List Bytes

abbrev pub new_resolver : DylibResolver
new_resolver = record { overrides = []; shim_dirs = [] }

unfoldable pub add_shim_dir : DylibResolver → Bytes → DylibResolver
add_shim_dir r dir = record r { shim_dirs = r.shim_dirs ++ (dir ∷ []) }

unfoldable pub add_override : DylibResolver → Bytes → Bytes → DylibResolver
add_override r darwin_path linux_path = record r {
  overrides = insert r.overrides darwin_path linux_path;
}

-- `str::strip_prefix`.
abbrev pub strip_prefix : Bytes → Bytes → Option Bytes
strip_prefix [] path = some path
strip_prefix (b ∷ bs) [] = none
strip_prefix (b ∷ bs) (c ∷ path) = if b == c then strip_prefix bs path else none

-- `?` on a path and on its parent.
abbrev pub parent_of : Paths → Option Bytes → Option Bytes
parent_of paths none = none
parent_of paths (some p) = paths.parent p

abbrev pub join_to : Paths → Option Bytes → Bytes → Option Bytes
join_to paths none rest = none
join_to paths (some dir) rest = some (paths.join dir rest)

unfoldable pub resolve_rpath : Paths → Option Bytes → Option Bytes → Bytes → Option Bytes
resolve_rpath paths executable loader rpath =
    elim (strip_prefix (codes "@executable_path/") rpath) [
      | some rest ↦ join_to paths (parent_of paths executable) rest
      | none ↦
          if rpath == codes "@executable_path"
          then parent_of paths executable
          else elim (strip_prefix (codes "@loader_path/") rpath) [
            | some rest ↦ join_to paths (parent_of paths loader) rest
            | none ↦ if rpath == codes "@loader_path" then parent_of paths loader else some rpath
          ]
    ]

-- What the first part of `resolve` comes to: a file, nothing yet, or the end of it all by `?`.
pub data Early : Type 0 where
  found : Bytes → Early
  go_on : Early
  give_up : Early

abbrev pub if_exists : Paths → Option Bytes → Early
if_exists paths none = Early.go_on
if_exists paths (some candidate) =
    if paths.exists candidate then Early.found candidate else Early.go_on

unfoldable pub try_rpaths : Paths → Option Bytes → Option Bytes → List Bytes → Bytes → Early
try_rpaths paths executable loader [] rest = Early.go_on
try_rpaths paths executable loader (rpath ∷ rpaths) rest =
    elim (resolve_rpath paths executable loader rpath) [
      | none ↦ Early.give_up
      | some dir ↦ elim (paths.exists (paths.join dir rest)) [
        | true ↦ Early.found (paths.join dir rest)
        | false ↦ try_rpaths paths executable loader rpaths rest
      ]
    ]

unfoldable pub try_special : Paths → Option Bytes → Option Bytes → List Bytes → Bytes → Early
try_special paths executable loader rpaths darwin_path =
    elim (strip_prefix (codes "@executable_path/") darwin_path) [
      | some rest ↦ if_exists paths (join_to paths (parent_of paths executable) rest)
      | none ↦ elim (strip_prefix (codes "@loader_path/") darwin_path) [
        | some rest ↦ if_exists paths (join_to paths (parent_of paths loader) rest)
        | none ↦ elim (strip_prefix (codes "@rpath/") darwin_path) [
          | some rest ↦ try_rpaths paths executable loader rpaths rest
          | none ↦ Early.go_on
        ]
      ]
    ]

unfoldable pub try_dirs : Paths → List Bytes → Bytes → Option Bytes
try_dirs paths [] filename = none
try_dirs paths (dir ∷ dirs) filename =
    let rest = try_dirs paths dirs filename in
    if paths.exists (paths.join dir filename) then some (paths.join dir filename) else rest

-- The shim directories by file name, then the path itself.
unfoldable pub fall_back : Paths → DylibResolver → Bytes → Option Bytes
fall_back paths r darwin_path = elim (paths.file_name darwin_path) [
  | none ↦ none
  | some filename ↦ elim (try_dirs paths r.shim_dirs filename) [
    | some candidate ↦ some candidate
    | none ↦ if paths.exists darwin_path then some darwin_path else none
  ]
]

unfoldable pub resolve :
    Paths → DylibResolver → Bytes → Option Bytes → Option Bytes → List Bytes → Option Bytes
resolve paths r darwin_path executable loader rpaths = elim (lookup r.overrides darwin_path) [
  | some path ↦ some path
  | none ↦ elim (try_special paths executable loader rpaths darwin_path) [
    | Early.found path ↦ some path
    | Early.give_up ↦ none
    | Early.go_on ↦ fall_back paths r darwin_path
  ]
]
