-- ===== src/Dyld/Tests.antt =====
-- The scenarios of the source's tests, and the theorems at concrete paths.
use grafted.Base.{◌≡◌, refl, true, [], ◌∷◌, ◌++◌, none, some, codes, nat_eq, list_eq, ◌==◌}
use grafted.Base.Assoc.{lookup, insert}
use grafted.Dyld.Resolver.{
  Paths, DylibResolver, new_resolver, add_shim_dir, add_override, resolve_rpath, try_rpaths,
  try_special, try_dirs, fall_back, resolve,
}
use grafted.Dyld.Resolver.Laws.{resolve_exists, resolve_gives_up}

program : Unit {0}
unfolding lookup insert add_shim_dir add_override resolve_rpath try_rpaths try_special try_dirs
    fall_back resolve
program = tt

-- A file system with the one file "shims/lib".
abbrev paths : Paths
paths = record {
  parent = λ p. none;
  join = λ dir file. dir ++ codes "/" ++ file;
  file_name = λ p. some (codes "lib");
  exists = λ p. p == codes "shims/lib";
}

abbrev resolver : DylibResolver
resolver = add_shim_dir new_resolver (codes "shims")

test_override_resolution :
    resolve paths
      (add_override new_resolver (codes "/usr/lib/a") (codes "/opt/a"))
      (codes "/usr/lib/a")
      none
      none
      []
    ≡ some (codes "/opt/a")
unfolding program
test_override_resolution = refl

test_unknown_dylib : resolve paths new_resolver (codes "/usr/lib/b") none none [] ≡ none
unfolding program
test_unknown_dylib = refl

test_shim_dir : resolve paths resolver (codes "@rpath/lib") none none [] ≡ some (codes "shims/lib")
unfolding program
test_shim_dir = refl

resolve_exists_example : Paths.exists paths (codes "shims/lib") ≡ true
unfolding program
resolve_exists_example =
    (resolve_exists paths resolver (codes "/usr/lib/lib") [] (codes "shims/lib") none none []).1
      refl refl

-- The same library as above, with an rpath next to a loader that is not known.
test_resolve_gives_up :
    resolve paths resolver (codes "@rpath/lib") none none (codes "/x" ∷ codes "@loader_path" ∷ [])
    ≡ none
unfolding program
test_resolve_gives_up =
    resolve_gives_up paths resolver (codes "@rpath/lib") (codes "lib") (codes "@loader_path") none
      none (codes "/x" ∷ []) [] refl refl refl refl refl refl
