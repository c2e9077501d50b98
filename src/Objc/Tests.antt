-- ===== src/Objc/Tests.antt =====
-- A class with one method, and the theorems at it.
use grafted.Base.{ℕ, ◌≡◌, refl, ap, [], ◌∷◌, none, some, codes, arith, nat_eq, list_eq}
use grafted.Base.Assoc.{lookup, insert}
use grafted.Objc.Runtime.{
  Heap, Registries, Found, pair_eq, class_add_method, register_class_pair, get_class,
  sel_register_name, find_method, find_by_name, builtin, lookup_method,
}
use grafted.Objc.Lookup.{lookup_method-add_method}
use grafted.Objc.Selectors.{sel_register_name_canonical}

program : Unit {0}
unfolding lookup insert class_add_method register_class_pair get_class sel_register_name find_method
    find_by_name builtin lookup_method
program = tt

-- Every C string is "run", and every object's class is at 0x5000, whose data are at 0x6000.
abbrev heap : Heap
heap = record {
  isa = λ p. 0x5000;
  data_bits = λ p. 0x6001;
  name_of = λ p. 0x7000;
  to_str = λ p. some (codes "run");
  to_string_lossy = λ p. codes "run";
}

abbrev empty : Registries
empty = record { methods = []; classes = []; selectors = [] }

test_get_class : get_class heap (register_class_pair heap empty 0x5000) 1 ≡ 0x5000
unfolding program
test_get_class = refl

-- Without a method, `alloc` and the like are built in.
test_builtin :
    lookup_method (record heap { to_string_lossy = λ p. codes "alloc" }) empty 1 2
    ≡ Found.grafted_alloc
unfolding program
test_builtin = refl

abbrev known : Registries
known = record empty { selectors = (codes "run", 0x2000) ∷ [] }

test_lookup_method-add_method :
    lookup_method heap (class_add_method known 0x5000 0x2000 (some 9)).0 0x9000 0x3000
    ≡ Found.registered (some 9)
unfolding program
test_lookup_method-add_method =
    (lookup_method-add_method heap known 0x9000 0x5000 0x2000 0x3000 (some 9) none (codes "run")
        (omega arith, omega arith, refl, omega arith, omega arith) refl refl).1
      (omega arith) refl (omega arith) refl (omega arith) refl refl

sel_register_name_canonical_example :
    (sel_register_name heap 0x4000 (sel_register_name heap 0x2000 empty 1).0 2).1 ≡ 0x2000
unfolding program
sel_register_name_canonical_example =
    ap (λ (x : Registries × ℕ). x.1)
      ((sel_register_name_canonical heap 0x2000 0x4000 empty 1 2 (omega arith) (omega arith)
          (λ s t p at_s at_t. absurd cc) (λ s at. absurd cc) (λ s at. ground arith)).0
        refl)
