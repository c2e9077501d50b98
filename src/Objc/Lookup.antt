-- ===== src/Objc/Lookup.antt =====
-- Which method a message reaches.
use grafted.Base.{
  ℕ, ◌≡◌, ◌≢◌, ◌<◌, false, List, none, some, nat_eq, list_eq, length, Bytes, arith, inl, inr, ◌⊎◌,
}
use grafted.Base.Assoc.{lookup, lookup-insert}
use grafted.Objc.Runtime.{
  Heap, Registries, Imp, Found, pair_eq, class_add_method, find_method, classes_to_check,
  find_by_name, lookup_method,
}

-- The class of an object, at an address that a class can have.
abbrev pub IsInstance : Heap → ℕ → ℕ → Type 0
IsInstance heap receiver cls =
    (receiver ≢ 0)
    × (receiver ≢ cls)
    × (heap.isa receiver ≡ cls)
    × (4096 < cls)
    × (cls < 0x800000000000)

find_method-instance :
    (heap : Heap) (r : Registries) (receiver cls sel : ℕ) (imp : Imp)
    → IsInstance heap receiver cls
    → lookup r.methods (receiver, sel) ≡ none
    → lookup r.methods (cls, sel) ≡ some imp
    → find_method r (classes_to_check heap receiver) sel ≡ some imp
unfolding find_method
find_method-instance heap r receiver cls sel imp (real, apart, is, low, high) own found =
    ground arith

find_method-absent :
    (heap : Heap) (r : Registries) (receiver cls sel : ℕ)
    → IsInstance heap receiver cls
    → lookup r.methods (receiver, sel) ≡ none
    → lookup r.methods (cls, sel) ≡ none
    → find_method r (classes_to_check heap receiver) sel ≡ none
unfolding find_method
find_method-absent heap r receiver cls sel (real, apart, is, low, high) own missing = ground arith

find_by_name-alias :
    (heap : Heap) (r : Registries) (classes : List ℕ) (sel alias : ℕ) (imp : Imp) (name : Bytes)
    → 4096 < alias
    → heap.to_str alias ≡ some name
    → length name < 256
    → lookup r.selectors name ≡ some sel
    → sel ≢ alias
    → find_method r classes sel ≡ some imp
    → find_by_name heap r classes alias ≡ some imp
unfolding find_by_name
find_by_name-alias heap r classes sel alias imp name in_space text short canonical differs found =
    ground arith

lookup_method-find :
    (heap : Heap) (r : Registries) (receiver selector : ℕ) (imp : Imp)
    → receiver ≢ 0
    → (find_method r (classes_to_check heap receiver) selector ≡ some imp)
      ⊎ ((find_method r (classes_to_check heap receiver) selector ≡ none)
          × (find_by_name heap r (classes_to_check heap receiver) selector ≡ some imp))
    → lookup_method heap r receiver selector ≡ Found.registered imp
unfolding lookup_method
lookup_method-find heap r receiver selector imp real (inl found) = ground arith
lookup_method-find heap r receiver selector imp real (inr (absent, named)) = ground arith

-- A method that was added to a class is what the class's instances reach, by the selector itself or
-- by another one with the same name, up to 255 bytes, if the selector was registered under that
-- name; unless a method stands under the instance's own address or under the other selector. A
-- second one for the class and selector is refused, and nothing changes.
pub lookup_method-add_method :
    (heap : Heap) (r : Registries) (receiver cls sel alias : ℕ) (imp other : Imp) (name : Bytes)
    → IsInstance heap receiver cls
    → lookup r.methods (cls, sel) ≡ none
    → lookup r.methods (receiver, sel) ≡ none
    → (lookup_method heap (class_add_method r cls sel imp).0 receiver sel ≡ Found.registered imp)
      × (4096 < alias
          → heap.to_str alias ≡ some name
          → length name < 256
          → lookup r.selectors name ≡ some sel
          → sel ≢ alias
          → lookup r.methods (receiver, alias) ≡ none
          → lookup r.methods (cls, alias) ≡ none
          → lookup_method heap (class_add_method r cls sel imp).0 receiver alias
            ≡ Found.registered imp)
      × (class_add_method (class_add_method r cls sel imp).0 cls sel other
          ≡ ((class_add_method r cls sel imp).0, false))
unfolding class_add_method
lookup_method-add_method heap r receiver cls sel alias imp other name is_instance none_yet own =
    let (real, apart, is, low, high) = is_instance in
    let added = (class_add_method r cls sel imp).0 in
    let at_cls = lookup-insert r.methods (cls, sel) (cls, sel) imp in
    let at_own = lookup-insert r.methods (cls, sel) (receiver, sel) imp in
    let there : lookup added.methods (cls, sel) ≡ some imp = ground (arith, at_cls) in
    let own_too : lookup added.methods (receiver, sel) ≡ none = ground (arith, at_own) in
    let found = find_method-instance heap added receiver cls sel imp is_instance own_too there in
    (
      lookup_method-find heap added receiver sel imp is_instance.0 (inl found),
      (λ in_space text short canonical differs own_alias cls_alias.
          let none_own : lookup added.methods (receiver, alias) ≡ none =
            ground (arith, lookup-insert r.methods (cls, sel) (receiver, alias) imp) in
          let none_cls : lookup added.methods (cls, alias) ≡ none =
            ground (arith, lookup-insert r.methods (cls, sel) (cls, alias) imp) in
          let still : lookup added.selectors name ≡ some sel = ground arith in
          lookup_method-find heap added receiver alias imp is_instance.0 (
            inr (
              find_method-absent heap added receiver cls alias is_instance none_own none_cls,
              find_by_name-alias heap added (classes_to_check heap receiver) sel alias imp name
                  in_space text short still differs found,
            ))),
      ground (arith, there),
    )
