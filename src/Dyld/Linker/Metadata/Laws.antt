-- ===== src/Dyld/Linker/Metadata/Laws.antt =====
-- The classes of a binary are found by the runtime, for crates/grafted-dyld/src/linker.rs.
use grafted.Base.{
  ℕ, zero, suc, ◌+◌, ◌≡◌, refl, ◌∙◌, ap, Bool, true, false, not, ◌&&◌, ◌||◌, Option, some, ◌==◌,
  nat_eq, list_eq, Option-cases, inl, inr, arith, Bytes, if◌then◌else◌,
}
use grafted.Base.Assoc.{lookup, lookup-insert}
use grafted.Loader.Memory.{Memory, read_word}
use grafted.Objc.Runtime.{
  Heap, Registries, class_add_method, register_class_pair, sel_register_name, pair_eq,
}
use grafted.Dyld.Linker.Metadata.{
  data_of_class, add_method, add_methods, register_class_metadata, register_class_name, each_class,
  method_list_of, method_count,
}

abbrev pub name_of_class : Heap → ℕ → Bytes
name_of_class heap cls = heap.to_string_lossy (heap.name_of (data_of_class heap cls))

-- A class with data, a name pointer and this name.
abbrev pub has_name : Heap → ℕ → Bytes → Bool
has_name heap cls name =
    (not (cls == 0)
      && (not (data_of_class heap cls == 0) && not (heap.name_of (data_of_class heap cls) == 0)))
    && (name_of_class heap cls == name)

-- The last of `n` pointers from `ptrs` on to a class with this name; without one, what was known.
abbrev pub last_named : Heap → Memory → ℕ → ℕ → Bytes → Option ℕ → Option ℕ
last_named heap m zero ptrs name known = known
last_named heap m (suc n) ptrs name known =
    last_named heap m n (ptrs + 8) name
      (if has_name heap (read_word 8 m ptrs) name then some (read_word 8 m ptrs) else known)

lookup-register_class_pair :
    (heap : Heap) (r : Registries) (cls : ℕ) (name : Bytes)
    → lookup (register_class_pair heap r cls).classes name
      ≡ (if has_name heap cls name then some cls else lookup r.classes name)
unfolding register_class_pair
lookup-register_class_pair heap r cls name =
    ground (arith, lookup-insert r.classes (name_of_class heap cls) name cls)

classes-class_add_method :
    (r : Registries) (cls sel imp : ℕ)
    → (class_add_method r cls sel (some imp)).0.classes ≡ r.classes
unfolding class_add_method
classes-class_add_method r cls sel imp = elim (Option-cases (lookup r.methods (cls, sel))) [
  | inl new ↦ rw (new, class_add_method) refl
  | inr (old, known) ↦ rw (known, class_add_method) refl
]

classes-sel_register_name :
    (heap : Heap) (at : ℕ) (r : Registries) (name : ℕ)
    → (sel_register_name heap at r name).0.classes ≡ r.classes
unfolding sel_register_name
classes-sel_register_name heap at r name =
    elim (Option-cases (lookup r.selectors (heap.to_string_lossy name))) [
      | inl new ↦ rw new (ground arith)
      | inr (sel, known) ↦ rw known (ground arith)
    ]

lookup_if :
    (b : Bool) (r1 r2 : Registries) (name : Bytes) (v : Option ℕ)
    → (b ≡ true → lookup r1.classes name ≡ v)
    → lookup r2.classes name ≡ v
    → lookup (if b then r1 else r2).classes name ≡ v
lookup_if true r1 r2 name v h1 h2 = h1 refl
lookup_if false r1 r2 name v h1 h2 = h2

lookup_both :
    (b : Bool) (r1 r2 : Registries) (name : Bytes) (v : Option ℕ)
    → lookup r1.classes name ≡ v
    → lookup r2.classes name ≡ v
    → lookup (if b then r1 else r2).classes name ≡ v
lookup_both true r1 r2 name v h1 h2 = h1
lookup_both false r1 r2 name v h1 h2 = h2

module _ (heap : Heap) (fresh : Registries → ℕ) (m : Memory) where
  -- Methods do not change what classes are known.
  classes-add_method :
      (cls base : ℕ) (rel : Bool) (r : Registries)
      → (add_method heap fresh m cls base rel r).classes ≡ r.classes
  unfolding add_method
  classes-add_method cls base rel r =
      classes-class_add_method _ cls _ _ ∙ classes-sel_register_name heap (fresh r) r _

  classes-add_methods :
      (n i cls list : ℕ) (r : Registries)
      → (add_methods heap fresh m n i cls list r).classes ≡ r.classes
  unfolding add_methods
  classes-add_methods zero i cls list r = refl
  classes-add_methods (suc n) i cls list r =
      classes-add_methods n (suc i) cls list _ ∙ classes-add_method cls _ _ r

  lookup-add_methods :
      (n i cls list : ℕ) (r : Registries) (name : Bytes)
      → lookup (add_methods heap fresh m n i cls list r).classes name ≡ lookup r.classes name
  lookup-add_methods n i cls list r name =
      ap (λ c. lookup c name) (classes-add_methods n i cls list r)

  abbrev paired : ℕ → Registries → Registries
  paired cls r = register_class_pair heap r cls

  abbrev list_of : ℕ → ℕ
  list_of cls = method_list_of m (data_of_class heap cls)

  -- The class with its methods.
  abbrev with_methods : ℕ → Registries → Registries
  with_methods cls r = add_methods heap fresh m (method_count m (list_of cls)) 0 cls (list_of cls) r

  -- A class is known by its name afterwards, and nothing else changes about what names are known.
  abbrev pub IsRegistering : (ℕ → Registries → Registries) → Type 0
  IsRegistering register =
      (cls : ℕ) (r : Registries) (name : Bytes)
      → lookup (register cls r).classes name
        ≡ (if has_name heap cls name then some cls else lookup r.classes name)

  register_class_name-IsRegistering : IsRegistering (register_class_name heap fresh m)
  unfolding register_class_name
  register_class_name-IsRegistering cls r name =
      let pair = lookup-register_class_pair heap r cls name in
      let v = if has_name heap cls name then some cls else lookup r.classes name in
      lookup_if
        ((cls == 0)
          || ((data_of_class heap cls == 0) || (heap.name_of (data_of_class heap cls) == 0)))
        r _ name v (λ h. ground (arith, h))
        (lookup_both _ (with_methods cls (paired cls r)) (paired cls r) name v
          (lookup-add_methods (method_count m (list_of cls)) 0 cls (list_of cls) (paired cls r) name
            ∙ pair)
          pair)

  register_class_metadata-IsRegistering : IsRegistering (register_class_metadata heap fresh m)
  unfolding register_class_metadata
  register_class_metadata-IsRegistering cls r name =
      let v = if has_name heap cls name then some cls else lookup r.classes name in
      lookup_if ((cls == 0) || (data_of_class heap cls == 0)) r _ name v (λ h. ground (arith, h))
        (lookup_both _ (paired cls r) (paired cls (with_methods cls r)) name v
          (lookup-register_class_pair heap r cls name)
          (lookup-register_class_pair heap (with_methods cls r) cls name
            ∙ ap (λ (known : Option ℕ). if has_name heap cls name then some cls else known)
                (lookup-add_methods (method_count m (list_of cls)) 0 cls (list_of cls) r name)))

  each_class-registers :
      (register : ℕ → Registries → Registries) (n ptrs : ℕ) (r : Registries) (name : Bytes)
      → IsRegistering register
      → lookup (each_class heap fresh m register n ptrs r).classes name
        ≡ last_named heap m n ptrs name (lookup r.classes name)
  unfolding each_class
  each_class-registers register zero ptrs r name each = refl
  each_class-registers register (suc n) ptrs r name each =
      each_class-registers register n (ptrs + 8) (register (read_word 8 m ptrs) r) name each
      ∙ ap (last_named heap m n (ptrs + 8) name) (each (read_word 8 m ptrs) r name)

  -- After a list of `n` class pointers, whether it is that of a library or that of the main binary,
  -- the runtime knows by each name the last of these classes that has data and this name, and by
  -- every other name what it knew before. Nothing is said of the methods.
  pub classes_are_known :
      (n ptrs : ℕ) (r : Registries) (name : Bytes)
      → (lookup
            (each_class heap fresh m (register_class_metadata heap fresh m) n ptrs r).classes
            name
          ≡ last_named heap m n ptrs name (lookup r.classes name))
        × (lookup (each_class heap fresh m (register_class_name heap fresh m) n ptrs r).classes name
            ≡ last_named heap m n ptrs name (lookup r.classes name))
  classes_are_known n ptrs r name = (
    each_class-registers (register_class_metadata heap fresh m) n ptrs r name
        register_class_metadata-IsRegistering,
    each_class-registers (register_class_name heap fresh m) n ptrs r name
        register_class_name-IsRegistering,
  )
