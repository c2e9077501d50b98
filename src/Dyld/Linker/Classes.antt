-- ===== src/Dyld/Linker/Classes.antt =====
-- crates/grafted-dyld/src/linker.rs: `auto_create_objc_class`, with the registries of
-- crates/grafted-objc/src/runtime.rs. The addresses that the allocator gives are an argument.
pub mod Laws
use grafted.Base.{
  ℕ, ◌==◌, nat_eq, list_eq, if◌then◌else◌, List, [], Option, none, some, contains, Bytes,
}
use grafted.Base.Assoc.{Map, lookup, insert}
use grafted.Objc.Runtime.{Heap, Registries, register_class_pair, get_class}

-- CLASS_CACHE, the heap and the runtime's registries.
pub record ObjcState : Type 0 where
  pub class_cache : Map Bytes ℕ
  pub heap : Heap
  pub registries : Registries

-- Where the class, its data and its name are allocated, in memory of zeros.
pub record Fresh : Type 0 where
  pub fresh_class : ℕ
  pub fresh_data : ℕ
  pub fresh_name : ℕ

-- `CString::new(name).unwrap_or_default()`.
abbrev pub c_string : Bytes → Bytes
c_string name = if contains name 0 then [] else name

abbrev pub with_text : Heap → ℕ → Bytes → Heap
with_text heap at text = record heap {
  to_str = λ p. if p == at then some text else Heap.to_str heap p;
  to_string_lossy = λ p. if p == at then text else Heap.to_string_lossy heap p;
}

abbrev pub with_class : Heap → Fresh → Heap
with_class heap fresh = record heap {
  data_bits = λ p. if p == fresh.fresh_class then fresh.fresh_data else Heap.data_bits heap p;
  name_of = λ p. if p == fresh.fresh_data then fresh.fresh_name else Heap.name_of heap p;
}

unfoldable pub auto_create_objc_class : Fresh → Bytes → ObjcState → ℕ × ObjcState
auto_create_objc_class fresh name st = elim (lookup st.class_cache name) [
  | some cls ↦ (cls, st)
  | none ↦
      let named = with_text st.heap fresh.fresh_name (c_string name) in
      let existing = get_class named st.registries fresh.fresh_name in
      if existing == 0
      then (
        fresh.fresh_class,
        record {
          class_cache = insert st.class_cache name fresh.fresh_class;
          heap = with_class named fresh;
          registries = register_class_pair (with_class named fresh) st.registries fresh.fresh_class;
        },
      )
      else (existing, record st { class_cache = insert st.class_cache name existing })
]
