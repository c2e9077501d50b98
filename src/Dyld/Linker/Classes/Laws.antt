-- ===== src/Dyld/Linker/Classes/Laws.antt =====
-- The classes that the linker makes up, and the runtime.
use grafted.Base.{
  ℕ, ◌*◌, ◌/◌, ◌%◌, ◌≡◌, ◌≢◌, refl, sym, ◌∙◌, ap, true, false, ◌==◌, ◌||◌, list_beq_iff, nat_eq,
  list_eq, Option, none, some, Bytes, arith, Bool-cases, Option-cases, inl, inr,
}
use mathlib.Core.Path.{subst}
use grafted.Base.Assoc.{Map, lookup, insert, lookup-insert_self, lookup-insert_ne}
use grafted.Objc.Runtime.{Heap, Registries, register_class_pair, get_class}
use grafted.Dyld.Linker.Classes.{
  ObjcState, Fresh, c_string, with_text, with_class, auto_create_objc_class,
}

-- A cached class is the one that the runtime has under that name.
abbrev pub IsConsistent : ObjcState → Type 0
IsConsistent st =
    (name : Bytes) (cls : ℕ)
    → lookup st.class_cache name ≡ some cls
    → (cls ≢ 0) × (lookup (Registries.classes st.registries) (c_string name) ≡ some cls)

-- What `calloc` and `into_raw` promise.
abbrev pub IsAllocated : Fresh → Type 0
IsAllocated fresh =
    (fresh.fresh_class ≢ 0)
    × (fresh.fresh_data ≢ 0)
    × (fresh.fresh_data % 8 ≡ 0)
    × (fresh.fresh_name ≢ 0)

-- The runtime's answer for the linker's copy of a name.
existing_of : Option ℕ → ℕ
existing_of none = 0
existing_of (some cls) = cls

get_class_named :
    (heap : Heap) (r : Registries) (at : ℕ) (text : Bytes)
    → at ≢ 0
    → get_class (with_text heap at text) r at ≡ existing_of (lookup r.classes text)
unfolding get_class existing_of
get_class_named heap r at text h = elim (Option-cases (lookup r.classes text)) [
  | inl e ↦
      let set : (at == 0) ≡ false = ground arith in
      let here : (at == at) ≡ true = ground arith in rw (set, here, e, get_class, existing_of) refl
  | inr (cls, e) ↦
      let set : (at == 0) ≡ false = ground arith in
      let here : (at == at) ≡ true = ground arith in rw (set, here, e, get_class, existing_of) refl
]

register_class_pair_named :
    (heap : Heap) (r : Registries) (fresh : Fresh) (text : Bytes)
    → IsAllocated fresh
    → register_class_pair
        (with_class (with_text heap fresh.fresh_name text) fresh)
        r
        fresh.fresh_class
      ≡ record r { classes = insert r.classes text fresh.fresh_class }
unfolding register_class_pair
register_class_pair_named heap r fresh text (hc, hd, even, hn) =
    let c : (fresh.fresh_class == fresh.fresh_class) ≡ true = ground arith in
    let whole : fresh.fresh_data / 8 * 8 ≡ fresh.fresh_data = omega arith in
    let d : (fresh.fresh_data == fresh.fresh_data) ≡ true = ground arith in
    let n : (fresh.fresh_name == fresh.fresh_name) ≡ true = ground arith in
    let guard : ((fresh.fresh_class == 0) || ((fresh.fresh_data == 0) || (fresh.fresh_name == 0)))
        ≡ false =
      ground arith in
    rw (c, whole, d, n, guard, register_class_pair) refl

not_same : (x y : Bytes) → (x == y) ≡ false → x ≢ y
not_same x y h z = ground (arith, (list_beq_iff x y).1 z)

-- What the linker promises for a class: one that is not null, in its cache and in the runtime, and
-- the other classes stay.
abbrev pub IsClassFor : Bytes → ℕ × ObjcState → Type 0
IsClassFor name (cls, st) =
    IsConsistent st
    × (cls ≢ 0)
    × (lookup st.class_cache name ≡ some cls)
    × (lookup (Registries.classes st.registries) (c_string name) ≡ some cls)

insert-IsClassFor :
    (name : Bytes) (cls : ℕ) (st : ObjcState) (heap : Heap) (r : Registries)
    → cls ≢ 0
    → IsConsistent st
    → lookup r.classes (c_string name) ≡ some cls
    → ((n : Bytes) (c : ℕ)
        → lookup (Registries.classes st.registries) n ≡ some c
        → c ≢ 0
        → lookup r.classes n ≡ some c)
    → IsClassFor name
        (cls, record { class_cache = insert st.class_cache name cls; heap = heap; registries = r })
insert-IsClassFor name cls st heap r set same has keeps =
    (consistent, set, lookup-insert_self st.class_cache name cls, has)
  where
    consistent :
        IsConsistent
          (record { class_cache = insert st.class_cache name cls; heap = heap; registries = r })
    consistent n c e = elim (Bool-cases (name == n)) [
      | inl here ↦
          let eq : name ≡ n = (list_beq_iff name n).0 here in
          let p : some cls ≡ some c =
            sym (lookup-insert_self st.class_cache name cls)
            ∙ subst (λ (x : Bytes). lookup (insert st.class_cache name cls) x ≡ some c) (sym eq)
                e in
          (
            (λ z. set (ground arith)),
            subst (λ (x : Bytes). lookup (Registries.classes r) (c_string x) ≡ some c) eq (has ∙ p),
          )
      | inr there ↦
          let apart : name ≢ n = not_same name n there in
          let (filled, known) =
            same n c (sym (lookup-insert_ne st.class_cache name n cls apart) ∙ e) in
          (filled, keeps (c_string n) c known filled)
    ]

existing_some : (o : Option ℕ) → existing_of o ≢ 0 → o ≡ some (existing_of o)
unfolding existing_of
existing_some none h = absurd (h refl)
existing_some (some cls) h = refl

-- Where the runtime has no class under a name, a new one there replaces none.
absent_keeps :
    (classes : Map Bytes ℕ) (at : Bytes) (cls : ℕ)
    → existing_of (lookup classes at) ≡ 0
    → (n : Bytes) (c : ℕ) → lookup classes n ≡ some c
    → c ≢ 0
    → lookup (insert classes at cls) n ≡ some c
unfolding existing_of
absent_keeps classes at cls absent n c e filled =
    lookup-insert_ne classes at n cls (λ same. filled (
      sym (ap existing_of (subst (λ (x : Bytes). lookup classes x ≡ some c) (sym same) e))
      ∙ absent))
    ∙ e

-- A class made up for a name is not null, and the cache and the runtime agree on it, as they do on
-- all the others before and after.
pub auto_create_objc_class-IsClassFor :
    (fresh : Fresh) (name : Bytes) (st : ObjcState)
    → IsAllocated fresh
    → IsConsistent st
    → IsClassFor name (auto_create_objc_class fresh name st)
unfolding auto_create_objc_class
auto_create_objc_class-IsClassFor fresh name st (hc, hd, even, hn) same =
    elim (Option-cases (lookup st.class_cache name)) [
      | inr (cls, cached) ↦
          rw (cached, auto_create_objc_class)
            (same, (same name cls cached).0, cached, (same name cls cached).1)
      | inl missing ↦ elim (Bool-cases (existing == 0)) [
        | inr registered ↦
            rw (missing, registered, auto_create_objc_class)
              (insert-IsClassFor name existing st st.heap st.registries (λ h. ground arith) same
                (existing_some (lookup classes (c_string name)) (λ h. ground (arith, named, h))
                  ∙ ap some (sym named))
                (λ n c e h. e))
        | inl absent ↦
            rw
              (
                missing,
                absent,
                auto_create_objc_class,
                register_class_pair_named st.heap st.registries fresh (c_string name)
                    (hc, hd, even, hn),
              )
              (insert-IsClassFor name fresh.fresh_class st
                (with_class (with_text st.heap fresh.fresh_name (c_string name)) fresh)
                (record (st.registries) {
                  classes = insert classes (c_string name) fresh.fresh_class;
                })
                hc same (lookup-insert_self classes (c_string name) fresh.fresh_class)
                (absent_keeps classes (c_string name) fresh.fresh_class (sym named ∙ ground arith)))
      ]
    ]
  where
    classes : Map Bytes ℕ
    classes = Registries.classes st.registries

    existing : ℕ
    existing =
        get_class (with_text st.heap fresh.fresh_name (c_string name)) st.registries
          fresh.fresh_name

    named : existing ≡ existing_of (lookup classes (c_string name))
    named = get_class_named st.heap st.registries fresh.fresh_name (c_string name) hn

-- A class that is in the cache is given again, and nothing changes.
pub auto_create_again :
    (fresh : Fresh) (name : Bytes) (st : ObjcState) (cls : ℕ)
    → lookup st.class_cache name ≡ some cls
    → auto_create_objc_class fresh name st ≡ (cls, st)
unfolding auto_create_objc_class
auto_create_again fresh name st cls cached = rw (cached, auto_create_objc_class) refl
