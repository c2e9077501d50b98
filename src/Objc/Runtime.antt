-- ===== src/Objc/Runtime.antt =====
-- crates/grafted-objc/src/runtime.rs: methods, classes and selectors.
-- Each registry is behind a lock that one call takes, so that a call is one step. Pointers are
-- numbers, and 0 is null; what stands behind them is a parameter. The log lines, their counter and
-- the class names in them are left out, and so is the assembly of `objc_msgSend`.
use grafted.Base.{
  ℕ, ◌/◌, ◌*◌, ◌≡◌, ◌↔◌, Bool, true, false, not, ◌&&◌, ◌||◌, List, [], ◌∷◌, Option, none, some, Eq,
  ◌==◌, nat_eq, list_eq, nat_beq_iff, nat_beq, ltb, if◌then◌else◌, length, Bytes, codes, arith,
}
use grafted.Base.Assoc.{Map, lookup, insert}

pub pair_beq_iff : (x y : ℕ × ℕ) → ((nat_beq x.0 y.0 && nat_beq x.1 y.1) ≡ true) ↔ (x ≡ y)
pair_beq_iff (a, b) (c, d) = ground (arith, nat_beq_iff a c, nat_beq_iff b d)

instance abbrev pub pair_eq : Eq (ℕ × ℕ)
pair_eq = record { eq = λ x y. nat_beq x.0 y.0 && nat_beq x.1 y.1; eq_iff = pair_beq_iff }

-- An `IMP`, which may be null.
abbrev pub Imp : Type 0
Imp = Option ℕ

pub record Registries : Type 0 where
  pub methods : Map (ℕ × ℕ) Imp
  pub classes : Map Bytes ℕ
  pub selectors : Map Bytes ℕ

-- What stands behind pointers: an object's class, a class's data bits, the name pointer in those
-- data, and C strings, read as they are if they are UTF-8 and with replacements if not.
pub record Heap : Type 0 where
  pub isa : ℕ → ℕ
  pub data_bits : ℕ → ℕ
  pub name_of : ℕ → ℕ
  pub to_str : ℕ → Option Bytes
  pub to_string_lossy : ℕ → Bytes

unfoldable pub class_add_method : Registries → ℕ → ℕ → Imp → Registries × Bool
class_add_method r cls name imp = elim (lookup r.methods (cls, name)) [
  | some old ↦ (r, false)
  | none ↦ (record r { methods = insert r.methods (cls, name) imp }, true)
]

-- The low three bits of the data pointer are tags.
unfoldable pub register_class_pair : Heap → Registries → ℕ → Registries
register_class_pair heap r cls =
    let data_ptr = heap.data_bits cls / 8 * 8 in
    let name_ptr = heap.name_of data_ptr in
    if (cls == 0) || ((data_ptr == 0) || (name_ptr == 0))
    then r
    else record r { classes = insert r.classes (heap.to_string_lossy name_ptr) cls }

unfoldable pub get_class : Heap → Registries → ℕ → ℕ
get_class heap r name =
    if name == 0
    then 0
    else elim (lookup r.classes (heap.to_string_lossy name)) [ none ↦ 0 | some cls ↦ cls ]

-- `fresh` is the address of the copy of the name that is made for a new selector.
unfoldable pub sel_register_name : Heap → ℕ → Registries → ℕ → Registries × ℕ
sel_register_name heap fresh r name =
    let text = heap.to_string_lossy name in
    if name == 0 then (r, 0) else elim (lookup r.selectors text) [
      | some sel ↦ (r, sel)
      | none ↦ (record r { selectors = insert r.selectors text fresh }, fresh)
    ]

-- What a lookup gives: no receiver, a method of the registry, or a built-in one.
pub data Found : Type 0 where
  no_receiver : Found
  registered : Imp → Found
  grafted_alloc : Found
  grafted_init : Found
  grafted_noop : Found
  returns_false : Found
  returns_null : Found
  returns_zero : Found

-- The first of the classes that is not null and has the method.
unfoldable pub find_method : Registries → List ℕ → ℕ → Option Imp
find_method r [] sel = none
find_method r (cls ∷ rest) sel =
    let later = find_method r rest sel in
    if cls == 0
    then later
    else elim (lookup r.methods (cls, sel)) [ none ↦ later | some imp ↦ some imp ]

-- The receiver itself, for class methods, and its class, if that looks like an address.
abbrev pub classes_to_check : Heap → ℕ → List ℕ
classes_to_check heap receiver =
    receiver
    ∷ (if ltb 4096 (heap.isa receiver) && ltb (heap.isa receiver) 0x800000000000
        then heap.isa receiver
        else 0)
    ∷ []

-- By name: the selector that was registered under the name behind this one.
unfoldable pub find_by_name : Heap → Registries → List ℕ → ℕ → Option Imp
find_by_name heap r classes selector =
    if not (ltb 4096 selector) then none else elim (heap.to_str selector) [
      | none ↦ none
      | some name ↦ elim (lookup r.selectors name) [
        | none ↦ none
        | some canonical ↦
            if ltb (length name) 256 && not (canonical == selector)
            then find_method r classes canonical
            else none
      ]
    ]

abbrev pub is_one_of : Bytes → List Bytes → Bool
is_one_of name [] = false
is_one_of name (n ∷ ns) = (name == n) || is_one_of name ns

-- The methods that every object has. An unknown one returns null.
unfoldable pub builtin : Bytes → Found
builtin name =
    if is_one_of name (codes "alloc" ∷ codes "allocWithZone:" ∷ [])
    then Found.grafted_alloc
    else if is_one_of name
        (codes "init" ∷ codes "new" ∷ codes "retain" ∷ codes "autorelease" ∷ codes "self" ∷ [])
    then Found.grafted_init
    else if is_one_of name (codes "release" ∷ codes "dealloc" ∷ [])
    then Found.grafted_noop
    else if is_one_of name (
        codes "respondsToSelector:"
        ∷ codes "conformsToProtocol:"
        ∷ codes "isKindOfClass:"
        ∷ codes "isMemberOfClass:"
        ∷ [])
    then Found.returns_false
    else if is_one_of name
        (codes "class" ∷ codes "superclass" ∷ codes "description" ∷ codes "debugDescription" ∷ [])
    then Found.returns_null
    else if is_one_of name (codes "hash" ∷ codes "count" ∷ codes "length" ∷ [])
    then Found.returns_zero
    else Found.returns_null

unfoldable pub lookup_method : Heap → Registries → ℕ → ℕ → Found
lookup_method heap r receiver selector =
    let classes = classes_to_check heap receiver in
    if receiver == 0 then Found.no_receiver else elim (find_method r classes selector) [
      | some imp ↦ Found.registered imp
      | none ↦ elim (find_by_name heap r classes selector) [
        | some imp ↦ Found.registered imp
        | none ↦ builtin (heap.to_string_lossy selector)
      ]
    ]
