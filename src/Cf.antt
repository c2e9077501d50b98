-- ===== src/Cf.antt =====
-- crates/grafted-frameworks/src/cf/types.rs: the header of every object, reference counts and type
-- ids. The heap is a map from addresses to objects; an address whose object was freed has `none`.
-- A result `none` is an access to memory that is not a live object of the type that the code reads
-- there, of which Rust says nothing. The pointer 0 is null, and the address of a new object is the
-- argument `fresh` of the function that makes it. Atomic orderings are left out, and so is `_pad`.
use grafted.Base.{
  ℕ, ◌+◌, ◌-◌, ◌%◌, ◌^◌, Bool, true, false, not, ◌&&◌, ◌||◌, List, Option, none, some, ◌==◌, nat_eq,
  list_eq, leb, if◌then◌else◌, u32, Bytes,
}
use grafted.Base.Assoc.{Map, lookup, insert}
pub mod Arrays
pub mod Dictionaries
pub mod Buffers
pub mod Unicode
pub mod Strings
pub mod Ownership
pub mod Tests

abbrev pub cf_string_type_id : ℕ
cf_string_type_id = 7

abbrev pub cf_dictionary_type_id : ℕ
cf_dictionary_type_id = 18

abbrev pub cf_array_type_id : ℕ
cf_array_type_id = 19

abbrev pub cf_data_type_id : ℕ
cf_data_type_id = 20

abbrev pub not_found : ℕ
not_found = 2 ^ 64 - 1

pub record CfRuntimeBase : Type 0 where
  pub isa : ℕ
  pub info : ℕ
  pub refcount : ℕ

unfoldable pub new_base : ℕ → CfRuntimeBase
new_base type_id = record { isa = 0; info = type_id % 2 ^ 16; refcount = 1 }

abbrev pub type_id : CfRuntimeBase → ℕ
type_id base = base.info % 2 ^ 16

abbrev pub retain_base : CfRuntimeBase → CfRuntimeBase
retain_base base = record base { refcount = u32 (base.refcount + 1) }

-- Whether the object is to be freed: `fetch_sub` gives the old count.
abbrev pub release_base : CfRuntimeBase → CfRuntimeBase × Bool
release_base base =
    (record base { refcount = u32 (base.refcount + (2 ^ 32 - 1)) }, base.refcount == 1)

-- What follows the header: the vector of bytes, the entries or the values.
pub data Payload : Type 0 where
  cf_string : Bytes → Payload
  cf_dictionary : Map ℕ ℕ → Payload
  cf_array : List ℕ → Payload
  cf_data : Bytes → Payload
  cf_base : Payload

pub record Object : Type 0 where
  pub base : CfRuntimeBase
  pub payload : Payload

abbrev pub Store : Type 0
Store = Map ℕ (Option Object)

unfoldable pub object : Store → ℕ → Option Object
object st a = elim (lookup st a) [ none ↦ none | some cell ↦ cell ]

abbrev pub write : Store → ℕ → Object → Store
write st a o = insert st a (some o)

-- `Box::into_raw(Box::new(…))` of an object with a new header.
unfoldable pub create : Store → ℕ → ℕ → Payload → Store × ℕ
unfolding new_base
create st fresh type_id payload =
    (write st fresh (record { base = new_base type_id; payload = payload }), fresh)

-- An index is 64 bits, and negative from 2^63.
abbrev pub is_positive : ℕ → Bool
is_positive n = leb 1 n && not (leb (2 ^ 63) n)

unfoldable pub cf_get_type_id : Store → ℕ → Option ℕ
unfolding object
cf_get_type_id st cf =
    if cf == 0 then some 0 else elim (object st cf) [ none ↦ none | some o ↦ some (type_id o.base) ]

unfoldable pub cf_retain : Store → ℕ → Option (Store × ℕ)
unfolding object
cf_retain st cf = if cf == 0 then some (st, cf) else elim (object st cf) [
  | none ↦ none
  | some o ↦ some (write st cf (record o { base = retain_base o.base }), cf)
]

-- The type that the destructor of the type id frees the box as is the type of the payload.
unfoldable pub destructor_fits : ℕ → Payload → Bool
destructor_fits id (cf_string bytes) = id == cf_string_type_id
destructor_fits id (cf_dictionary entries) = id == cf_dictionary_type_id
destructor_fits id (cf_array values) = id == cf_array_type_id
destructor_fits id (cf_data bytes) = id == cf_data_type_id
destructor_fits id cf_base = not (
    (id == cf_string_type_id)
    || ((id == cf_dictionary_type_id) || ((id == cf_array_type_id) || (id == cf_data_type_id))))

-- A box that is dropped drops its vector or map, whose elements are plain pointers.
unfoldable pub cf_release : Store → ℕ → Option Store
unfolding object destructor_fits
cf_release st cf = if cf == 0 then some st else elim (object st cf) [
  | none ↦ none
  | some o ↦
      let r = release_base o.base in
      if not r.1
      then some (write st cf (record o { base = r.0 }))
      else if destructor_fits (type_id r.0) o.payload
      then some (insert st cf none)
      else none
]

abbrev pub bytes_equal : Payload → Payload → Option Bool
bytes_equal (cf_string b1) (cf_string b2) = some (b1 == b2)
bytes_equal p1 p2 = none

unfoldable pub cf_equal : Store → ℕ → ℕ → Option Bool
unfolding object
cf_equal st cf1 cf2 =
    if cf1 == cf2
    then some true
    else if (cf1 == 0) || (cf2 == 0)
    then some false
    else elim (object st cf1) [
      | none ↦ none
      | some o1 ↦ elim (object st cf2) [
        | none ↦ none
        | some o2 ↦
            if not (type_id o1.base == type_id o2.base)
            then some false
            else if type_id o1.base == cf_string_type_id
            then bytes_equal o1.payload o2.payload
            else some false
      ]
    ]

unfoldable pub cf_hash : ℕ → ℕ
cf_hash cf = if cf == 0 then 0 else cf
