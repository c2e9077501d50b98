-- ===== src/Cf/Arrays.antt =====
-- crates/grafted-frameworks/src/cf/array.rs: ordered collections of pointers. The array of values
-- that a caller passes is a function of the index, or `none` where its pointer is null.
use grafted.Base.{
  ℕ, zero, suc, List, [], ◌∷◌, ◌++◌, Option, none, some, ◌==◌, nat_eq, if◌then◌else◌, length,
  get_or,
}
use grafted.Cf.{
  Payload, cf_array, Object, Store, object, write, create, is_positive, cf_array_type_id, not_found,
  cf_retain,
}

abbrev pub PointerArray : Type 0
PointerArray = Option (ℕ → ℕ)

abbrev pub values_of : Payload → Option (List ℕ)
values_of (cf_array values) = some values
values_of p = none

-- `&*arr`: the values of the array at an address.
abbrev pub array_of : Option Object → Option (Object × List ℕ)
array_of none = none
array_of (some o) = elim (values_of o.payload) [ none ↦ none | some values ↦ some (o, values) ]

unfoldable pub array_at : Store → ℕ → Option (Object × List ℕ)
array_at st arr = array_of (object st arr)

unfoldable pub retain_value : Store → ℕ → Option Store
retain_value st v =
    if v == 0 then some st else elim (cf_retain st v) [ none ↦ none | some r ↦ some r.0 ]

-- The loop over the `n` values from number `i`.
unfoldable pub push_values : (ℕ → ℕ) → ℕ → ℕ → Store → List ℕ → Option (Store × List ℕ)
push_values values i zero st vec = some (st, vec)
push_values values i (suc n) st vec = elim (retain_value st (values i)) [
  | none ↦ none
  | some st1 ↦ push_values values (suc i) n st1 (vec ++ values i ∷ [])
]

unfoldable pub array_values : PointerArray → ℕ → Store → Option (Store × List ℕ)
array_values none num st = some (st, [])
array_values (some values) num st =
    if is_positive num then push_values values 0 num st [] else some (st, [])

unfoldable pub cf_array_create : ℕ → Store → PointerArray → ℕ → Option (Store × ℕ)
cf_array_create fresh st values num = elim (array_values values num st) [
  | none ↦ none
  | some r ↦ some (create r.0 fresh cf_array_type_id (cf_array r.1))
]

-- The capacity only reserves memory.
unfoldable pub cf_array_create_mutable : ℕ → Store → Store × ℕ
cf_array_create_mutable fresh st = create st fresh cf_array_type_id (cf_array [])

unfoldable pub cf_array_get_count : Store → ℕ → Option ℕ
cf_array_get_count st arr =
    if arr == 0 then some 0 else elim (array_at st arr) [ none ↦ none | some r ↦ some (length r.1) ]

-- A negative index is a large `usize`.
unfoldable pub cf_array_get_value_at_index : Store → ℕ → ℕ → Option ℕ
cf_array_get_value_at_index st arr idx =
    if arr == 0
    then some 0
    else elim (array_at st arr) [ none ↦ none | some r ↦ some (get_or r.1 idx 0) ]

unfoldable pub cf_array_append_value : Store → ℕ → ℕ → Option Store
cf_array_append_value st arr value = if arr == 0 then some st else elim (retain_value st value) [
  | none ↦ none
  | some st1 ↦ elim (array_at st1 arr) [
    | none ↦ none
    | some r ↦ some (write st1 arr (record r.0 { payload = cf_array (r.1 ++ value ∷ []) }))
  ]
]

unfoldable pub position : List ℕ → ℕ → Option ℕ
position [] value = none
position (v ∷ vs) value =
    let rest = position vs value in
    if v == value then some 0 else elim rest [ none ↦ none | some i ↦ some (suc i) ]

unfoldable pub cf_array_get_first_index_of_value : Store → ℕ → ℕ → Option ℕ
cf_array_get_first_index_of_value st arr value =
    if arr == 0 then some not_found else elim (array_at st arr) [
      | none ↦ none
      | some r ↦ some (elim (position r.1 value) [ none ↦ not_found | some i ↦ i ])
    ]
