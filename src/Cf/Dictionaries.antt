-- ===== src/Cf/Dictionaries.antt =====
-- crates/grafted-frameworks/src/cf/dictionary.rs: maps from key pointers to value pointers. The
-- `HashMap` of entries is an association list. Keys are compared as numbers and never read.
use grafted.Base.{
  ℕ, zero, suc, Bool, false, [], Option, none, some, ◌==◌, nat_eq, if◌then◌else◌, length,
}
use grafted.Base.Assoc.{Map, lookup, insert, remove, is_some}
use grafted.Cf.{
  Payload, cf_dictionary, Object, Store, object, write, create, is_positive, cf_dictionary_type_id,
  cf_release,
}
use grafted.Cf.Arrays.{PointerArray, retain_value}

abbrev pub entries_of : Payload → Option (Map ℕ ℕ)
entries_of (cf_dictionary entries) = some entries
entries_of p = none

abbrev pub dictionary_of : Option Object → Option (Object × Map ℕ ℕ)
dictionary_of none = none
dictionary_of (some o) = elim (entries_of o.payload) [
  | none ↦ none
  | some entries ↦ some (o, entries)
]

unfoldable pub dictionary_at : Store → ℕ → Option (Object × Map ℕ ℕ)
dictionary_at st dict = dictionary_of (object st dict)

-- The loop over the `n` pairs from number `i`; what `insert` gives back is dropped.
unfoldable pub insert_pairs : (ℕ → ℕ) → (ℕ → ℕ) → ℕ → ℕ → Store → Map ℕ ℕ → Option (Store × Map ℕ ℕ)
insert_pairs keys values i zero st entries = some (st, entries)
insert_pairs keys values i (suc n) st entries = elim (retain_value st (values i)) [
  | none ↦ none
  | some st1 ↦ insert_pairs keys values (suc i) n st1 (insert entries (keys i) (values i))
]

unfoldable pub dictionary_entries :
    PointerArray → PointerArray → ℕ → Store → Option (Store × Map ℕ ℕ)
dictionary_entries none values num st = some (st, [])
dictionary_entries (some keys) none num st = some (st, [])
dictionary_entries (some keys) (some values) num st =
    if is_positive num then insert_pairs keys values 0 num st [] else some (st, [])

unfoldable pub cf_dictionary_create :
    ℕ → Store → PointerArray → PointerArray → ℕ → Option (Store × ℕ)
cf_dictionary_create fresh st keys values num = elim (dictionary_entries keys values num st) [
  | none ↦ none
  | some r ↦ some (create r.0 fresh cf_dictionary_type_id (cf_dictionary r.1))
]

unfoldable pub cf_dictionary_create_mutable : ℕ → Store → Store × ℕ
cf_dictionary_create_mutable fresh st = create st fresh cf_dictionary_type_id (cf_dictionary [])

unfoldable pub cf_dictionary_get_count : Store → ℕ → Option ℕ
cf_dictionary_get_count st dict =
    if dict == 0
    then some 0
    else elim (dictionary_at st dict) [ none ↦ none | some r ↦ some (length r.1) ]

unfoldable pub cf_dictionary_get_value : Store → ℕ → ℕ → Option ℕ
cf_dictionary_get_value st dict key = if dict == 0 then some 0 else elim (dictionary_at st dict) [
  | none ↦ none
  | some r ↦ some (elim (lookup r.1 key) [ none ↦ 0 | some v ↦ v ])
]

unfoldable pub cf_dictionary_contains_key : Store → ℕ → ℕ → Option Bool
cf_dictionary_contains_key st dict key =
    if dict == 0
    then some false
    else elim (dictionary_at st dict) [ none ↦ none | some r ↦ some (is_some (lookup r.1 key)) ]

-- What `HashMap::insert` or `remove` gives back is released unless it is null.
unfoldable pub release_old : Store → Option ℕ → Option Store
release_old st none = some st
release_old st (some old) = if old == 0 then some st else cf_release st old

unfoldable pub cf_dictionary_set_value : Store → ℕ → ℕ → ℕ → Option Store
cf_dictionary_set_value st dict key value =
    if dict == 0 then some st else elim (retain_value st value) [
      | none ↦ none
      | some st1 ↦ elim (dictionary_at st1 dict) [
        | none ↦ none
        | some r ↦
            release_old
              (write st1 dict (record r.0 { payload = cf_dictionary (insert r.1 key value) }))
              (lookup r.1 key)
      ]
    ]

unfoldable pub cf_dictionary_remove_value : Store → ℕ → ℕ → Option Store
cf_dictionary_remove_value st dict key =
    if dict == 0 then some st else elim (dictionary_at st dict) [
      | none ↦ none
      | some r ↦
          release_old (write st dict (record r.0 { payload = cf_dictionary (remove r.1 key) }))
            (lookup r.1 key)
    ]
