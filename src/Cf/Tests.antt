-- ===== src/Cf/Tests.antt =====
-- The theorems on crates/grafted-frameworks/src/cf at concrete inputs, and runs of its functions.
use grafted.Base.{
  ℕ, ◌+◌, ◌-◌, ◌≤◌, ◌<◌, ◌≡◌, ◌≢◌, ◌⊎◌, inl, refl, min, true, List, [], ◌∷◌, Option, none, some,
  arith, if◌then◌else◌, ◌==◌, nat_eq, get_or, length, codes,
}
use grafted.Base.Assoc.{lookup, insert, remove}
use grafted.Cf.{
  Store, object, create, new_base, cf_retain, cf_release, cf_equal, cf_hash, cf_get_type_id,
  destructor_fits,
}
use grafted.Cf.Arrays.{
  array_at, retain_value, push_values, array_values, cf_array_create, cf_array_create_mutable,
  cf_array_get_count, cf_array_get_value_at_index, cf_array_append_value, position,
  cf_array_get_first_index_of_value,
}
use grafted.Cf.Dictionaries.{
  dictionary_at, insert_pairs, dictionary_entries, cf_dictionary_create,
  cf_dictionary_create_mutable, release_old, cf_dictionary_get_count, cf_dictionary_get_value,
  cf_dictionary_contains_key, cf_dictionary_set_value, cf_dictionary_remove_value,
}
use grafted.Cf.Buffers.{
  bytes_from, data_bytes, cf_data_create, cf_data_get_length, cf_data_get_byte_ptr,
}
use grafted.Cf.Unicode.{
  first_byte, next_byte, decode_from, decode_utf8, str_or_empty, utf16_units, units_of,
  encode_utf16, compare_bytes,
}
use grafted.Cf.Strings.{
  string_at, cf_string_create_with_c_string, cf_string_create_with_bytes, cf_string_get_length,
  cf_string_get_c_string_ptr, cf_string_get_c_string, cf_string_get_characters, cf_string_compare,
}
use grafted.Cf.Strings.Laws.{get_c_string_writes}
use grafted.Cf.Ownership.{held, refs, well_typed, IsSound}
use grafted.Cf.Ownership.Counts.{payload_at}
use grafted.Cf.Ownership.Clients.{
  Command, release, make_string, make_mutable_array, make_mutable_dictionary, append, perform,
  owned_after, IsPermitted,
}
use grafted.Cf.Ownership.Reachable.{
  IsReachable, start, next, IsReachable-IsSound, reachable_runs, values_live,
}
use grafted.Cf.Ownership.Lookups.{get_value-set_value}
use grafted.Loader.Memory.{Memory}

program : Unit {0}
unfolding lookup insert remove object create new_base cf_retain cf_release cf_equal cf_hash
    cf_get_type_id destructor_fits array_at retain_value push_values array_values cf_array_create
    cf_array_create_mutable cf_array_get_count cf_array_get_value_at_index cf_array_append_value
    position cf_array_get_first_index_of_value dictionary_at insert_pairs dictionary_entries
    cf_dictionary_create cf_dictionary_create_mutable release_old cf_dictionary_get_count
    cf_dictionary_get_value cf_dictionary_contains_key cf_dictionary_set_value
    cf_dictionary_remove_value bytes_from data_bytes cf_data_create cf_data_get_length
    cf_data_get_byte_ptr first_byte next_byte decode_from str_or_empty utf16_units units_of
    encode_utf16 compare_bytes string_at cf_string_create_with_c_string cf_string_create_with_bytes
    cf_string_get_length cf_string_get_c_string_ptr cf_string_get_c_string cf_string_get_characters
    cf_string_compare held refs well_typed payload_at perform owned_after IsPermitted
program = tt

-- The string at 10, and the array at 20 that holds it twice, once released by the client.
abbrev with_string : Store
with_string = (cf_string_create_with_c_string 10 [] (some (codes "hé"))).0

abbrev run : List Command → Store → Option Store
run [] st = some st
run (c ∷ cs) st = elim (perform c st) [ none ↦ none | some st1 ↦ run cs st1 ]

abbrev script : List Command
script =
    make_string 10 (codes "ab")
    ∷ (make_mutable_array 20 ∷ (append 20 10 ∷ (append 20 10 ∷ (release 10 ∷ []))))

abbrev or_empty : Option Store → Store
or_empty none = []
or_empty (some st) = st

abbrev scripted : Store
scripted = or_empty (run script [])

test_count : refs scripted 10 ≡ 2
unfolding program
test_count = refl

test_value : cf_array_get_value_at_index scripted 20 1 ≡ some 10
unfolding program
test_value = refl

-- The array is freed, but not what it held: its string keeps both references.
test_freed_array : refs (or_empty (cf_release scripted 20)) 10 ≡ 2
unfolding program
test_freed_array = refl

-- One key twice: the first value keeps the reference that was taken for it.
abbrev twice_keyed : Store
twice_keyed =
    elim (cf_dictionary_create 30 scripted (some (λ i. 5)) (some (λ i. if i == 0 then 10 else 20))
      2) [ none ↦ [] | some r ↦ r.0 ]

test_twice_keyed : (cf_dictionary_get_value twice_keyed 30 5 ≡ some 20) × (refs twice_keyed 10 ≡ 3)
unfolding program
test_twice_keyed = (refl, refl)

test_utf16 : encode_utf16 (0xf0 ∷ (0x9f ∷ (0x98 ∷ (0x80 ∷ [])))) ≡ 0xd83d ∷ (0xde00 ∷ [])
unfolding program
test_utf16 = refl

test_invalid : (decode_utf8 (0xc0 ∷ (0x80 ∷ [])) ≡ none) × (decode_utf8 (0xe2 ∷ (0x82 ∷ [])) ≡ none)
unfolding program
test_invalid = (refl, refl)

-- What the client owns after the commands of the script.
abbrev after : List Command → (ℕ → ℕ) → ℕ → ℕ
after [] owned = owned
after (c ∷ cs) owned = after cs (owned_after c owned)

abbrev owned_scripted : ℕ → ℕ
owned_scripted = after script (λ x. 0)

ten : ◌≢◌ {A = ℕ} 10 0
ten h = omega (arith, h)

twenty : ◌≢◌ {A = ℕ} 20 0
twenty h = omega (arith, h)

made :
    IsReachable
      (or_empty (run (make_string 10 (codes "ab") ∷ (make_mutable_array 20 ∷ [])) []))
      (after (make_string 10 (codes "ab") ∷ (make_mutable_array 20 ∷ [])) (λ x. 0))
unfolding program
made =
    next (make_mutable_array 20) (next (make_string 10 (codes "ab")) start (ten, refl) refl)
      (twenty, refl) refl

reached : IsReachable scripted owned_scripted
unfolding program
reached =
    next (release 10)
      (next (append 20 10)
        (next (append 20 10) made (twenty, ([], refl), (λ h. omega arith, omega arith)) refl)
        (twenty, (10 ∷ [], refl), (λ h. omega arith, omega arith)) refl)
      (ten, omega arith) refl

reachable_runs_example :
    (st1 : Store) × (perform (release 20) scripted ≡ some st1)
    × IsReachable st1 (owned_after (release 20) owned_scripted)
unfolding program
reachable_runs_example = reachable_runs (release 20) reached (twenty, omega arith)

IsReachable-IsSound_example : IsSound scripted owned_scripted
IsReachable-IsSound_example = IsReachable-IsSound reached

values_live_example : 0 < refs scripted 10
unfolding program
values_live_example = values_live 20 1 10 reached (inl refl) ten

-- The dictionary at 20, owned by the client, and the string at 10.
abbrev with_dictionary : Store
with_dictionary =
    or_empty (run (make_string 10 (codes "ab") ∷ (make_mutable_dictionary 20 ∷ [])) [])

dictionary-IsSound :
    IsSound with_dictionary
      (after (make_string 10 (codes "ab") ∷ (make_mutable_dictionary 20 ∷ [])) (λ x. 0))
unfolding program
dictionary-IsSound = IsReachable-IsSound (
    next (make_mutable_dictionary 20) (next (make_string 10 (codes "ab")) start (ten, refl) refl)
      (twenty, refl) refl)

get_value-set_value_example :
    (st1 : Store) × (cf_dictionary_set_value with_dictionary 20 5 10 ≡ some st1)
    × (cf_dictionary_get_value st1 20 5 ≡ some 10)
    × ((◌≡◌ {A = ℕ} 5 6)
        ⊎ (cf_dictionary_get_value st1 20 6 ≡ cf_dictionary_get_value with_dictionary 20 6))
unfolding program
get_value-set_value_example =
    get_value-set_value with_dictionary
      (after (make_string 10 (codes "ab") ∷ (make_mutable_dictionary 20 ∷ [])) (λ x. 0)) 20 5 10 6
      [] dictionary-IsSound (omega arith) twenty refl (λ h. omega arith, omega arith)

abbrev zeros : Memory
zeros x = 0

get_c_string_writes_example :
    (m1 : Memory) × (cf_string_get_c_string with_dictionary 10 100 2 zeros ≡ some (m1, true))
    × ((i : ℕ) → (min (2 - 1) (length (codes "ab")) ≤ i) ⊎ (m1 (100 + i) ≡ get_or (codes "ab") i 0))
    × (m1 (100 + min (2 - 1) (length (codes "ab"))) ≡ 0)
    × ((x : ℕ) → ((100 ≤ x) × (x < 100 + 2)) ⊎ (m1 x ≡ zeros x))
unfolding program
get_c_string_writes_example =
    get_c_string_writes with_dictionary 10 100 2 zeros (codes "ab") ten (λ h. omega (arith, h)) refl
      refl
