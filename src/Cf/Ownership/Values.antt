-- ===== src/Cf/Ownership/Values.antt =====
-- The containers of crates/grafted-frameworks/src/cf/array.rs and dictionary.rs hold the references
-- that they take: how often a pointer is among their values before and after a change.
use grafted.Base.{
  ℕ, ◌+◌, ◌≤◌, ◌≡◌, ◌∙◌, sym, ap, List, [], ◌∷◌, ◌++◌, Option, none, some, ◌==◌, nat_eq,
  if◌then◌else◌, Option-cases, inl, inr, arith,
}
use grafted.Base.Assoc.{Map, lookup, insert, remove}
use grafted.Cf.{
  Payload, cf_array, cf_dictionary, Object, Store, object, write, destructor_fits, type_id,
}
use grafted.Cf.Arrays.{array_at, values_of}
use grafted.Cf.Dictionaries.{dictionary_at, entries_of}
use grafted.Cf.Ownership.{count, count_values, IsSound, holds, well_typed}
use grafted.Cf.Ownership.Counts.{payload_at, payload_of, overwrite_object, typed_object}

-- What `HashMap::insert` or `remove` gives back, as references.
abbrev pub old_count : Option ℕ → ℕ → ℕ
old_count none x = 0
old_count (some v) x = if v == x then 1 else 0

pub count-append :
    (vs : List ℕ) (v x : ℕ) → count (vs ++ v ∷ []) x ≡ (if v == x then 1 else 0) + count vs x
count-append [] v x = ground arith
count-append (w ∷ vs) v x = ground (arith, count-append vs v x)

pub count_values-insert :
    (m : Map ℕ ℕ) (k v x : ℕ)
    → count_values (insert m k v) x + old_count (lookup m k) x
      ≡ (if v == x then 1 else 0) + count_values m x
unfolding lookup insert
count_values-insert [] k v x = ground arith
count_values-insert ((j, w) ∷ m) k v x = ground (arith, count_values-insert m k v x)

pub count_values-remove-le :
    (m : Map ℕ ℕ) (k x : ℕ)
    → count_values (remove m k) x + old_count (lookup m k) x ≤ count_values m x
unfolding lookup remove
count_values-remove-le [] k x = ground arith
count_values-remove-le ((j, w) ∷ m) k x = ground (arith, count_values-remove-le m k x)

pub no_object : (st : Store) (a : ℕ) → payload_at st a ≡ none → object st a ≡ none
unfolding payload_at
no_object st a h = elim (Option-cases (object st a)) [
  | inl e ↦ e
  | inr (o, e) ↦ absurd (let bad = sym (ap payload_of e) ∙ h in cc)
]

-- A payload that is there, as the containers read it.
pub object_of_payload :
    (st : Store) (a : ℕ) (p : Payload)
    → payload_at st a ≡ some p
    → (o : Object) × (object st a ≡ some o) × (o.payload ≡ p)
unfolding payload_at
object_of_payload st a p h = elim (Option-cases (object st a)) [
  | inl e ↦ absurd (let bad = sym (ap payload_of e) ∙ h in cc)
  | inr (o, e) ↦ (o, e, let same = sym (ap payload_of e) ∙ h in cc)
]

abbrev with_object : {A : Type 0} → Object → Option A → Option (Object × A)
with_object o none = none
with_object o (some x) = some (o, x)

pub array_at_payload :
    (st : Store) (a : ℕ) (o : Object) (vs : List ℕ)
    → object st a ≡ some o
    → o.payload ≡ cf_array vs
    → array_at st a ≡ some (o, vs)
unfolding array_at
array_at_payload st a o vs e h = rw (e, array_at) (ap (with_object o) (ap values_of h))

pub dictionary_at_payload :
    (st : Store) (a : ℕ) (o : Object) (m : Map ℕ ℕ)
    → object st a ≡ some o
    → o.payload ≡ cf_dictionary m
    → dictionary_at st a ≡ some (o, m)
unfolding dictionary_at
dictionary_at_payload st a o m e h = rw (e, dictionary_at) (ap (with_object o) (ap entries_of h))

-- A payload that is written over one of the same type: the client pays for its new references.
pub write_payload :
    (st : Store) (owned after : ℕ → ℕ) (a : ℕ) (o : Object) (p p1 : Payload)
    → IsSound st owned
    → object st a ≡ some o
    → o.payload ≡ p
    → ((id : ℕ) → destructor_fits id p1 ≡ destructor_fits id p)
    → ((x : ℕ) → holds p1 x + after x ≤ holds p x + owned x)
    → IsSound (write st a (record o { payload = p1 })) after
unfolding well_typed
write_payload st owned after a o p p1 sound h e same pays =
    overwrite_object st owned after a o (record o { payload = p1 }) sound h
      (rw (same (type_id o.base)) (rw (← e) (typed_object st owned a o sound h)))
      (λ x ne. rw e (pays x)) (ground (arith, pays a, ap (λ p. holds p a) e))
