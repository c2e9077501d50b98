-- ===== src/Cf/Ownership/Lookups.antt =====
-- What a dictionary of crates/grafted-frameworks/src/cf/dictionary.rs gives after a change.
use grafted.Base.{
  ℕ, ◌<◌, ◌≡◌, ◌≢◌, refl, ◌∙◌, sym, none, some, ◌==◌, nat_eq, if◌then◌else◌, Bool-cases, inl, inr,
  arith, nat_beq_iff, ◌⊎◌,
}
use grafted.Base.Assoc.{
  Map, lookup, insert, remove, lookup-insert_self, lookup-insert_ne, lookup-remove,
}
use grafted.Cf.{cf_dictionary, Store}
use grafted.Cf.Dictionaries.{
  cf_dictionary_set_value, cf_dictionary_remove_value, cf_dictionary_get_value,
}
use grafted.Cf.Ownership.{IsSound, apart}
use grafted.Cf.Ownership.Counts.{payload_at, IsUsable}
use grafted.Cf.Ownership.Inserted.{set_value-IsSound, remove_value-IsSound}
use grafted.Cf.Ownership.Values.{object_of_payload, dictionary_at_payload}

dictionary_gives :
    (st : Store) (dict k : ℕ) (m : Map ℕ ℕ)
    → dict ≢ 0
    → payload_at st dict ≡ some (cf_dictionary m)
    → cf_dictionary_get_value st dict k ≡ some (elim (lookup m k) [ none ↦ 0 | some v ↦ v ])
unfolding cf_dictionary_get_value
dictionary_gives st dict k m present there =
    let (o, h, e) = object_of_payload st dict (cf_dictionary m) there in
    rw (dictionary_at_payload st dict o m h e, cf_dictionary_get_value) (ground (arith, present))

-- While the counts are true, setting a key of a dictionary that the client owns, to null or a live
-- object, succeeds; the key then gives that value, and any other key what it gave before.
pub get_value-set_value :
    (st : Store) (owned : ℕ → ℕ) (dict key v k : ℕ) (m : Map ℕ ℕ)
    → IsSound st owned
    → 0 < owned dict
    → dict ≢ 0
    → payload_at st dict ≡ some (cf_dictionary m)
    → IsUsable st v
    → (st1 : Store) × (cf_dictionary_set_value st dict key v ≡ some st1)
      × (cf_dictionary_get_value st1 dict key ≡ some v)
      × ((key ≡ k) ⊎ (cf_dictionary_get_value st1 dict k ≡ cf_dictionary_get_value st dict k))
get_value-set_value st owned dict key v k m sound mine present there usable =
    let (st1, e, s, p) = set_value-IsSound st owned dict key v m sound present there usable in
    let at = p (omega (arith, s.0 dict present, mine)) in
    (
      st1,
      e,
      dictionary_gives st1 dict key (insert m key v) present at
          ∙ rw (lookup-insert_self m key v) refl,
      elim (Bool-cases (key == k)) [
        | inl h ↦ inl ((nat_beq_iff key k).0 h)
        | inr h ↦ inr (
            dictionary_gives st1 dict k (insert m key v) present at
            ∙ rw (lookup-insert_ne m key k v (apart key k h)) refl
            ∙ sym (dictionary_gives st dict k m present there))
      ],
    )

-- A key that is removed gives null.
pub get_value-remove_value :
    (st : Store) (owned : ℕ → ℕ) (dict key k : ℕ) (m : Map ℕ ℕ)
    → IsSound st owned
    → 0 < owned dict
    → dict ≢ 0
    → payload_at st dict ≡ some (cf_dictionary m)
    → (st1 : Store) × (cf_dictionary_remove_value st dict key ≡ some st1)
      × (cf_dictionary_get_value st1 dict k
          ≡ (if key == k then some 0 else cf_dictionary_get_value st dict k))
get_value-remove_value st owned dict key k m sound mine present there =
    let (st1, e, s, p) = remove_value-IsSound st owned dict key m sound present there in
    let at = p (omega (arith, s.0 dict present, mine)) in
    (
      st1,
      e,
      dictionary_gives st1 dict k (remove m key) present at ∙ elim (Bool-cases (key == k)) [
        | inl h ↦ rw (lookup-remove m key k, h) refl
        | inr h ↦ rw (lookup-remove m key k, h) (sym (dictionary_gives st dict k m present there))
      ],
    )
