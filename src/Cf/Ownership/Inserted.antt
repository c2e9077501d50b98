-- ===== src/Cf/Ownership/Inserted.antt =====
-- The changes of crates/grafted-frameworks/src/cf/dictionary.rs keep the counts true.
use grafted.Base.{
  ℕ, zero, suc, ◌+◌, ◌<◌, ◌≡◌, ◌≢◌, refl, ◌∙◌, [], none, some, nat_eq, Bool-cases, inl, inr, arith,
}
use grafted.Cf.{
  cf_dictionary, Object, Store, write, create, destructor_fits, cf_dictionary_type_id, is_positive,
}
use grafted.Base.Assoc.{Map, lookup, insert, remove}
use grafted.Cf.Arrays.{PointerArray, retain_value}
use grafted.Cf.Dictionaries.{
  dictionary_at, insert_pairs, dictionary_entries, cf_dictionary_create, release_old,
  cf_dictionary_set_value, cf_dictionary_remove_value,
}
use grafted.Cf.Ownership.Released.{payload_at_self, release_old-IsSound}
use grafted.Cf.Ownership.Appended.{AreUsable}
use grafted.Cf.Ownership.{IsSound, holds, refs, more, count_values}
use grafted.Cf.Ownership.Counts.{
  payload_at, IsUsable, IsSound-le, retain_value-IsSound, create-IsSound,
}
use grafted.Cf.Ownership.Values.{
  old_count, count_values-insert, count_values-remove-le, object_of_payload, dictionary_at_payload,
  write_payload, no_object,
}

set_value_runs :
    (st : Store) (dict key v : ℕ) (m : Map ℕ ℕ) (o : Object) (st1 st2 : Store)
    → dict ≢ 0
    → retain_value st v ≡ some st1
    → dictionary_at st1 dict ≡ some (o, m)
    → release_old
        (write st1 dict (record o { payload = cf_dictionary (insert m key v) }))
        (lookup m key)
      ≡ some st2
    → cf_dictionary_set_value st dict key v ≡ some st2
unfolding cf_dictionary_set_value
set_value_runs st dict key v m o st1 st2 present r d e =
    rw (r, cf_dictionary_set_value) (rw d (ground (arith, present, e)))

remove_value_runs :
    (st : Store) (dict key : ℕ) (m : Map ℕ ℕ) (o : Object) (st1 : Store)
    → dict ≢ 0
    → dictionary_at st dict ≡ some (o, m)
    → release_old
        (write st dict (record o { payload = cf_dictionary (remove m key) }))
        (lookup m key)
      ≡ some st1
    → cf_dictionary_remove_value st dict key ≡ some st1
unfolding cf_dictionary_remove_value
remove_value_runs st dict key m o st1 present d e =
    rw (d, cf_dictionary_remove_value) (ground (arith, present, e))

pub set_value-IsSound :
    (st : Store) (owned : ℕ → ℕ) (dict key v : ℕ) (m : Map ℕ ℕ)
    → IsSound st owned
    → dict ≢ 0
    → payload_at st dict ≡ some (cf_dictionary m)
    → IsUsable st v
    → (st1 : Store) × (cf_dictionary_set_value st dict key v ≡ some st1)
      × IsSound st1 owned
      × (0 < refs st1 dict → payload_at st1 dict ≡ some (cf_dictionary (insert m key v)))
unfolding holds destructor_fits
set_value-IsSound st owned dict key v m sound present there usable =
    let (st1, r, s, q, p) = retain_value-IsSound st owned v sound usable in
    let (o, h, e) = object_of_payload st1 dict (cf_dictionary m) (p dict ∙ there) in
    let m1 : Map ℕ ℕ = insert m key v in
    let written =
      write_payload st1 (more owned v) (λ x. old_count (lookup m key) x + owned x) dict o
        (cf_dictionary m) (cf_dictionary m1) s h e (λ id. refl)
        (λ x. omega (arith, count_values-insert m key v x)) in
    let (st2, e2, s2, p2) =
      release_old-IsSound (write st1 dict (record o { payload = cf_dictionary m1 })) owned
        (lookup m key) written in
    (
      st2,
      set_value_runs st dict key v m o st1 st2 present r (dictionary_at_payload st1 dict o m h e)
          e2,
      s2,
      λ live. p2 dict live ∙ payload_at_self st1 dict (record o { payload = cf_dictionary m1 }),
    )

pub remove_value-IsSound :
    (st : Store) (owned : ℕ → ℕ) (dict key : ℕ) (m : Map ℕ ℕ)
    → IsSound st owned
    → dict ≢ 0
    → payload_at st dict ≡ some (cf_dictionary m)
    → (st1 : Store) × (cf_dictionary_remove_value st dict key ≡ some st1)
      × IsSound st1 owned
      × (0 < refs st1 dict → payload_at st1 dict ≡ some (cf_dictionary (remove m key)))
unfolding holds destructor_fits
remove_value-IsSound st owned dict key m sound present there =
    let (o, h, e) = object_of_payload st dict (cf_dictionary m) there in
    let m1 : Map ℕ ℕ = remove m key in
    let written =
      write_payload st owned (λ x. old_count (lookup m key) x + owned x) dict o (cf_dictionary m)
        (cf_dictionary m1) sound h e (λ id. refl)
        (λ x. omega (arith, count_values-remove-le m key x)) in
    let (st2, e2, s2, p2) =
      release_old-IsSound (write st dict (record o { payload = cf_dictionary m1 })) owned
        (lookup m key) written in
    (
      st2,
      remove_value_runs st dict key m o st2 present (dictionary_at_payload st dict o m h e) e2,
      s2,
      λ live. p2 dict live ∙ payload_at_self st dict (record o { payload = cf_dictionary m1 }),
    )

insert_pairs-suc :
    (n : ℕ) (keys values : ℕ → ℕ) (i : ℕ) (st : Store) (m : Map ℕ ℕ) (st1 : Store)
    → retain_value st (values i) ≡ some st1
    → insert_pairs keys values i (suc n) st m
      ≡ insert_pairs keys values (suc i) n st1 (insert m (keys i) (values i))
unfolding insert_pairs
insert_pairs-suc n keys values i st m st1 r = rw (r, insert_pairs) refl

pub insert_pairs-IsSound :
    (n : ℕ) (keys values : ℕ → ℕ) (i : ℕ) (st : Store) (m : Map ℕ ℕ) (owned : ℕ → ℕ)
    → IsSound st (λ x. count_values m x + owned x)
    → AreUsable st values n
    → (r : Store × Map ℕ ℕ) × (insert_pairs keys values i n st m ≡ some r)
      × IsSound r.0 (λ x. count_values r.1 x + owned x)
      × ((x : ℕ) → payload_at r.0 x ≡ payload_at st x)
unfolding insert_pairs
insert_pairs-IsSound zero keys values i st m owned sound usable = ((st, m), refl, sound, λ x. refl)
insert_pairs-IsSound (suc n) keys values i st m owned sound (live, room) =
    let (st1, r, s, q, p) =
      retain_value-IsSound st (λ x. count_values m x + owned x) (values i) sound
        (live i, omega (arith, room (values i))) in
    let m1 : Map ℕ ℕ = insert m (keys i) (values i) in
    let (r2, e2, s2, p2) =
      insert_pairs-IsSound n keys values (suc i) st1 m1 owned
        (IsSound-le st1 (more (λ x. count_values m x + owned x) (values i))
          (λ x. count_values m1 x + owned x) s
          (λ x h. omega (arith, count_values-insert m (keys i) (values i) x)))
        (λ j h. omega (arith, live j h, (q (values j)).0), λ x. omega (arith, room x, (q x).1)) in
    (r2, insert_pairs-suc n keys values i st m st1 r ∙ e2, s2, λ x. p2 x ∙ p x)

dictionary_create_runs :
    (fresh : ℕ) (st : Store) (keys values : PointerArray) (num : ℕ) (r : Store × Map ℕ ℕ)
    → dictionary_entries keys values num st ≡ some r
    → cf_dictionary_create fresh st keys values num
      ≡ some (create r.0 fresh cf_dictionary_type_id (cf_dictionary r.1))
unfolding cf_dictionary_create
dictionary_create_runs fresh st keys values num r e = rw (e, cf_dictionary_create) refl

holding_none :
    (st : Store) (owned : ℕ → ℕ) → IsSound st owned → IsSound st (λ x. count_values [] x + owned x)
holding_none st owned sound =
    IsSound-le st owned (λ x. count_values [] x + owned x) sound (λ x h. omega arith)

pub dictionary_entries-IsSound :
    (keys values : PointerArray) (num : ℕ) (st : Store) (owned : ℕ → ℕ)
    → IsSound st owned
    → ((f : ℕ → ℕ) → values ≡ some f → AreUsable st f num)
    → (r : Store × Map ℕ ℕ) × (dictionary_entries keys values num st ≡ some r)
      × IsSound r.0 (λ x. count_values r.1 x + owned x)
      × ((x : ℕ) → payload_at r.0 x ≡ payload_at st x)
unfolding dictionary_entries
dictionary_entries-IsSound none values num st owned sound usable =
    ((st, []), refl, holding_none st owned sound, λ x. refl)
dictionary_entries-IsSound (some k) none num st owned sound usable =
    ((st, []), refl, holding_none st owned sound, λ x. refl)
dictionary_entries-IsSound (some k) (some f) num st owned sound usable =
    elim (Bool-cases (is_positive num)) [
      | inl h ↦
          let (r, e, s, p) =
            insert_pairs-IsSound num k f 0 st [] owned (holding_none st owned sound)
              (usable f refl) in
          (r, rw h e, s, p)
      | inr h ↦ ((st, []), rw h refl, holding_none st owned sound, λ x. refl)
    ]

-- A dictionary that is made holds at most what it retained, and the client owns it.
pub dictionary_create-IsSound :
    (fresh : ℕ) (st : Store) (owned : ℕ → ℕ) (keys values : PointerArray) (num : ℕ)
    → IsSound st owned
    → fresh ≢ 0
    → payload_at st fresh ≡ none
    → ((f : ℕ → ℕ) → values ≡ some f → AreUsable st f num)
    → (r : Store × ℕ) × (cf_dictionary_create fresh st keys values num ≡ some r)
      × IsSound r.0 (more owned fresh)
unfolding holds destructor_fits
dictionary_create-IsSound fresh st owned keys values num sound present free usable =
    let (r, e, s, p) = dictionary_entries-IsSound keys values num st owned sound usable in
    (
      create r.0 fresh cf_dictionary_type_id (cf_dictionary r.1),
      dictionary_create_runs fresh st keys values num r e,
      create-IsSound r.0 owned fresh cf_dictionary_type_id (cf_dictionary r.1) s present
          (no_object r.0 fresh (p fresh ∙ free)) refl,
    )
