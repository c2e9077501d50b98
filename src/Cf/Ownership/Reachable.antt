-- ===== src/Cf/Ownership/Reachable.antt =====
-- The heaps of crates/grafted-frameworks/src/cf that well-behaved clients reach.
use grafted.Base.{
  ℕ, zero, suc, ◌≤◌, ◌<◌, ◌≡◌, ◌≢◌, refl, ◌∙◌, sym, ap, List, [], ◌∷◌, none, some, ◌==◌, nat_eq,
  get_or, Option-cases, Bool-cases, inl, inr, arith, ◌⊎◌,
}
use mathlib.Core.Path.{subst}
use grafted.Base.Assoc.{Map, lookup}
use grafted.Cf.{
  Payload, cf_array, cf_dictionary, cf_string, cf_data, cf_base, Object, Store, object,
}
use grafted.Cf.Arrays.{array_at, array_of, values_of, cf_array_get_value_at_index}
use grafted.Cf.Dictionaries.{dictionary_at, dictionary_of, entries_of, cf_dictionary_get_value}
use grafted.Cf.Ownership.{count, count_values, holds, cell_holds, held, refs, IsSound, well_typed}
use grafted.Cf.Ownership.Clients.{Command, perform, owned_after, IsPermitted, perform-IsSound}

-- From the empty heap by commands that may be given.
pub data IsReachable : Store → (ℕ → ℕ) → Type 0 where
  start : IsReachable [] (λ x. 0)
  next :
      {st st1 : Store} {owned : ℕ → ℕ} (c : Command)
      → IsReachable st owned
      → IsPermitted c st owned
      → perform c st ≡ some st1
      → IsReachable st1 (owned_after c owned)

-- In a heap that was reached, the count of each address is at least the number of references that
-- containers hold and the client owns, every count is below 2 ^ 32, and every object has the payload
-- of its type id.
pub IsReachable-IsSound : {st : Store} {owned : ℕ → ℕ} → IsReachable st owned → IsSound st owned
unfolding held object lookup well_typed
IsReachable-IsSound start = (λ a h. omega arith, λ a. refl)
IsReachable-IsSound (next {st} {st1} {owned} c before permitted runs) =
    let (st2, e, s) = perform-IsSound c st owned (IsReachable-IsSound before) permitted in
    subst (λ (st1 : Store). IsSound st1 (owned_after c owned)) (let same = sym e ∙ runs in cc) s

-- In a heap that was reached, every command that may be given runs, without touching an object that
-- was freed or that has another type, and it leads to a heap that was reached.
pub reachable_runs :
    {st : Store} {owned : ℕ → ℕ} (c : Command)
    → IsReachable st owned
    → IsPermitted c st owned
    → (st1 : Store) × (perform c st ≡ some st1) × IsReachable st1 (owned_after c owned)
reachable_runs {st} {owned} c reached permitted =
    let (st1, e, s) = perform-IsSound c st owned (IsReachable-IsSound reached) permitted in
    (st1, e, next c reached permitted e)

-- What a live object holds.
held_by : (st : Store) (a x : ℕ) → cell_holds (object st a) x ≤ held st x
unfolding held object lookup
held_by [] a x = omega arith
held_by ((b, c) ∷ st) a x = ground (arith, held_by st a x)

count-get_or : (vs : List ℕ) (i : ℕ) → get_or vs i 0 ≢ 0 → 0 < count vs (get_or vs i 0)
count-get_or [] i h = absurd (h refl)
count-get_or (v ∷ vs) zero h = ground arith
count-get_or (v ∷ vs) (suc i) h = omega (arith, count-get_or vs i h)

count_values-lookup : (m : Map ℕ ℕ) (k v : ℕ) → lookup m k ≡ some v → 0 < count_values m v
unfolding lookup
count_values-lookup [] k v h = absurd cc
count_values-lookup ((j, w) ∷ m) k v h = elim (Bool-cases (j == k)) [
  | inl e ↦ ground (arith, e, h)
  | inr e ↦ ground (arith, count_values-lookup m k v (rw (sym h, e) refl))
]

-- The object that a container is read from.
array_of_payload :
    (p : Payload) (o : Object) (r : Object × List ℕ)
    → elim (values_of p) [ none ↦ none | some x ↦ some (o, x) ] ≡ some r
    → (o ≡ r.0) × (p ≡ cf_array r.1)
array_of_payload (cf_array x) o r h = (cc, cc)
array_of_payload (cf_dictionary x) o r h = absurd cc
array_of_payload (cf_string x) o r h = absurd cc
array_of_payload (cf_data x) o r h = absurd cc
array_of_payload cf_base o r h = absurd cc

array_at_object :
    (st : Store) (a : ℕ) (r : Object × List ℕ)
    → array_at st a ≡ some r
    → (object st a ≡ some r.0) × (r.0.payload ≡ cf_array r.1)
unfolding array_at
array_at_object st a r h = elim (Option-cases (object st a)) [
  | inl e ↦ absurd (let bad = sym (ap array_of e) ∙ h in cc)
  | inr (o, e) ↦
      let (same, p) = array_of_payload o.payload o r (sym (ap array_of e) ∙ h) in
      (e ∙ ap some same, ap (λ o. o.payload) (sym same) ∙ p)
]

dictionary_of_payload :
    (p : Payload) (o : Object) (r : Object × Map ℕ ℕ)
    → elim (entries_of p) [ none ↦ none | some x ↦ some (o, x) ] ≡ some r
    → (o ≡ r.0) × (p ≡ cf_dictionary r.1)
dictionary_of_payload (cf_array x) o r h = absurd cc
dictionary_of_payload (cf_dictionary x) o r h = (cc, cc)
dictionary_of_payload (cf_string x) o r h = absurd cc
dictionary_of_payload (cf_data x) o r h = absurd cc
dictionary_of_payload cf_base o r h = absurd cc

dictionary_at_object :
    (st : Store) (a : ℕ) (r : Object × Map ℕ ℕ)
    → dictionary_at st a ≡ some r
    → (object st a ≡ some r.0) × (r.0.payload ≡ cf_dictionary r.1)
unfolding dictionary_at
dictionary_at_object st a r h = elim (Option-cases (object st a)) [
  | inl e ↦ absurd (let bad = sym (ap dictionary_of e) ∙ h in cc)
  | inr (o, e) ↦
      let (same, p) = dictionary_of_payload o.payload o r (sym (ap dictionary_of e) ∙ h) in
      (e ∙ ap some same, ap (λ o. o.payload) (sym same) ∙ p)
]

holder_live :
    {st : Store} {owned : ℕ → ℕ} (a v : ℕ) (o : Object)
    → IsReachable st owned
    → object st a ≡ some o
    → 0 < holds o.payload v
    → v ≢ 0
    → 0 < refs st v
unfolding cell_holds
holder_live {st} a v o reached h holding present =
    ground
      (arith, (IsReachable-IsSound reached).0 v present, held_by st a v, ap (λ c. cell_holds c v) h)

array_value_live :
    {st : Store} {owned : ℕ → ℕ} (arr idx v : ℕ)
    → IsReachable st owned
    → cf_array_get_value_at_index st arr idx ≡ some v
    → v ≢ 0
    → 0 < refs st v
unfolding cf_array_get_value_at_index holds
array_value_live {st} arr idx v reached h present = elim (Option-cases (array_at st arr)) [
  | inl e ↦ absurd (present (ground (arith, h, e)))
  | inr ((o, vs), e) ↦
      let (at, p) = array_at_object st arr (o, vs) e in
      let same : get_or vs idx 0 ≡ v = ground (arith, h, e, present) in
      holder_live arr v o reached at
        (ground
          (arith, ap (λ p. holds p v) p, ap (count vs) same, count-get_or vs idx, present, same))
        present
]

dictionary_value_live :
    {st : Store} {owned : ℕ → ℕ} (dict key v : ℕ)
    → IsReachable st owned
    → cf_dictionary_get_value st dict key ≡ some v
    → v ≢ 0
    → 0 < refs st v
unfolding cf_dictionary_get_value holds
dictionary_value_live {st} dict key v reached h present =
    elim (Option-cases (dictionary_at st dict)) [
      | inl e ↦ absurd (present (ground (arith, h, e)))
      | inr ((o, m), e) ↦
          let (at, p) = dictionary_at_object st dict (o, m) e in
          let same : lookup m key ≡ some v = ground (arith, h, e, present) in
          holder_live dict v o reached at
            (ground (arith, ap (λ p. holds p v) p, count_values-lookup m key v same)) present
    ]

-- In a heap that was reached, what an array or a dictionary gives out is null or a live object.
pub values_live :
    {st : Store} {owned : ℕ → ℕ} (container i v : ℕ)
    → IsReachable st owned
    → (cf_array_get_value_at_index st container i ≡ some v)
      ⊎ (cf_dictionary_get_value st container i ≡ some v)
    → v ≢ 0
    → 0 < refs st v
values_live container i v reached (inl h) = array_value_live container i v reached h
values_live container i v reached (inr h) = dictionary_value_live container i v reached h
