-- ===== src/Cf/Ownership/Appended.antt =====
-- The changes of crates/grafted-frameworks/src/cf/array.rs keep the counts true.
use grafted.Base.{
  ℕ, zero, suc, ◌+◌, ◌^◌, ◌<◌, ◌≡◌, ◌≢◌, refl, ◌∙◌, List, [], ◌∷◌, ◌++◌, none, some, nat_eq,
  Bool-cases, inl, inr, arith,
}
use grafted.Cf.{cf_array, Store, write, create, destructor_fits, cf_array_type_id, is_positive}
use grafted.Cf.Arrays.{
  PointerArray, retain_value, push_values, array_values, cf_array_create, cf_array_append_value,
}
use grafted.Cf.Ownership.{IsSound, holds, refs, more, count}
use grafted.Cf.Ownership.Counts.{
  payload_at, IsUsable, IsSound-le, retain_value-IsSound, create-IsSound,
}
use grafted.Cf.Ownership.Values.{
  count-append, object_of_payload, array_at_payload, write_payload, no_object,
}

pub append-IsSound :
    (st : Store) (owned : ℕ → ℕ) (arr v : ℕ) (vs : List ℕ)
    → IsSound st owned
    → arr ≢ 0
    → payload_at st arr ≡ some (cf_array vs)
    → IsUsable st v
    → (st1 : Store) × (cf_array_append_value st arr v ≡ some st1) × IsSound st1 owned
unfolding cf_array_append_value holds destructor_fits
append-IsSound st owned arr v vs sound present there usable =
    let (st1, r, s, q, p) = retain_value-IsSound st owned v sound usable in
    let (o, h, e) = object_of_payload st1 arr (cf_array vs) (p arr ∙ there) in
    (
      write st1 arr (record o { payload = cf_array (vs ++ v ∷ []) }),
      rw r (rw (array_at_payload st1 arr o vs h e) (ground (arith, present))),
      write_payload st1 (more owned v) owned arr o (cf_array vs) (cf_array (vs ++ v ∷ [])) s h e
          (λ id. refl) (λ x. omega (arith, count-append vs v x)),
    )

-- The pointers that are passed may be passed as values `n` times.
abbrev pub AreUsable : Store → (ℕ → ℕ) → ℕ → Type 0
AreUsable st values n =
    ((i : ℕ) → values i ≢ 0 → 0 < refs st (values i)) × ((x : ℕ) → refs st x + n < 2 ^ 32)

push_values-suc :
    (n : ℕ) (values : ℕ → ℕ) (i : ℕ) (st : Store) (vec : List ℕ) (st1 : Store)
    → retain_value st (values i) ≡ some st1
    → push_values values i (suc n) st vec ≡ push_values values (suc i) n st1 (vec ++ values i ∷ [])
unfolding push_values
push_values-suc n values i st vec st1 r = rw (r, push_values) refl

pub push_values-IsSound :
    (n : ℕ) (values : ℕ → ℕ) (i : ℕ) (st : Store) (vec : List ℕ) (owned : ℕ → ℕ)
    → IsSound st (λ x. count vec x + owned x)
    → AreUsable st values n
    → (r : Store × List ℕ) × (push_values values i n st vec ≡ some r)
      × IsSound r.0 (λ x. count r.1 x + owned x)
      × ((x : ℕ) → payload_at r.0 x ≡ payload_at st x)
unfolding push_values
push_values-IsSound zero values i st vec owned sound usable = ((st, vec), refl, sound, λ x. refl)
push_values-IsSound (suc n) values i st vec owned sound (live, room) =
    let (st1, r, s, q, p) =
      retain_value-IsSound st (λ x. count vec x + owned x) (values i) sound
        (live i, omega (arith, room (values i))) in
    let (r2, e2, s2, p2) =
      push_values-IsSound n values (suc i) st1 (vec ++ values i ∷ []) owned
        (IsSound-le st1 (more (λ x. count vec x + owned x) (values i))
          (λ x. count (vec ++ values i ∷ []) x + owned x) s
          (λ x h. omega (arith, count-append vec (values i) x)))
        (λ j h. omega (arith, live j h, (q (values j)).0), λ x. omega (arith, room x, (q x).1)) in
    (r2, push_values-suc n values i st vec st1 r ∙ e2, s2, λ x. p2 x ∙ p x)

holding_none :
    (st : Store) (owned : ℕ → ℕ) → IsSound st owned → IsSound st (λ x. count [] x + owned x)
holding_none st owned sound =
    IsSound-le st owned (λ x. count [] x + owned x) sound (λ x h. omega arith)

-- The values that `CFArrayCreate` copies, and the references that it takes for them.
pub array_values-IsSound :
    (values : PointerArray) (num : ℕ) (st : Store) (owned : ℕ → ℕ)
    → IsSound st owned
    → ((f : ℕ → ℕ) → values ≡ some f → AreUsable st f num)
    → (r : Store × List ℕ) × (array_values values num st ≡ some r)
      × IsSound r.0 (λ x. count r.1 x + owned x)
      × ((x : ℕ) → payload_at r.0 x ≡ payload_at st x)
unfolding array_values
array_values-IsSound none num st owned sound usable =
    ((st, []), refl, holding_none st owned sound, λ x. refl)
array_values-IsSound (some f) num st owned sound usable = elim (Bool-cases (is_positive num)) [
  | inl h ↦
      let (r, e, s, p) =
        push_values-IsSound num f 0 st [] owned (holding_none st owned sound) (usable f refl) in
      (r, rw h e, s, p)
  | inr h ↦ ((st, []), rw h refl, holding_none st owned sound, λ x. refl)
]

array_create_runs :
    (fresh : ℕ) (st : Store) (values : PointerArray) (num : ℕ) (r : Store × List ℕ)
    → array_values values num st ≡ some r
    → cf_array_create fresh st values num ≡ some (create r.0 fresh cf_array_type_id (cf_array r.1))
unfolding cf_array_create
array_create_runs fresh st values num r e = rw (e, cf_array_create) refl

-- An array that is made holds what it retained, and the client owns it.
pub array_create-IsSound :
    (fresh : ℕ) (st : Store) (owned : ℕ → ℕ) (values : PointerArray) (num : ℕ)
    → IsSound st owned
    → fresh ≢ 0
    → payload_at st fresh ≡ none
    → ((f : ℕ → ℕ) → values ≡ some f → AreUsable st f num)
    → (r : Store × ℕ) × (cf_array_create fresh st values num ≡ some r)
      × IsSound r.0 (more owned fresh)
unfolding holds destructor_fits
array_create-IsSound fresh st owned values num sound present free usable =
    let (r, e, s, p) = array_values-IsSound values num st owned sound usable in
    (
      create r.0 fresh cf_array_type_id (cf_array r.1),
      array_create_runs fresh st values num r e,
      create-IsSound r.0 owned fresh cf_array_type_id (cf_array r.1) s present
          (no_object r.0 fresh (p fresh ∙ free)) refl,
    )
