-- ===== src/Cf/Ownership/Counts.antt =====
-- Retaining, releasing and creating keep the counts of crates/grafted-frameworks/src/cf/types.rs true.
use grafted.Base.{
  ℕ, ◌+◌, ◌%◌, ◌^◌, ◌≤◌, ◌<◌, ◌≡◌, ◌≢◌, refl, ◌∙◌, true, false, Option, none, some, ◌==◌, nat_eq,
  if◌then◌else◌, inl, inr, Bool-cases, Option-cases, arith, nat_beq_iff, sym, ap,
}
use mathlib.Core.Path.{subst}
use grafted.Cf.{
  Payload, Object, Store, object, write, create, new_base, destructor_fits, cf_retain, cf_release,
  retain_base, release_base,
}
use grafted.Base.Assoc.{insert}
use grafted.Cf.Arrays.{retain_value}
use grafted.Cf.Ownership.{
  holds, cell_holds, cell_count, refs, well_typed, IsSound, more, object-insert_self,
  object-insert_ne, refs-insert_self, refs-insert_ne, apart, overwrite,
}

pub live_object :
    (st : Store) (a : ℕ)
    → 0 < refs st a
    → (o : Object) × (object st a ≡ some o) × (refs st a ≡ o.base.refcount)
unfolding refs cell_count
live_object st a live = elim (Option-cases (object st a)) [
  | inl h ↦ absurd (omega (arith, ap cell_count h))
  | inr (o, h) ↦ (o, h, ap cell_count h)
]

cf_retain_live :
    (st : Store) (a : ℕ) (o : Object)
    → a ≢ 0
    → object st a ≡ some o
    → cf_retain st a ≡ some (write st a (record o { base = retain_base o.base }), a)
unfolding cf_retain
cf_retain_live st a o present h = rw h (ground (arith, present))

pub cf_release_live :
    (st : Store) (a : ℕ) (o : Object)
    → a ≢ 0
    → object st a ≡ some o
    → well_typed (some o) ≡ true
    → cf_release st a
      ≡ some (
          if o.base.refcount == 1
          then insert st a none
          else write st a (record o { base = (release_base o.base).0 }))
unfolding cf_release well_typed
cf_release_live st a o present h typed = rw h (ground (arith, present, typed))

pub typed_object :
    (st : Store) (owned : ℕ → ℕ) (a : ℕ) (o : Object)
    → IsSound st owned
    → object st a ≡ some o
    → well_typed (some o) ≡ true
typed_object st owned a o sound h = subst (λ (c : Option Object). well_typed c ≡ true) h (sound.1 a)

-- The same for an object in place of another.
pub overwrite_object :
    (st : Store) (owned after : ℕ → ℕ) (a : ℕ) (o o1 : Object)
    → IsSound st owned
    → object st a ≡ some o
    → well_typed (some o1) ≡ true
    → ((x : ℕ) → a ≢ x → holds o1.payload x + after x ≤ holds o.payload x + owned x)
    → holds o1.payload a + after a + o.base.refcount
      ≤ holds o.payload a + owned a + o1.base.refcount
    → IsSound (write st a o1) after
unfolding cell_holds refs cell_count
overwrite_object st owned after a o o1 sound h typed others self =
    overwrite st owned after a (some o1) sound typed (λ x ne. rw h (others x ne)) (rw h self)

abbrev pub payload_of : Option Object → Option Payload
payload_of none = none
payload_of (some o) = some o.payload

unfoldable pub payload_at : Store → ℕ → Option Payload
unfolding object
payload_at st a = payload_of (object st a)

pub payload_at-write :
    (st : Store) (a x : ℕ) (o o1 : Object)
    → object st a ≡ some o
    → o1.payload ≡ o.payload
    → payload_at (write st a o1) x ≡ payload_at st x
unfolding payload_at
payload_at-write st a x o o1 h e = elim (Bool-cases (a == x)) [
  | inl t ↦
      subst (λ (x : ℕ). payload_at (write st a o1) x ≡ payload_at st x) ((nat_beq_iff a x).0 t)
        (ap payload_of (object-insert_self st a (some o1)) ∙ ap some e ∙ sym (ap payload_of h))
  | inr t ↦ ap payload_of (object-insert_ne st a x (some o1) (apart a x t))
]

pub refs-write :
    (st : Store) (a x : ℕ) (o : Object)
    → refs (write st a o) x ≡ (if a == x then o.base.refcount else refs st x)
unfolding cell_count
refs-write st a x o = elim (Bool-cases (a == x)) [
  | inl e ↦ rw (sym ((nat_beq_iff a x).0 e)) (ground (arith, refs-insert_self st a (some o)))
  | inr e ↦ ground (arith, refs-insert_ne st a x (some o) (apart a x e))
]

-- The client gains a reference to a live object.
pub cf_retain-IsSound :
    (st : Store) (owned : ℕ → ℕ) (a : ℕ)
    → IsSound st owned
    → a ≢ 0
    → 0 < refs st a
    → refs st a + 1 < 2 ^ 32
    → (st1 : Store) × (cf_retain st a ≡ some (st1, a))
      × IsSound st1 (more owned a)
      × ((x : ℕ) → refs st1 x ≡ (if a == x then 1 else 0) + refs st x)
      × ((x : ℕ) → payload_at st1 x ≡ payload_at st x)
unfolding well_typed
cf_retain-IsSound st owned a sound present live fits =
    let (o, h, n) = live_object st a live in retained o h n
  where
    retained :
        (o : Object)
        → object st a ≡ some o
        → refs st a ≡ o.base.refcount
        → (st1 : Store) × (cf_retain st a ≡ some (st1, a))
          × IsSound st1 (more owned a)
          × ((x : ℕ) → refs st1 x ≡ (if a == x then 1 else 0) + refs st x)
          × ((x : ℕ) → payload_at st1 x ≡ payload_at st x)
    retained o h n =
        let o1 : Object = record o { base = retain_base o.base } in
        (
          write st a o1,
          cf_retain_live st a o present h,
          overwrite_object st owned (more owned a) a o o1 sound h
              (ground (arith, typed_object st owned a o sound h)) (λ x ne. ground (arith, ne))
              (ground arith),
          λ x. ground (arith, refs-write st a x o1, nat_beq_iff a x, ap (refs st)),
          λ x. payload_at-write st a x o o1 h refl,
        )

-- The client gives up a reference that it has; the last one frees the object.
pub cf_release-IsSound :
    (st : Store) (owned : ℕ → ℕ) (a : ℕ)
    → IsSound st (more owned a)
    → a ≢ 0
    → (st1 : Store) × (cf_release st a ≡ some st1) × IsSound st1 owned
unfolding well_typed cell_holds cell_count
cf_release-IsSound st owned a sound present =
    let (o, h, n) = live_object st a (ground (arith, sound.0 a present)) in released o h n
  where
    released :
        (o : Object)
        → object st a ≡ some o
        → refs st a ≡ o.base.refcount
        → (st1 : Store) × (cf_release st a ≡ some st1) × IsSound st1 owned
    released o h n =
        let typed = typed_object st (more owned a) a o sound h in
        let o1 : Object = record o { base = (release_base o.base).0 } in
        elim (Bool-cases (o.base.refcount == 1)) [
          | inl e ↦ (
            insert st a none,
            rw (cf_release_live st a o present h typed) (rw e refl),
            overwrite st (more owned a) owned a none sound refl (λ x ne. ground arith)
                (ground (arith, n, e)),
          )
          | inr e ↦ (
            write st a o1,
            rw (cf_release_live st a o present h typed) (rw e refl),
            overwrite_object st (more owned a) owned a o o1 sound h (ground (arith, typed))
                (λ x ne. ground (arith, ne)) (ground (arith, typed, e, n, sound.0 a present)),
          )
        ]

pub IsSound-le :
    (st : Store) (owned fewer : ℕ → ℕ)
    → IsSound st owned
    → ((x : ℕ) → x ≢ 0 → fewer x ≤ owned x)
    → IsSound st fewer
IsSound-le st owned fewer (covers, typed) le = (λ x h. omega (arith, covers x h, le x h), typed)

-- A pointer that may be passed as a value: null, or to a live object whose count has room.
abbrev pub IsUsable : Store → ℕ → Type 0
IsUsable st v = (v ≢ 0 → 0 < refs st v) × (refs st v + 1 < 2 ^ 32)

retain_value_live :
    (st : Store) (v : ℕ) (st1 : Store)
    → (v == 0) ≡ false
    → cf_retain st v ≡ some (st1, v)
    → retain_value st v ≡ some st1
unfolding retain_value
retain_value_live st v st1 z e = rw (z, e) refl

pub retain_value-IsSound :
    (st : Store) (owned : ℕ → ℕ) (v : ℕ)
    → IsSound st owned
    → IsUsable st v
    → (st1 : Store) × (retain_value st v ≡ some st1)
      × IsSound st1 (more owned v)
      × ((x : ℕ) → (refs st x ≤ refs st1 x) × (refs st1 x ≤ refs st x + 1))
      × ((x : ℕ) → payload_at st1 x ≡ payload_at st x)
unfolding retain_value
retain_value-IsSound st owned v sound (live, room) = elim (Bool-cases (v == 0)) [
  | inl z ↦ (
    st,
    rw z refl,
    IsSound-le st owned (more owned v) sound (λ x h. ground (arith, (nat_beq_iff v 0).0 z, h)),
    λ x. (omega arith, omega arith),
    λ x. refl,
  )
  | inr z ↦
      let (st1, e, s, r, p) =
        cf_retain-IsSound st owned v sound (apart v 0 z) (live (apart v 0 z)) room in
      (st1, retain_value_live st v st1 z e, s, λ x. (omega (arith, r x), ground (arith, r x)), p)
]

-- A new object's references are taken over from what the client owned.
pub create-IsSound :
    (st : Store) (owned : ℕ → ℕ) (fresh id : ℕ) (payload : Payload)
    → IsSound st (λ x. holds payload x + owned x)
    → fresh ≢ 0
    → object st fresh ≡ none
    → destructor_fits (id % 2 ^ 16) payload ≡ true
    → IsSound (create st fresh id payload).0 (more owned fresh)
unfolding create new_base cell_holds cell_count refs well_typed
create-IsSound st owned fresh id payload sound present free fits =
    overwrite st (λ x. holds payload x + owned x) (more owned fresh) fresh
      (some (record { base = new_base id; payload = payload })) sound (ground (arith, fits))
      (λ x ne. ground arith) (ground (arith, sound.0 fresh present, ap cell_count free))
