-- ===== src/Cf/Ownership/Released.antt =====
-- What is left after a release of crates/grafted-frameworks/src/cf/types.rs and dictionary.rs.
use grafted.Base.{
  ℕ, ◌+◌, ◌<◌, ◌≡◌, ◌≢◌, refl, ◌∙◌, sym, ap, Option, none, some, ◌==◌, nat_eq, if◌then◌else◌,
  Bool-cases, inl, inr, arith,
}
use grafted.Base.Assoc.{insert}
use grafted.Cf.{Object, Store, object, write, cf_release, release_base}
use grafted.Cf.Dictionaries.{release_old}
use grafted.Cf.Ownership.{
  IsSound, cell_count, refs, more, apart, refs-insert_self, object-insert_ne, object-insert_self,
}
use grafted.Cf.Ownership.Counts.{
  payload_at, payload_of, payload_at-write, live_object, typed_object, cf_release_live,
  cf_release-IsSound, IsSound-le,
}
use grafted.Cf.Ownership.Values.{old_count}

pub payload_at_self :
    (st : Store) (a : ℕ) (o : Object) → payload_at (write st a o) a ≡ some o.payload
unfolding payload_at
payload_at_self st a o = ap payload_of (object-insert_self st a (some o))

-- What is still live after a release has the payload that it had.
pub cf_release_payload :
    (st st1 : Store) (owned : ℕ → ℕ) (a x : ℕ)
    → IsSound st (more owned a)
    → a ≢ 0
    → cf_release st a ≡ some st1
    → 0 < refs st1 x
    → payload_at st1 x ≡ payload_at st x
unfolding payload_at cell_count
cf_release_payload st st1 owned a x sound present e live =
    let (o, h, n) = live_object st a (ground (arith, sound.0 a present)) in kept o h
  where
    gone : st1 ≡ insert st a none → a ≡ x → ⊥
    gone freed t = ground (
      arith,
      live,
      ap (λ s. refs s x) freed,
      ap (refs (insert st a none)) t,
      refs-insert_self st a none,
    )

    kept : (o : Object) → object st a ≡ some o → payload_at st1 x ≡ payload_at st x
    kept o h =
        let o1 : Object = record o { base = (release_base o.base).0 } in
        let runs = cf_release_live st a o present h (typed_object st (more owned a) a o sound h) in
        let same : st1 ≡ (if o.base.refcount == 1 then insert st a none else write st a o1) =
          let w = sym e ∙ runs in cc in
        elim (Bool-cases (o.base.refcount == 1)) [
          | inl one ↦
              let freed : st1 ≡ insert st a none = same ∙ rw one refl in
              let ne : a ≢ x = λ t. absurd (gone freed t) in
              ap (λ s. payload_at s x) freed ∙ ap payload_of (object-insert_ne st a x none ne)
          | inr more ↦
              ap (λ s. payload_at s x) (same ∙ rw more refl) ∙ payload_at-write st a x o o1 h refl
        ]

-- What a map gave back is released by the client's reference to it.
pub release_old-IsSound :
    (st : Store) (owned : ℕ → ℕ) (old : Option ℕ)
    → IsSound st (λ x. old_count old x + owned x)
    → (st1 : Store) × (release_old st old ≡ some st1)
      × IsSound st1 owned
      × ((x : ℕ) → 0 < refs st1 x → payload_at st1 x ≡ payload_at st x)
unfolding release_old
release_old-IsSound st owned none sound = (
  st,
  refl,
  IsSound-le st (λ x. old_count none x + owned x) owned sound (λ x h. omega arith),
  λ x h. refl,
)
release_old-IsSound st owned (some v) sound = elim (Bool-cases (v == 0)) [
  | inl z ↦ (
    st,
    rw z refl,
    IsSound-le st (λ x. old_count (some v) x + owned x) owned sound (λ x h. omega arith),
    λ x h. refl,
  )
  | inr z ↦
      let (st1, e, s) = cf_release-IsSound st owned v sound (apart v 0 z) in
      (st1, rw z e, s, λ x h. cf_release_payload st st1 owned v x sound (apart v 0 z) e h)
]
