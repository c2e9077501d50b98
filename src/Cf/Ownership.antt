-- ===== src/Cf/Ownership.antt =====
-- Who holds references, for crates/grafted-frameworks/src/cf/types.rs: what the containers of a heap
-- hold, what a client holds, and when the reference counts cover both.
pub mod Counts
pub mod Values
pub mod Released
pub mod Appended
pub mod Inserted
pub mod Clients
pub mod Lookups
pub mod Reachable
use grafted.Base.{
  ℕ, zero, suc, ◌+◌, ◌-◌, ◌%◌, ◌^◌, ◌≤◌, ◌<◌, ◌≡◌, ◌≢◌, refl, ◌∙◌, Bool, true, false, not, List, [],
  ◌∷◌, ◌++◌, Option, none, some, ◌==◌, nat_eq, if◌then◌else◌, inl, inr, Bool-cases, Option-cases,
  arith, nat_beq_iff, sym, ltb, ◌&&◌, ap,
}
use mathlib.Core.Path.{subst}
use grafted.Base.Assoc.{Map, lookup, insert, lookup-insert, lookup-insert_self, lookup-insert_ne}
use grafted.Cf.{
  CfRuntimeBase, Payload, cf_array, cf_dictionary, cf_string, cf_data, cf_base, Object, Store,
  object, write, create, new_base, type_id, destructor_fits, cf_retain, cf_release, retain_base,
  release_base,
}

abbrev pub count : List ℕ → ℕ → ℕ
count [] x = 0
count (v ∷ vs) x = (if v == x then 1 else 0) + count vs x

abbrev pub count_values : Map ℕ ℕ → ℕ → ℕ
count_values [] x = 0
count_values ((k, v) ∷ m) x = (if v == x then 1 else 0) + count_values m x

-- How often a payload, a cell and all cells hold a pointer.
unfoldable pub holds : Payload → ℕ → ℕ
holds (cf_array values) x = count values x
holds (cf_dictionary entries) x = count_values entries x
holds (cf_string bytes) x = 0
holds (cf_data bytes) x = 0
holds cf_base x = 0

unfoldable pub cell_holds : Option Object → ℕ → ℕ
unfolding holds
cell_holds none x = 0
cell_holds (some o) x = holds o.payload x

unfoldable pub held : Store → ℕ → ℕ
unfolding cell_holds
held [] x = 0
held ((a, cell) ∷ st) x = cell_holds cell x + held st x

unfoldable pub cell_count : Option Object → ℕ
cell_count none = 0
cell_count (some o) = o.base.refcount

unfoldable pub refs : Store → ℕ → ℕ
unfolding object cell_count
refs st a = cell_count (object st a)

-- Freeing the object would free it as the type that it has, and its count is 32 bits.
unfoldable pub well_typed : Option Object → Bool
unfolding destructor_fits
well_typed none = true
well_typed (some o) = destructor_fits (type_id o.base) o.payload && ltb o.base.refcount (2 ^ 32)

-- The counts cover the references of containers and those that the client owns.
abbrev pub IsSound : Store → (ℕ → ℕ) → Type 0
IsSound st owned =
    ((a : ℕ) → a ≢ 0 → held st a + owned a ≤ refs st a)
    × ((a : ℕ) → well_typed (object st a) ≡ true)

-- One more reference to an address.
abbrev pub more : (ℕ → ℕ) → ℕ → ℕ → ℕ
more owned a x = (if a == x then 1 else 0) + owned x

pub object-insert_self : (st : Store) (a : ℕ) (c : Option Object) → object (insert st a c) a ≡ c
unfolding object
object-insert_self st a c = rw (lookup-insert_self st a c, object) refl

pub object-insert_ne :
    (st : Store) (a x : ℕ) (c : Option Object) → a ≢ x → object (insert st a c) x ≡ object st x
unfolding object
object-insert_ne st a x c ne = rw (lookup-insert_ne st a x c ne, object) refl

pub refs-insert_self :
    (st : Store) (a : ℕ) (c : Option Object) → refs (insert st a c) a ≡ cell_count c
unfolding refs
refs-insert_self st a c = rw (object-insert_self st a c, refs) refl

pub refs-insert_ne :
    (st : Store) (a x : ℕ) (c : Option Object) → a ≢ x → refs (insert st a c) x ≡ refs st x
unfolding refs
refs-insert_ne st a x c ne = rw (object-insert_ne st a x c ne) refl

pub apart : (a x : ℕ) → (a == x) ≡ false → a ≢ x
apart a x e h = ground (arith, h)

-- An address that is overwritten loses what it held and holds what the new cell holds.
pub held-insert :
    (st : Store) (a x : ℕ) (c : Option Object)
    → held (insert st a c) x + cell_holds (object st a) x ≡ held st x + cell_holds c x
unfolding held object lookup insert
held-insert [] a x c = ground arith
held-insert ((b, d) ∷ st) a x c = ground (arith, held-insert st a x c)

-- A cell is overwritten: what it gains in references held is what the client gives up, and its count
-- covers what it is held and owned for.
pub overwrite :
    (st : Store) (owned after : ℕ → ℕ) (a : ℕ) (c : Option Object)
    → IsSound st owned
    → well_typed c ≡ true
    → ((x : ℕ) → a ≢ x → cell_holds c x + after x ≤ cell_holds (object st a) x + owned x)
    → cell_holds c a + after a + refs st a ≤ cell_holds (object st a) a + owned a + cell_count c
    → IsSound (insert st a c) after
overwrite st owned after a c (sound, typed) ok others self = (covers, types)
  where
    covers : (x : ℕ) → x ≢ 0 → held (insert st a c) x + after x ≤ refs (insert st a c) x
    covers x h = elim (Bool-cases (a == x)) [
      | inl e ↦
          subst (λ (x : ℕ). x ≢ 0 → held (insert st a c) x + after x ≤ refs (insert st a c) x)
            ((nat_beq_iff a x).0 e)
            (λ h. omega (arith, held-insert st a a c, refs-insert_self st a c, self, sound a h)) h
      | inr e ↦ omega (
        arith,
        held-insert st a x c,
        refs-insert_ne st a x c (apart a x e),
        others x (apart a x e),
        sound x h,
      )
    ]

    types : (x : ℕ) → well_typed (object (insert st a c) x) ≡ true
    types x = elim (Bool-cases (a == x)) [
      | inl e ↦
          subst (λ (x : ℕ). well_typed (object (insert st a c) x) ≡ true) ((nat_beq_iff a x).0 e)
            (subst (λ (d : Option Object). well_typed d ≡ true) (sym (object-insert_self st a c))
              ok)
      | inr e ↦
          subst (λ (d : Option Object). well_typed d ≡ true)
            (sym (object-insert_ne st a x c (apart a x e))) (typed x)
    ]
