-- ===== src/RunLoop/Registry/Laws.antt =====
-- Where an item is registered after it was added or removed.
use grafted.Base.{
  ℕ, ◌≡◌, ◌≢◌, ◌∙◌, inl, inr, refl, ap, Bool, true, not, ◌&&◌, ◌||◌, List, [], ◌∷◌, ◌++◌, arith,
  ◌==◌, nat_eq, list_eq, nat_beq_iff, list_beq_iff, contains, retain, contains-append,
  contains-retain, if◌then◌else◌, Option-cases, Bool-cases,
}
use grafted.Base.Assoc.{Map, lookup, lookup-insert}
use grafted.RunLoop.Mode.{ModeName, ModePtr, Mode, RunLoop, common_modes_name, mode_name_from_ptr}
use grafted.RunLoop.Registry.{
  Slot, entry, pushed, add_to, add_to_all, remove_from, remove_from_all, has, add_item, remove_item,
}

contains_eq : (xs : List ℕ) (a x : ℕ) → (a == x) ≡ true → contains xs a ≡ contains xs x
contains_eq xs a x h = ap (contains xs) ((nat_beq_iff a x).0 h)

or_regroup : (p q e h : Bool) → ((q && e) || ((p && e) || h)) ≡ (((p || q) && e) || h)
or_regroup p q e h = ground arith

and_regroup : (p q e h : Bool) → (not (q && e) && (not (p && e) && h)) ≡ (not ((p || q) && e) && h)
and_regroup p q e h = ground arith

module _ (s : Slot) where
  open s use {items, items-put, items-new}

  contains-pushed :
      (m : Mode) (a x : ℕ) → contains (items (pushed s m a)) x ≡ ((a == x) || contains (items m) x)
  contains-pushed m a x = ground (
    arith,
    contains_eq (items m) a x,
    items-put m (items m ++ a ∷ []),
    contains-append (items m) (a ∷ []) x,
  )

  contains-retained :
      (m : Mode) (a x : ℕ)
      → contains (retain (λ y. not (y == a)) (items m)) x ≡ (not (a == x) && contains (items m) x)
  contains-retained m a x = ground (arith, contains-retain (λ y. not (y == a)) (items m) x)

  has-add_to :
      (modes : Map ModeName Mode) (name n : ModeName) (a x : ℕ)
      → has s (add_to s modes name a) n x ≡ (((name == n) && (a == x)) || has s modes n x)
  unfolding add_to entry
  has-add_to modes name n a x = ground (
    arith,
    lookup-insert modes name n (pushed s (entry modes name) a),
    list_beq_iff name n,
    contains-pushed (entry modes name) a x,
    items-new,
  )

  has-remove_from :
      (modes : Map ModeName Mode) (name n : ModeName) (a x : ℕ)
      → has s (remove_from s modes name a) n x ≡ (not ((name == n) && (a == x)) && has s modes n x)
  unfolding remove_from
  has-remove_from modes name n a x = elim (Option-cases (lookup modes name)) [
    | inl missing ↦ ground (arith, list_beq_iff name n)
    | inr (m, found) ↦
        let kept = s.put m (retain (λ y. not (y == a)) (items m)) in
        ground (
          arith,
          lookup-insert modes name n kept,
          list_beq_iff name n,
          items-put m (retain (λ y. not (y == a)) (items m)),
          contains-retained m a x,
        )
  ]

  has-add_to_all :
      (modes : Map ModeName Mode) (names : List ModeName) (n : ModeName) (a x : ℕ)
      → has s (add_to_all s modes names a) n x ≡ ((contains names n && (a == x)) || has s modes n x)
  unfolding add_to_all
  has-add_to_all modes [] n a x = refl
  has-add_to_all modes (name ∷ names) n a x =
      has-add_to_all (add_to s modes name a) names n a x
      ∙ rw (has-add_to modes name n a x)
          (or_regroup (name == n) (contains names n) (a == x) (has s modes n x))

  has-remove_from_all :
      (modes : Map ModeName Mode) (names : List ModeName) (n : ModeName) (a x : ℕ)
      → has s (remove_from_all s modes names a) n x
        ≡ (not (contains names n && (a == x)) && has s modes n x)
  unfolding remove_from_all
  has-remove_from_all modes [] n a x = refl
  has-remove_from_all modes (name ∷ names) n a x =
      has-remove_from_all (remove_from s modes name a) names n a x
      ∙ rw (has-remove_from modes name n a x)
          (and_regroup (name == n) (contains names n) (a == x) (has s modes n x))

  -- The modes that a call with this mode argument reaches: all common modes, or the one named.
  abbrev pub reaches : RunLoop → ModePtr → ModeName → Bool
  reaches rl mode n =
      if mode_name_from_ptr mode == common_modes_name
      then contains rl.common_modes n
      else mode_name_from_ptr mode == n

  -- After an item that is not null was added, exactly the modes that the call reaches have it in
  -- addition; every other registration stands as before, and the common modes stay.
  pub has-add_item :
      (rl : RunLoop) (a x : ℕ) (mode : ModePtr) (n : ModeName)
      → a ≢ 0
      → (has s (add_item s rl a mode).modes n x
          ≡ ((reaches rl mode n && (a == x)) || has s rl.modes n x))
        × ((add_item s rl a mode).common_modes ≡ rl.common_modes)
  unfolding add_item
  has-add_item rl a x mode n h = elim (Bool-cases (mode_name_from_ptr mode == common_modes_name)) [
    | inl common ↦ (ground (arith, has-add_to_all rl.modes rl.common_modes n a x), ground arith)
    | inr one ↦ (ground (arith, has-add_to rl.modes (mode_name_from_ptr mode) n a x), ground arith)
  ]

  -- After it was removed, exactly the modes that the call reaches no longer have it.
  pub has-remove_item :
      (rl : RunLoop) (a x : ℕ) (mode : ModePtr) (n : ModeName)
      → a ≢ 0
      → (has s (remove_item s rl a mode).modes n x
          ≡ (not (reaches rl mode n && (a == x)) && has s rl.modes n x))
        × ((remove_item s rl a mode).common_modes ≡ rl.common_modes)
  unfolding remove_item
  has-remove_item rl a x mode n h =
      elim (Bool-cases (mode_name_from_ptr mode == common_modes_name)) [
        | inl common ↦
            (ground (arith, has-remove_from_all rl.modes rl.common_modes n a x), ground arith)
        | inr one ↦
            (ground (arith, has-remove_from rl.modes (mode_name_from_ptr mode) n a x), ground arith)
      ]
