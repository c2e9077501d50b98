-- ===== src/RunLoop/Registry/Contains.antt =====
-- `CFRunLoopContainsSource` against `CFRunLoopAddSource` and `CFRunLoopRemoveSource`, and lists
-- without duplicates.
use grafted.Base.{
  ℕ, ◌≡◌, ◌≢◌, inl, inr, refl, Bool, true, false, not, ◌&&◌, List, [], ◌∷◌, ◌++◌, arith, ◌==◌,
  nat_eq, list_eq, nat_beq_iff, list_beq_iff, contains, retain, contains-append, contains-retain,
  Option-cases, Bool-cases,
}
use grafted.Base.Assoc.{Map, lookup, lookup-insert}
use grafted.RunLoop.Mode.{ModeName, ModePtr, Mode, RunLoop, common_modes_name, mode_name_from_ptr}
use grafted.RunLoop.Registry.{
  Slot, sources, entry, pushed, add_to, add_to_all, remove_from, remove_from_all, has, has_in_any,
  add_item, remove_item, contains_source, add_source, remove_source,
}
use grafted.RunLoop.Registry.Laws.{reaches, has-add_item, has-remove_item}

has_in_any_of :
    (modes : Map ModeName Mode) (names : List ModeName) (n : ModeName) (x : ℕ)
    → contains names n ≡ true
    → has sources modes n x ≡ true
    → has_in_any sources modes names x ≡ true
unfolding has_in_any
has_in_any_of modes [] n x c h = cc
has_in_any_of modes (name ∷ names) n x c h =
    ground (arith, list_beq_iff name n, has_in_any_of modes names n x)

has_in_none :
    (modes : Map ModeName Mode) (names : List ModeName) (x : ℕ)
    → ((n : ModeName) → contains names n ≡ true → has sources modes n x ≡ false)
    → has_in_any sources modes names x ≡ false
unfolding has_in_any
has_in_none modes [] x h = refl
has_in_none modes (name ∷ names) x h =
    ground
      (arith, h name, list_beq_iff name name, has_in_none modes names x (λ n c. h n (ground arith)))

-- A source that was added is contained in the mode it was added to. Added to the common modes, it
-- is contained in them if there is one at all.
pub contains_source-add_source :
    (rl : RunLoop) (a : ℕ) (mode : ModePtr) (n : ModeName)
    → a ≢ 0
    → reaches sources rl mode n ≡ true
    → contains_source (add_source rl a mode) a mode ≡ true
unfolding contains_source add_source
contains_source-add_source rl a mode n h r =
    let after = (add_item sources rl a mode) in
    ground (
      arith,
      has-add_item sources rl a a mode n h,
      list_beq_iff (mode_name_from_ptr mode) n,
      has_in_any_of after.modes after.common_modes n a,
    )

-- A source that was removed is contained in none of the modes that the call named.
pub contains_source-remove_source :
    (rl : RunLoop) (a : ℕ) (mode : ModePtr)
    → contains_source (remove_source rl a mode) a mode ≡ false
unfolding contains_source remove_source
contains_source-remove_source rl a mode = elim (Bool-cases (a == 0)) [
  | inl null ↦ ground arith
  | inr other ↦
      let after = remove_item sources rl a mode in
      let name = mode_name_from_ptr mode in
      let gone = has-remove_item sources rl a a mode in
      elim (Bool-cases (name == common_modes_name)) [
        | inl common ↦ ground (
          arith,
          has_in_none after.modes after.common_modes a
              (λ n c. ground (arith, gone n (ground arith))),
        )
        | inr one ↦ ground (arith, gone name (ground arith), list_beq_iff name name)
      ]
]

abbrev pub distinct : List ℕ → Bool
distinct [] = true
distinct (x ∷ xs) = not (contains xs x) && distinct xs

distinct-pushed :
    (xs : List ℕ) (a : ℕ)
    → contains xs a ≡ false
    → distinct xs ≡ true
    → distinct (xs ++ a ∷ []) ≡ true
distinct-pushed [] a h d = refl
distinct-pushed (x ∷ xs) a h d =
    ground (arith, contains-append xs (a ∷ []) x, nat_beq_iff x a, distinct-pushed xs a)

distinct-retain : (p : ℕ → Bool) (xs : List ℕ) → distinct xs ≡ true → distinct (retain p xs) ≡ true
distinct-retain p [] d = refl
distinct-retain p (x ∷ xs) d = ground (arith, contains-retain p xs x, distinct-retain p xs)

module _ (s : Slot) where
  open s use {items, put, items-put, items-new}

  -- No mode lists an item twice.
  abbrev pub AllDistinct : Map ModeName Mode → Type 0
  AllDistinct modes = (n : ModeName) → distinct (items (entry modes n)) ≡ true

  AllDistinct-add_to :
      (modes : Map ModeName Mode) (name : ModeName) (a : ℕ)
      → AllDistinct modes
      → AllDistinct (add_to s modes name a)
  unfolding add_to entry
  AllDistinct-add_to modes name a h n = ground (
    arith,
    h n,
    h name,
    lookup-insert modes name n (pushed s (entry modes name) a),
    items-put (entry modes name) (items (entry modes name) ++ a ∷ []),
    distinct-pushed (items (entry modes name)) a,
  )

  AllDistinct-remove_from :
      (modes : Map ModeName Mode) (name : ModeName) (a : ℕ)
      → AllDistinct modes
      → AllDistinct (remove_from s modes name a)
  unfolding remove_from entry
  AllDistinct-remove_from modes name a h n = elim (Option-cases (lookup modes name)) [
    | inl missing ↦ ground (arith, h n)
    | inr (m, found) ↦
        let kept = retain (λ y. not (y == a)) (items m) in
        ground (
          arith,
          h n,
          h name,
          lookup-insert modes name n (put m kept),
          items-put m kept,
          distinct-retain (λ y. not (y == a)) (items m),
        )
  ]

  AllDistinct-add_to_all :
      (modes : Map ModeName Mode) (names : List ModeName) (a : ℕ)
      → AllDistinct modes
      → AllDistinct (add_to_all s modes names a)
  unfolding add_to_all
  AllDistinct-add_to_all modes [] a h = h
  AllDistinct-add_to_all modes (name ∷ names) a h =
      AllDistinct-add_to_all (add_to s modes name a) names a (AllDistinct-add_to modes name a h)

  AllDistinct-remove_from_all :
      (modes : Map ModeName Mode) (names : List ModeName) (a : ℕ)
      → AllDistinct modes
      → AllDistinct (remove_from_all s modes names a)
  unfolding remove_from_all
  AllDistinct-remove_from_all modes [] a h = h
  AllDistinct-remove_from_all modes (name ∷ names) a h =
      AllDistinct-remove_from_all (remove_from s modes name a) names a
        (AllDistinct-remove_from modes name a h)

  -- Adding and removing never make a mode list an item twice.
  pub AllDistinct-add_remove :
      (rl : RunLoop) (a : ℕ) (mode : ModePtr)
      → AllDistinct rl.modes
      → AllDistinct (add_item s rl a mode).modes × AllDistinct (remove_item s rl a mode).modes
  unfolding add_item remove_item
  AllDistinct-add_remove rl a mode h =
      let name = mode_name_from_ptr mode in
      elim (Bool-cases (a == 0)) [
        | inl null ↦ rw null (h, h)
        | inr other ↦ elim (Bool-cases (name == common_modes_name)) [
          | inl common ↦
              rw (other, common)
                (
                  AllDistinct-add_to_all rl.modes rl.common_modes a h,
                  AllDistinct-remove_from_all rl.modes rl.common_modes a h,
                )
          | inr one ↦
              rw (other, one)
                (AllDistinct-add_to rl.modes name a h, AllDistinct-remove_from rl.modes name a h)
        ]
      ]
