-- ===== src/RunLoop/Registry.antt =====
-- crates/grafted-frameworks/src/cf/runloop.rs: what is registered in which mode. The functions for
-- sources, timers and observers differ in the list of the mode that they touch, so each is an
-- instance of one function over a `Slot`. The pointer 0 is null.
use grafted.Base.{
  ℕ, Bool, true, false, not, ◌||◌, List, [], ◌∷◌, ◌++◌, Option, none, some, ◌≡◌, refl, ◌==◌, nat_eq,
  list_eq, contains, retain, if◌then◌else◌,
}
use grafted.Base.Assoc.{Map, lookup, insert}
use grafted.RunLoop.Mode.{
  ModeName, ModePtr, Mode, new_mode, RunLoop, common_modes_name, mode_name_from_ptr,
}
pub mod Laws
pub mod Contains

-- One of the three lists of a mode.
pub record Slot : Type 0 where
  pub items : Mode → List ℕ
  pub put : Mode → List ℕ → Mode
  pub items-put : (m : Mode) (l : List ℕ) → items (put m l) ≡ l
  pub items-new : items new_mode ≡ []

abbrev pub sources : Slot
sources = record {
  items = λ m. m.sources;
  put = λ m l. record m { sources = l };
  items-put = λ m l. refl;
  items-new = refl;
}

abbrev pub timers : Slot
timers = record {
  items = λ m. m.timers;
  put = λ m l. record m { timers = l };
  items-put = λ m l. refl;
  items-new = refl;
}

abbrev pub observers : Slot
observers = record {
  items = λ m. m.observers;
  put = λ m l. record m { observers = l };
  items-put = λ m l. refl;
  items-new = refl;
}

-- `modes.entry(name).or_insert_with(CFRunLoopModeInner::new)`.
unfoldable pub entry : Map ModeName Mode → ModeName → Mode
entry modes name = elim (lookup modes name) [ none ↦ new_mode | some m ↦ m ]

module _ (s : Slot) where
  open s use {items, put}

  abbrev pub pushed : Mode → ℕ → Mode
  pushed m item = if contains (items m) item then m else put m (items m ++ item ∷ [])

  pub add_to : Map ModeName Mode → ModeName → ℕ → Map ModeName Mode
  unfolding entry
  add_to modes name item = insert modes name (pushed (entry modes name) item)

  pub add_to_all : Map ModeName Mode → List ModeName → ℕ → Map ModeName Mode
  add_to_all modes [] item = modes
  add_to_all modes (name ∷ names) item = add_to_all (add_to modes name item) names item

  -- `get_mut`, and `retain` where there is a mode.
  pub remove_from : Map ModeName Mode → ModeName → ℕ → Map ModeName Mode
  remove_from modes name item = elim (lookup modes name) [
    | none ↦ modes
    | some m ↦ insert modes name (put m (retain (λ x. not (x == item)) (items m)))
  ]

  pub remove_from_all : Map ModeName Mode → List ModeName → ℕ → Map ModeName Mode
  remove_from_all modes [] item = modes
  remove_from_all modes (name ∷ names) item =
      remove_from_all (remove_from modes name item) names item

  abbrev pub has : Map ModeName Mode → ModeName → ℕ → Bool
  has modes name item = elim (lookup modes name) [ none ↦ false | some m ↦ contains (items m) item ]

  pub has_in_any : Map ModeName Mode → List ModeName → ℕ → Bool
  has_in_any modes [] item = false
  has_in_any modes (name ∷ names) item = has modes name item || has_in_any modes names item

  unfoldable pub add_item : RunLoop → ℕ → ModePtr → RunLoop
  unfolding add_to add_to_all
  add_item rl item mode =
      let name = mode_name_from_ptr mode in
      if item == 0
      then rl
      else if name == common_modes_name
      then record rl { modes = add_to_all rl.modes rl.common_modes item }
      else record rl { modes = add_to rl.modes name item }

  unfoldable pub remove_item : RunLoop → ℕ → ModePtr → RunLoop
  unfolding remove_from remove_from_all
  remove_item rl item mode =
      let name = mode_name_from_ptr mode in
      if item == 0
      then rl
      else if name == common_modes_name
      then record rl { modes = remove_from_all rl.modes rl.common_modes item }
      else record rl { modes = remove_from rl.modes name item }

unfoldable pub contains_source : RunLoop → ℕ → ModePtr → Bool
unfolding has_in_any
contains_source rl item mode =
    let name = mode_name_from_ptr mode in
    if item == 0
    then false
    else if name == common_modes_name
    then has_in_any sources rl.modes rl.common_modes item
    else has sources rl.modes name item

unfoldable pub add_source : RunLoop → ℕ → ModePtr → RunLoop
unfolding add_item
add_source = add_item sources

unfoldable pub remove_source : RunLoop → ℕ → ModePtr → RunLoop
unfolding remove_item
remove_source = remove_item sources

unfoldable pub add_timer : RunLoop → ℕ → ModePtr → RunLoop
unfolding add_item
add_timer = add_item timers

unfoldable pub remove_timer : RunLoop → ℕ → ModePtr → RunLoop
unfolding remove_item
remove_timer = remove_item timers

unfoldable pub add_observer : RunLoop → ℕ → ModePtr → RunLoop
unfolding add_item
add_observer = add_item observers

unfoldable pub remove_observer : RunLoop → ℕ → ModePtr → RunLoop
unfolding remove_item
remove_observer = remove_item observers

-- `HashSet::insert` and `entry`.
unfoldable pub add_common_mode : RunLoop → ModePtr → RunLoop
unfolding entry
add_common_mode rl mode =
    let name = mode_name_from_ptr mode in
    record rl {
      common_modes =
          if contains rl.common_modes name then rl.common_modes else name ∷ rl.common_modes;
      modes = insert rl.modes name (entry rl.modes name);
    }
