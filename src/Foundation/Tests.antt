-- ===== src/Foundation/Tests.antt =====
-- The scenarios of the source's tests, and the theorems at concrete inputs.
use grafted.Base.{ℕ, ◌≡◌, refl, List, [], ◌∷◌, some, true, if◌then◌else◌, ◌==◌, nat_eq}
use grafted.Foundation.Notification.{
  Observer, Strings, read_cfstring, add_observer, remove_observer, remove_observer_name_object,
  is_reached, matches, dispatch_one, dispatch_all, post_by_name,
}
use grafted.Foundation.Notification.Laws.{
  recorder, AreCalled, post_by_name-calls, matches-add_remove, remove-add_observer,
}
use grafted.Foundation.Center.{Thread, State, Step, Reaches, advance, default_center_agrees}

program : Unit {0}
unfolding read_cfstring add_observer remove_observer remove_observer_name_object is_reached matches
    dispatch_one dispatch_all post_by_name advance
program = tt

-- The pointers 1 and 2 are CFStrings of different names.
abbrev strings : Strings
strings = record {
  type_id = λ p. 7;
  cf_bytes = λ p. p ∷ [];
  c_bytes = λ p. [];
  is_utf8 = λ bytes. true;
}

abbrev registered : List Observer
registered = add_observer strings (add_observer strings [] 10 20 1 0) 11 21 0 0

-- A post of the name 1 reaches both, one of the name 2 the observer for all names.
test_matches :
    (matches (read_cfstring strings 1) 0 registered ≡ (10, 20) ∷ (11, 21) ∷ [])
    × (matches (read_cfstring strings 2) 0 registered ≡ (11, 21) ∷ [])
unfolding program
test_matches = (refl, refl)

-- The methods that are called remove all observers.
post_by_name-calls_example :
    AreCalled
      (λ o s. some 5)
      (read_cfstring strings 1)
      0
      registered
      ((post_by_name (recorder (λ o s. some 5) (λ o os. [])) strings 1 0 (registered, [])).1)
unfolding program
post_by_name-calls_example = post_by_name-calls (λ o s. some 5) (λ o os. []) strings 1 0 registered

test_matches_add_remove : matches (some (1 ∷ [])) 0 (remove_observer registered 10) ≡ (11, 21) ∷ []
unfolding program
test_matches_add_remove = (matches-add_remove strings registered (some (1 ∷ [])) 0 10 20 1 0).1

test_remove_add_observer :
    remove_observer_name_object strings (add_observer strings registered 12 22 2 9) 12 2 9
    ≡ registered
unfolding program
test_remove_add_observer = remove-add_observer strings registered 12 22 2 9

-- Threads 0 and 1 both find no center; the first one's object 64 becomes it.
abbrev s0 : State
s0 = (0, λ t. Thread.entered)

abbrev next : State → ℕ → ℕ → State
next s t fresh =
    ((advance s.0 fresh (s.1 t)).0, λ u. if t == u then (advance s.0 fresh (s.1 t)).1 else s.1 u)

abbrev s6 : State
s6 = next (next (next (next (next (next s0 0 0) 1 0) 0 64) 1 96) 0 0) 1 0

abbrev stepped : (s s' : State) (t fresh : ℕ) → Reaches s s' → Reaches s (next s' t fresh)
stepped s s' t fresh before =
    Reaches.then_step s s' (next s' t fresh) before (Step.step s'.0 t fresh s'.1)

default_center_agrees_example : 64 ≡ s6.0
unfolding program
default_center_agrees_example =
    default_center_agrees s6
      (stepped s0 _ 1 0 (
        stepped s0 _ 0 0 (
          stepped s0 _ 1 96
            (stepped s0 _ 0 64 (stepped s0 _ 1 0 (stepped s0 _ 0 0 (Reaches.stays s0)))))))
      0 1 64 64 refl refl (λ e. absurd cc) (λ e. absurd cc)
