-- ===== src/RunLoop/Tests.antt =====
-- The scenarios of the source's tests, and the theorems at concrete inputs.
use grafted.Base.{
  ℕ, ◌≡◌, ◌≢◌, ◌<◌, ◌≤◌, refl, true, false, List, [], ◌∷◌, ◌++◌, none, some, arith, get_or, ltb,
  codes, ◌+◌, nat_eq, list_eq,
}
use grafted.Base.Assoc.{lookup, insert}
use grafted.RunLoop.Mode.{
  ModeName, ModePtr, RunLoop, default_mode, common_modes_name, event_tracking_mode, is_printable,
  mode_name_from_ptr, created, copy_current_mode, run_loop_stop,
}
use grafted.RunLoop.Mode.Names.{mode_name_from_ptr_reads, mode_name_from_ptr_printable}
use grafted.RunLoop.Registry.{
  sources, entry, has, add_item, remove_item, contains_source, add_source, remove_source, add_timer,
  add_observer, add_common_mode,
}
use grafted.RunLoop.Registry.Laws.{has-add_item, has-remove_item}
use grafted.RunLoop.Registry.Contains.{
  contains_source-add_source, contains_source-remove_source, AllDistinct, AllDistinct-add_remove,
}
use grafted.RunLoop.Pass.{
  World, Times, Env, fire_each, fire_observers, leave, perform_source, dispatch_sources, fire_timer,
  dispatch_timers, wait_phase, timer_phase, source_phase, run_in_mode, run, run_finished,
  source_signal, default_ptr,
}
use grafted.RunLoop.Pass.Stack.{IsBalanced, stack_of, run_in_mode_stack}
use grafted.RunLoop.Pass.Results.{run_in_mode-IsResult, passes, run_ends_at_first_stop}
use grafted.RunLoop.Pass.Recorded.{recorder}
use grafted.RunLoop.Pass.Sources.{run_in_mode-performs}

program : Unit {0}
unfolding mode_name_from_ptr created copy_current_mode run_loop_stop entry add_source remove_source
    add_timer add_observer contains_source add_common_mode lookup insert fire_each fire_observers
    leave perform_source dispatch_sources fire_timer dispatch_timers wait_phase timer_phase
    source_phase run_in_mode run source_signal passes
program = tt

abbrev ptr : ModeName → ModePtr
ptr name = some (λ n. get_or name n 0)

-- Times are numbers; the interval 0 does not repeat.
abbrev clock : Times ℕ
clock = record {
  le = λ a b. ltb a (b + 1);
  positive = λ a. ltb 0 a;
  add = λ a b. a + b;
  max_time = 1000;
}

abbrev idle : RunLoop → World ℕ (List ℕ)
idle rl = record {
  loop = rl;
  source = λ _. record { has_perform = true; signaled = false };
  timer = λ _. record { fire_date = 1000; interval = 0; has_callback = true };
  observer = λ _. record { activities = 161; has_callback = true };
  app = [];
}

-- Source 7 in the given mode, signalled, and a pass in the mode `ran`.
abbrev seen : ModeName → ModeName → List ℕ
seen registered ran =
    let w : World ℕ (List ℕ) = source_signal (idle (add_source created 7 (ptr registered))) 7 in
    (run_in_mode clock (recorder 0) (ptr ran) true w).0.app

sources_by_mode_test :
    (seen default_mode event_tracking_mode ≡ [])
    × (seen common_modes_name event_tracking_mode ≡ 7 ∷ [])
    × (seen event_tracking_mode default_mode ≡ [])
    × (seen event_tracking_mode event_tracking_mode ≡ 7 ∷ [])
unfolding program
sources_by_mode_test = (refl, refl, refl, refl)

-- Observers note their activity.
abbrev watcher : Env ℕ (List ℕ)
watcher = record (recorder 0) { observe = λ o a w. record w { app = w.app ++ a ∷ [] } }

observer_order_test :
    (run_in_mode clock watcher default_ptr false (idle (add_observer created 9 default_ptr))).0.app
    ≡ 1 ∷ 32 ∷ 128 ∷ []
unfolding program
observer_order_test = refl

timer_test :
    (let w : World ℕ (List ℕ) = idle (add_timer created 3 default_ptr) in
      ((run_in_mode clock (recorder 2000) default_ptr true w).0.timer 3).fire_date)
    ≡ 1000
unfolding program
timer_test = refl

current_mode_test :
    (copy_current_mode (some (add_common_mode created (ptr (codes "Mine")))) ≡ some default_mode)
    × (copy_current_mode (some (record created { mode_stack = codes "Mine" ∷ [] }))
        ≡ some default_mode)
    × (copy_current_mode none ≡ none)
unfolding program
current_mode_test = (refl, refl, refl)

abbrev mine : ModeName
mine = codes "Mine"

test_mode_name_from_ptr_reads : mode_name_from_ptr (ptr mine) ≡ mine
unfolding is_printable
test_mode_name_from_ptr_reads =
    mode_name_from_ptr_reads (λ n. get_or mine n 0) mine (λ e. cc) (omega arith)
      (refl, (refl, (refl, (refl, tt)))) (refl, (refl, (refl, (refl, refl))))

test_mode_name_from_ptr_printable : mode_name_from_ptr (ptr mine) ≢ []
test_mode_name_from_ptr_printable = (mode_name_from_ptr_printable (ptr mine)).0

test_has-add_item :
    has sources (add_item sources created 7 (ptr common_modes_name)).modes event_tracking_mode 7
    ≡ true
unfolding program
test_has-add_item =
    (has-add_item sources created 7 7 (ptr common_modes_name) event_tracking_mode
      (λ e. ground arith)).0

test_has-remove_item :
    has sources (remove_item sources created 7 (ptr default_mode)).modes default_mode 7 ≡ false
unfolding program
test_has-remove_item =
    (has-remove_item sources created 7 7 (ptr default_mode) default_mode (λ e. ground arith)).0

test_contains_source-add_source :
    contains_source (add_source created 7 (ptr common_modes_name)) 7 (ptr common_modes_name) ≡ true
unfolding created mode_name_from_ptr
test_contains_source-add_source =
    contains_source-add_source created 7 (ptr common_modes_name) event_tracking_mode
      (λ e. ground arith) refl

test_contains_remove : contains_source (remove_source created 7 default_ptr) 7 default_ptr ≡ false
test_contains_remove = contains_source-remove_source created 7 default_ptr

abbrev bare : RunLoop
bare = record { modes = []; common_modes = []; mode_stack = []; stopped = false }

test_AllDistinct-add_remove :
    AllDistinct sources (add_item sources bare 7 default_ptr).modes
    × AllDistinct sources (remove_item sources bare 7 default_ptr).modes
unfolding entry lookup
test_AllDistinct-add_remove = AllDistinct-add_remove sources bare 7 default_ptr (λ n. refl)

recorder-IsBalanced : IsBalanced {Time = ℕ} (recorder 0)
recorder-IsBalanced = record {
  perform_keeps = λ s w. refl;
  fire_keeps = λ p w. refl;
  observe_keeps = λ o a w. refl;
  wait_keeps = λ w. refl;
}

run_in_mode_stack_example :
    stack_of (run_in_mode clock (recorder 0) default_ptr true (idle bare)).0 ≡ []
run_in_mode_stack_example =
    run_in_mode_stack clock (recorder 0) recorder-IsBalanced default_ptr true (idle bare)

test_run_in_mode_IsResult :
    (run_in_mode clock (recorder 0) default_ptr true (idle bare)).1 ≢ run_finished
test_run_in_mode_IsResult = (run_in_mode-IsResult clock (recorder 0) default_ptr true (idle bare)).1

-- The wait of the first pass is cut short by `CFRunLoopStop`.
abbrev stopper : Env ℕ (List ℕ)
stopper = record (recorder 0) { wait = λ w. record w { loop = record (w.loop) { stopped = true } } }

run_ends_at_first_stop_example :
    (◌≤◌ 3 0 → run clock stopper 3 (idle bare) ≡ none)
    × (◌<◌ 0 3 → run clock stopper 3 (idle bare) ≡ some (passes clock stopper 1 (idle bare)))
unfolding program
run_ends_at_first_stop_example =
    run_ends_at_first_stop clock stopper 0 3 (idle bare) (λ i h. absurd (omega arith)) refl

abbrev signalled : World ℕ (List ℕ)
signalled = source_signal (idle (add_source (add_source created 7 default_ptr) 8 default_ptr)) 8

run_in_mode-performs_example :
    (run_in_mode clock (recorder 0) default_ptr false signalled).0.app ≡ 8 ∷ []
unfolding program
run_in_mode-performs_example = (run_in_mode-performs clock 0 default_ptr signalled refl refl).0
