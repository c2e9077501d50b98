-- ===== src/RunLoop/Pass.antt =====
-- crates/grafted-frameworks/src/cf/runloop.rs: `fire_observers`, `CFRunLoopRunInMode`,
-- `CFRunLoopRun`. Callbacks and the wait are the application's and the system's code: they may do
-- anything to the world, and are the parameter `Env`. Times are `f64` values, whose operations are
-- the parameter `Times`. Pointers in the registries are taken to be valid.
use Prim.Native.Nat.{bit_and}
use grafted.Base.{
  ℕ, zero, suc, ◌+◌, Bool, true, false, not, ◌&&◌, ◌||◌, List, [], ◌∷◌, Option, none, some, ◌==◌,
  nat_eq, list_eq, if◌then◌else◌, get_or,
}
use grafted.Base.Assoc.{Map, lookup, insert}
use grafted.RunLoop.Mode.{ModeName, ModePtr, Mode, RunLoop, default_mode, mode_name_from_ptr}
use grafted.RunLoop.Registry.{entry}
pub mod Stack
pub mod Recorded
pub mod Sources
pub mod Results

abbrev pub entry_activity : ℕ
entry_activity = 1

abbrev pub before_timers : ℕ
before_timers = 2

abbrev pub before_sources : ℕ
before_sources = 4

abbrev pub before_waiting : ℕ
before_waiting = 32

abbrev pub after_waiting : ℕ
after_waiting = 64

abbrev pub exit_activity : ℕ
exit_activity = 128

abbrev pub run_finished : ℕ
run_finished = 1

abbrev pub run_stopped : ℕ
run_stopped = 2

abbrev pub run_timed_out : ℕ
run_timed_out = 3

abbrev pub run_handled_source : ℕ
run_handled_source = 4

-- What the pass reads of `CFRunLoopSourceInner`, `…TimerInner` and `…ObserverInner`: whether there
-- is a callback, and the fields that decide when it is called.
pub record Source : Type 0 where
  pub has_perform : Bool
  pub signaled : Bool

pub record Timer (Time : Type 0) : Type 0 where
  pub fire_date : Time
  pub interval : Time
  pub has_callback : Bool

pub record Observer : Type 0 where
  pub activities : ℕ
  pub has_callback : Bool

-- The run loop, the objects behind the pointers, and the application's own state.
pub record World (Time App : Type 0) : Type 0 where
  pub loop : RunLoop
  pub source : ℕ → Source
  pub timer : ℕ → Timer Time
  pub observer : ℕ → Observer
  pub app : App

pub record Times (Time : Type 0) : Type 0 where
  pub le : Time → Time → Bool
  pub positive : Time → Bool
  pub add : Time → Time → Time
  pub max_time : Time

pub record Env (Time App : Type 0) : Type 0 where
  pub perform : ℕ → World Time App → World Time App
  pub fire : ℕ → World Time App → World Time App
  pub observe : ℕ → ℕ → World Time App → World Time App
  pub wait : World Time App → World Time App
  pub now : World Time App → Time

abbrev pub update {ℓ} : {A : Type ℓ} → (ℕ → A) → ℕ → A → ℕ → A
update f p v q = if p == q then v else f q

-- `kCFRunLoopDefaultMode.as_ptr()`.
abbrev pub default_ptr : ModePtr
default_ptr = some (λ n. get_or default_mode n 0)

-- `CFRunLoopSourceSignal`; the pointer 0 is null.
unfoldable pub source_signal : {Time App : Type 0} → World Time App → ℕ → World Time App
source_signal w p =
    if p == 0
    then w
    else record w { source = update w.source p (record (w.source p) { signaled = true }) }

-- `Vec::pop`; the head is the last element.
abbrev pub popped : List ModeName → List ModeName
popped [] = []
popped (x ∷ xs) = xs

module _ {Time App : Type 0} (t : Times Time) (env : Env Time App) where
  open env use {perform, fire, observe, wait, now}

  unfoldable pub fire_each : List ℕ → ℕ → World Time App → World Time App
  fire_each [] activity w = w
  fire_each (o ∷ os) activity w = fire_each os activity (
      if not (bit_and (w.observer o).activities activity == 0) && (w.observer o).has_callback
      then observe o activity w
      else w)

  unfoldable pub fire_observers : ModeName → ℕ → World Time App → World Time App
  fire_observers name activity w = fire_each (Mode.observers (entry w.loop.modes name)) activity w

  abbrev pub sources_of : ModeName → World Time App → List ℕ
  sources_of name w = Mode.sources (entry w.loop.modes name)

  abbrev pub timers_of : ModeName → World Time App → List ℕ
  timers_of name w = Mode.timers (entry w.loop.modes name)

  -- The end of a pass: the exit observers, then `mode_stack.pop()`.
  unfoldable pub leave : ModeName → World Time App → World Time App
  leave name w =
      let w' = fire_observers name exit_activity w in
      record w' { loop = record (w'.loop) { mode_stack = popped w'.loop.mode_stack } }

  -- One signalled source: the signal is cleared, then the source is performed.
  unfoldable pub perform_source : ℕ → World Time App → World Time App
  perform_source s w =
      let cleared : World Time App = record w {
        source = update w.source s (record (w.source s) { signaled = false });
      } in
      if (w.source s).has_perform then perform s cleared else cleared

  -- The loops over sources and timers; the flag says that the pass ends here.
  unfoldable pub dispatch_sources : Bool → List ℕ → World Time App → World Time App × Bool
  dispatch_sources return_after [] w = (w, false)
  dispatch_sources return_after (s ∷ ss) w = elim (w.source s).signaled [
    | false ↦ dispatch_sources return_after ss w
    | true ↦ elim return_after [
      | true ↦ (perform_source s w, true)
      | false ↦ dispatch_sources return_after ss (perform_source s w)
    ]
  ]

  -- One timer that is due: the callback, then the next date, by the interval it has by then.
  unfoldable pub fire_timer : Time → ℕ → World Time App → World Time App
  fire_timer at p w =
      let w' = if (w.timer p).has_callback then fire p w else w in
      record w' {
        timer = update w'.timer p (record (w'.timer p) {
          fire_date =
              if t.positive (w'.timer p).interval
              then t.add at (w'.timer p).interval
              else t.max_time;
        });
      }

  unfoldable pub dispatch_timers : Time → Bool → List ℕ → World Time App → World Time App × Bool
  dispatch_timers at return_after [] w = (w, false)
  dispatch_timers at return_after (p ∷ ps) w = elim (t.le (w.timer p).fire_date at) [
    | false ↦ dispatch_timers at return_after ps w
    | true ↦ elim return_after [
      | true ↦ (fire_timer at p w, true)
      | false ↦ dispatch_timers at return_after ps (fire_timer at p w)
    ]
  ]

  unfoldable pub wait_phase : ModeName → World Time App → World Time App × ℕ
  wait_phase name w =
      let w' = fire_observers name after_waiting (wait (fire_observers name before_waiting w)) in
      if w'.loop.stopped
      then (leave name (record w' { loop = record (w'.loop) { stopped = false } }), run_stopped)
      else (leave name w', run_timed_out)

  unfoldable pub timer_phase : ModeName → Bool → World Time App → World Time App × ℕ
  timer_phase name return_after w =
      let (w', handled) =
        dispatch_timers (now w) return_after (timers_of name w)
          (fire_observers name before_timers w) in
      if handled then (leave name w', run_handled_source) else wait_phase name w'

  unfoldable pub source_phase : ModeName → Bool → World Time App → World Time App × ℕ
  source_phase name return_after w =
      let (w', handled) =
        dispatch_sources return_after (sources_of name w) (fire_observers name before_sources w) in
      if handled then (leave name w', run_handled_source) else timer_phase name return_after w'

  unfoldable pub run_in_mode : ModePtr → Bool → World Time App → World Time App × ℕ
  run_in_mode mode return_after w =
      let name = mode_name_from_ptr mode in
      let loop : RunLoop = record (w.loop) {
        modes = insert w.loop.modes name (entry w.loop.modes name);
      } in
      if loop.stopped
      then (record w { loop = record loop { stopped = false } }, run_stopped)
      else source_phase name return_after (
          fire_observers name entry_activity
            (record w { loop = record loop { mode_stack = name ∷ loop.mode_stack } }))

  -- The loop of `CFRunLoopRun`, with fuel for its passes; `none` is a loop that is still running.
  unfoldable pub run : ℕ → World Time App → Option (World Time App)
  run zero w = none
  run (suc passes) w =
      let (w', result) = run_in_mode default_ptr false w in
      let rest = run passes w' in
      if (result == run_stopped) || (result == run_finished) then some w' else rest
