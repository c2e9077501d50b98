-- ===== src/RunLoop/Pass/Results.antt =====
-- What a pass returns, and when `CFRunLoopRun` does.
use grafted.Base.{
  ℕ, zero, suc, ◌≡◌, ◌≢◌, ◌⊎◌, inl, inr, ◌<◌, ◌≤◌, refl, Bool, true, false, List, [], ◌∷◌, none,
  some, arith, nat_eq, Bool-cases,
}
use grafted.RunLoop.Mode.{ModeName, ModePtr, mode_name_from_ptr}
use grafted.RunLoop.Pass.{
  World, Times, Env, fire_observers, perform_source, dispatch_sources, fire_timer, dispatch_timers,
  wait_phase, timer_phase, source_phase, run_in_mode, run, run_finished, run_stopped, run_timed_out,
  run_handled_source, sources_of, timers_of, before_sources, before_timers, default_ptr,
}

abbrev pub IsResult : Bool → ℕ → Type 0
IsResult ra r = (r ≡ run_stopped) ⊎ (r ≡ run_timed_out) ⊎ ((r ≡ run_handled_source) × (ra ≡ true))

module _ {Time App : Type 0} (t : Times Time) (env : Env Time App) where
  sources_flag :
      (ra : Bool) (ss : List ℕ) (w : World Time App)
      → (dispatch_sources t env ra ss w).1 ≡ true
      → ra ≡ true
  unfolding dispatch_sources
  sources_flag ra [] w e = cc
  sources_flag ra (s ∷ ss) w e =
      ground (arith, sources_flag ra ss w, sources_flag ra ss (perform_source t env s w))

  timers_flag :
      (at : Time) (ra : Bool) (ps : List ℕ) (w : World Time App)
      → (dispatch_timers t env at ra ps w).1 ≡ true
      → ra ≡ true
  unfolding dispatch_timers
  timers_flag at ra [] w e = cc
  timers_flag at ra (p ∷ ps) w e =
      ground (arith, timers_flag at ra ps w, timers_flag at ra ps (fire_timer t env at p w))

  wait_phase-IsResult :
      (name : ModeName) (ra : Bool) (w : World Time App) → IsResult ra (wait_phase t env name w).1
  unfolding wait_phase
  wait_phase-IsResult name ra w = ground arith

  timer_phase-IsResult :
      (name : ModeName) (ra : Bool) (w : World Time App)
      → IsResult ra (timer_phase t env name ra w).1
  unfolding timer_phase
  timer_phase-IsResult name ra w =
      let w' = fire_observers t env name before_timers w in
      let r = dispatch_timers t env (env.now w) ra (timers_of t env name w) w' in
      ground (
        arith,
        timers_flag (env.now w) ra (timers_of t env name w) w',
        wait_phase-IsResult name ra r.0,
      )

  source_phase-IsResult :
      (name : ModeName) (ra : Bool) (w : World Time App)
      → IsResult ra (source_phase t env name ra w).1
  unfolding source_phase
  source_phase-IsResult name ra w =
      let w' = fire_observers t env name before_sources w in
      let r = dispatch_sources t env ra (sources_of t env name w) w' in
      ground (arith, sources_flag ra (sources_of t env name w) w', timer_phase-IsResult name ra r.0)

  never_finished : (ra : Bool) (r : ℕ) → IsResult ra r → IsResult ra r × (r ≢ run_finished)
  never_finished ra r h = (h, λ e. ground arith)

  -- A pass returns that it was stopped, timed out or handled something, the last only if it was
  -- asked to return then. It never returns that it finished.
  pub run_in_mode-IsResult :
      (mode : ModePtr) (ra : Bool) (w : World Time App)
      → IsResult ra (run_in_mode t env mode ra w).1
        × ((run_in_mode t env mode ra w).1 ≢ run_finished)
  unfolding run_in_mode
  run_in_mode-IsResult mode ra w = elim (Bool-cases w.loop.stopped) [
    | inl stop ↦ rw stop (inl refl, λ e. ground arith)
    | inr go ↦ rw go (never_finished ra _ (source_phase-IsResult (mode_name_from_ptr mode) ra _))
  ]

  -- One pass of `CFRunLoopRun`.
  abbrev pub pass : World Time App → World Time App × ℕ
  pass w = run_in_mode t env default_ptr false w

  unfoldable pub passes : ℕ → World Time App → World Time App
  passes zero w = w
  passes (suc k) w = passes k (pass w).0

  -- `CFRunLoopRun` returns after the first pass that was stopped, and not before.
  pub run_ends_at_first_stop :
      (k fuel : ℕ) (w : World Time App)
      → ((i : ℕ) → i < k → (pass (passes i w)).1 ≢ run_stopped)
      → (pass (passes k w)).1 ≡ run_stopped
      → (fuel ≤ k → run t env fuel w ≡ none)
        × (k < fuel → run t env fuel w ≡ some (passes (suc k) w))
  unfolding run passes
  run_ends_at_first_stop k zero w before at = (λ h. refl, λ h. absurd (omega arith))
  run_ends_at_first_stop zero (suc fuel) w before at =
      (λ h. absurd (omega arith), λ h. ground (arith, at))
  run_ends_at_first_stop (suc k) (suc fuel) w before at =
      let goes = before 0 (omega arith) in
      let later =
        run_ends_at_first_stop k fuel (pass w).0 (λ i h. before (suc i) (omega arith)) at in
      (
        λ h. ground (arith, goes, run_in_mode-IsResult default_ptr false w, later.0 (omega arith)),
        λ h. ground (arith, goes, run_in_mode-IsResult default_ptr false w, later.1 (omega arith)),
      )
