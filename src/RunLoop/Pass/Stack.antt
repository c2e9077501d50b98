-- ===== src/RunLoop/Pass/Stack.antt =====
-- How a pass ends.
use grafted.Base.{
  ℕ, ◌≡◌, inl, inr, refl, ◌∙◌, ap, Bool, false, List, [], ◌∷◌, arith, nat_eq, Bool-cases,
}
use grafted.RunLoop.Mode.{ModeName, ModePtr, mode_name_from_ptr}
use grafted.RunLoop.Pass.{
  World, Times, Env, fire_each, fire_observers, leave, perform_source, dispatch_sources, fire_timer,
  dispatch_timers, wait_phase, timer_phase, source_phase, run_in_mode, popped, sources_of,
  timers_of, before_sources, before_timers, before_waiting, after_waiting, exit_activity,
  entry_activity,
}

abbrev pub stack_of : {Time App : Type 0} → World Time App → List ModeName
stack_of w = w.loop.mode_stack

-- Callbacks and the wait leave the stack of modes as they find it. (They may run the loop: what is
-- pushed is popped again.)
pub record IsBalanced {Time App : Type 0} (env : Env Time App) : Type 0 where
  pub perform_keeps : (s : ℕ) (w : World Time App) → stack_of (env.perform s w) ≡ stack_of w
  pub fire_keeps : (p : ℕ) (w : World Time App) → stack_of (env.fire p w) ≡ stack_of w
  pub observe_keeps : (o a : ℕ) (w : World Time App) → stack_of (env.observe o a w) ≡ stack_of w
  pub wait_keeps : (w : World Time App) → stack_of (env.wait w) ≡ stack_of w

module _ {Time App : Type 0} (t : Times Time) (env : Env Time App) (b : IsBalanced env) where
  fire_each-stack :
      (os : List ℕ) (a : ℕ) (w : World Time App) → stack_of (fire_each t env os a w) ≡ stack_of w
  unfolding fire_each
  fire_each-stack [] a w = refl
  fire_each-stack (o ∷ os) a w = fire_each-stack os a _ ∙ ground (arith, b.observe_keeps o a w)

  fire_observers-stack :
      (name : ModeName) (a : ℕ) (w : World Time App)
      → stack_of (fire_observers t env name a w) ≡ stack_of w
  unfolding fire_observers
  fire_observers-stack name a w = fire_each-stack _ a w

  leave-stack :
      (name : ModeName) (w : World Time App) → stack_of (leave t env name w) ≡ popped (stack_of w)
  unfolding leave
  leave-stack name w = ap popped (fire_observers-stack name exit_activity w)

  perform_source-stack :
      (s : ℕ) (w : World Time App) → stack_of (perform_source t env s w) ≡ stack_of w
  unfolding perform_source
  perform_source-stack s w = elim (Bool-cases (w.source s).has_perform) [
    | inl h ↦ rw h (b.perform_keeps s _)
    | inr h ↦ rw h
  ]

  dispatch_sources-stack :
      (ra : Bool) (ss : List ℕ) (w : World Time App)
      → stack_of (dispatch_sources t env ra ss w).0 ≡ stack_of w
  unfolding dispatch_sources
  dispatch_sources-stack ra [] w = refl
  dispatch_sources-stack ra (s ∷ ss) w = ground (
    arith,
    perform_source-stack s w,
    dispatch_sources-stack ra ss w,
    dispatch_sources-stack ra ss (perform_source t env s w),
  )

  fire_timer-stack :
      (at : Time) (p : ℕ) (w : World Time App) → stack_of (fire_timer t env at p w) ≡ stack_of w
  unfolding fire_timer
  fire_timer-stack at p w = ground (arith, b.fire_keeps p w)

  dispatch_timers-stack :
      (at : Time) (ra : Bool) (ps : List ℕ) (w : World Time App)
      → stack_of (dispatch_timers t env at ra ps w).0 ≡ stack_of w
  unfolding dispatch_timers
  dispatch_timers-stack at ra [] w = refl
  dispatch_timers-stack at ra (p ∷ ps) w = ground (
    arith,
    fire_timer-stack at p w,
    dispatch_timers-stack at ra ps w,
    dispatch_timers-stack at ra ps (fire_timer t env at p w),
  )

  waited-stack :
      (name : ModeName) (w : World Time App)
      → stack_of (
          fire_observers t env name after_waiting
            (env.wait (fire_observers t env name before_waiting w)))
        ≡ stack_of w
  waited-stack name w =
      fire_observers-stack name after_waiting _
      ∙ (b.wait_keeps _ ∙ fire_observers-stack name before_waiting w)

  wait_phase-stack :
      (name : ModeName) (w : World Time App)
      → stack_of (wait_phase t env name w).0 ≡ popped (stack_of w)
  unfolding wait_phase
  wait_phase-stack name w =
      let w' =
        fire_observers t env name after_waiting
          (env.wait (fire_observers t env name before_waiting w)) in
      ground (
        arith,
        waited-stack name w,
        leave-stack name w',
        leave-stack name (record w' { loop = record (w'.loop) { stopped = false } }),
      )

  timer_phase-stack :
      (name : ModeName) (ra : Bool) (w : World Time App)
      → stack_of (timer_phase t env name ra w).0 ≡ popped (stack_of w)
  unfolding timer_phase
  timer_phase-stack name ra w =
      let w' = fire_observers t env name before_timers w in
      let r = dispatch_timers t env (env.now w) ra (timers_of t env name w) w' in
      ground (
        arith,
        fire_observers-stack name before_timers w,
        dispatch_timers-stack (env.now w) ra (timers_of t env name w) w',
        leave-stack name r.0,
        wait_phase-stack name r.0,
      )

  source_phase-stack :
      (name : ModeName) (ra : Bool) (w : World Time App)
      → stack_of (source_phase t env name ra w).0 ≡ popped (stack_of w)
  unfolding source_phase
  source_phase-stack name ra w =
      let w' = fire_observers t env name before_sources w in
      let r = dispatch_sources t env ra (sources_of t env name w) w' in
      ground (
        arith,
        fire_observers-stack name before_sources w,
        dispatch_sources-stack ra (sources_of t env name w) w',
        leave-stack name r.0,
        timer_phase-stack name ra r.0,
      )

  -- If the callbacks and the wait keep the stack of modes, so does a whole pass, on each way out:
  -- stopped before or after the wait, a source or a timer handled, or timed out.
  pub run_in_mode_stack :
      (mode : ModePtr) (ra : Bool) (w : World Time App)
      → stack_of (run_in_mode t env mode ra w).0 ≡ stack_of w
  unfolding run_in_mode
  run_in_mode_stack mode ra w = elim (Bool-cases w.loop.stopped) [
    | inl stop ↦ rw stop
    | inr go ↦
        let name = mode_name_from_ptr mode in
        rw go
          (source_phase-stack name ra _ ∙ ap popped (fire_observers-stack name entry_activity _))
  ]
