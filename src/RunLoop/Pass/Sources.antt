-- ===== src/RunLoop/Pass/Sources.antt =====
-- Which sources a pass performs, seen by an application whose callbacks only note the source.
use grafted.Base.{
  ℕ, ◌≡◌, ◌≢◌, ◌∙◌, ap, Bool, true, false, List, [], ◌∷◌, ◌++◌, arith, nat_eq, list_eq,
  list_beq_iff, Bool-cases, inl, inr, retain, take,
}
use grafted.Base.Assoc.{insert, lookup-insert}
use grafted.RunLoop.Mode.{ModeName, Mode, ModePtr, mode_name_from_ptr}
use grafted.RunLoop.Registry.{entry}
use grafted.RunLoop.Registry.Contains.{distinct}
use grafted.RunLoop.Pass.{
  World, Times, Env, dispatch_sources, source_phase, run_in_mode, run_handled_source, sources_of,
}
use grafted.RunLoop.Pass.Recorded.{
  recorder, is_signaled, performs, fire_observers_quiet, leave-app, timer_phase-app, dispatch_each,
  dispatch_first,
}

module _ {Time : Type 0} (t : Times Time) (now : Time) where
  abbrev R : Env Time (List ℕ)
  R = recorder now

  source_phase-app :
      (name : ModeName) (ra : Bool) (w : World Time (List ℕ))
      → ((source_phase t R name ra w).0.app
          ≡ (dispatch_sources t R ra (sources_of t R name w) w).0.app)
        × ((dispatch_sources t R ra (sources_of t R name w) w).1 ≡ true
            → (source_phase t R name ra w).1 ≡ run_handled_source)
  unfolding source_phase
  source_phase-app name ra w =
      let r = dispatch_sources t R ra (Mode.sources (entry w.loop.modes name)) w in
      rw (fire_observers_quiet t now name 4 w) (
        ground (arith, leave-app t now name r.0, timer_phase-app t now name ra r.0),
        λ h. ground arith,
      )

  -- The world with the mode made and entered.
  abbrev entered : ModeName → World Time (List ℕ) → World Time (List ℕ)
  entered name w = record w {
    loop = record (w.loop) {
      modes = insert w.loop.modes name (entry w.loop.modes name);
      mode_stack = name ∷ w.loop.mode_stack;
    };
  }

  entered-sources :
      (name : ModeName) (w : World Time (List ℕ))
      → sources_of t R name (entered name w) ≡ sources_of t R name w
  unfolding entry
  entered-sources name w = ground (
    arith,
    lookup-insert w.loop.modes name name (entry w.loop.modes name),
    list_beq_iff name name,
  )

  run_in_mode_enters :
      (mode : ModePtr) (ra : Bool) (w : World Time (List ℕ))
      → w.loop.stopped ≡ false
      → run_in_mode t R mode ra w
        ≡ source_phase t R (mode_name_from_ptr mode) ra (entered (mode_name_from_ptr mode) w)
  unfolding run_in_mode
  run_in_mode_enters mode ra w go =
      let name = mode_name_from_ptr mode in
      rw go (ap (source_phase t R name ra) (fire_observers_quiet t now name 1 _))

  -- Where the loop is not stopped, the mode lists no source twice, and callbacks only note their source
  -- and observers change nothing, a pass performs, in the order of registration, the signalled
  -- sources of that mode that have a callback, and no others; asked to return after a source, it
  -- performs at most the first that is signalled, and says that it handled one if there is one.
  pub run_in_mode-performs :
      (mode : ModePtr) (w : World Time (List ℕ))
      → w.loop.stopped ≡ false
      → let ss = sources_of t R (mode_name_from_ptr mode) w in
        distinct ss ≡ true
        → ((run_in_mode t R mode false w).0.app ≡ w.app ++ retain (performs w) ss)
          × ((run_in_mode t R mode true w).0.app
              ≡ w.app ++ retain (performs w) (take 1 (retain (is_signaled w) ss)))
          × (retain (is_signaled w) ss ≢ [] → (run_in_mode t R mode true w).1 ≡ run_handled_source)
  run_in_mode-performs mode w go d =
      let name = mode_name_from_ptr mode in
      let v = entered name w in
      let ss = sources_of t R name w in
      let first = dispatch_first t now ss v in
      (
        ap (λ r. r.0.app) (run_in_mode_enters mode false w go)
            ∙ ((source_phase-app name false v).0
                ∙ rw (entered-sources name w) (dispatch_each t now ss v d).0),
        ap (λ r. r.0.app) (run_in_mode_enters mode true w go)
            ∙ ((source_phase-app name true v).0 ∙ rw (entered-sources name w) first.0),
        λ ne.
            ap (λ r. r.1) (run_in_mode_enters mode true w go)
            ∙ (source_phase-app name true v).1 (
                rw (entered-sources name w) (elim (Bool-cases (dispatch_sources t R true ss v).1) [
                  | inl h ↦ h
                  | inr h ↦ absurd (ne (first.1.0 h))
                ])),
      )
