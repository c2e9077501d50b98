-- ===== src/RunLoop/Pass/Recorded.antt =====
-- A pass seen by an application whose callbacks only note the source: what each phase adds.
use grafted.Base.{
  ℕ, ◌≡◌, ◌↔◌, refl, ap, sym, Bool, true, false, ◌&&◌, List, [], ◌∷◌, ◌++◌, arith, ◌==◌, nat_eq,
  list_eq, nat_beq_iff, if◌then◌else◌, Bool-cases, inl, inr, contains, retain, take,
}
use mathlib.Core.List.{append_assoc, append-nil}
use grafted.RunLoop.Mode.{ModeName, Mode}
use grafted.RunLoop.Registry.{entry}
use grafted.RunLoop.Registry.Contains.{distinct}
use grafted.RunLoop.Pass.{
  World, Times, Env, fire_each, fire_observers, leave, perform_source, dispatch_sources, fire_timer,
  dispatch_timers, wait_phase, timer_phase,
}

abbrev pub recorder : {Time : Type 0} → Time → Env Time (List ℕ)
recorder now = record {
  perform = λ s w. record w { app = w.app ++ s ∷ [] };
  fire = λ p w. w;
  observe = λ o a w. w;
  wait = λ w. w;
  now = λ w. now;
}

-- A source is due if it is signalled; what has no callback is due and does nothing.
abbrev pub is_signaled : {Time App : Type 0} → World Time App → ℕ → Bool
is_signaled w s = (w.source s).signaled

abbrev pub performs : {Time App : Type 0} → World Time App → ℕ → Bool
performs w s = (w.source s).signaled && (w.source s).has_perform

retain_same :
    (p q : ℕ → Bool) (x : ℕ) (ss : List ℕ)
    → ((s : ℕ) → (x == s) ≡ false → p s ≡ q s)
    → contains ss x ≡ false
    → retain p ss ≡ retain q ss
retain_same p q x [] h c = refl
retain_same p q x (s ∷ ss) h c = ground (arith, h s, nat_beq_iff s x, retain_same p q x ss h)

module _ {Time : Type 0} (t : Times Time) (now : Time) where
  abbrev R : Env Time (List ℕ)
  R = recorder now

  fire_each_quiet : (os : List ℕ) (a : ℕ) (w : World Time (List ℕ)) → fire_each t R os a w ≡ w
  unfolding fire_each
  fire_each_quiet [] a w = refl
  fire_each_quiet (o ∷ os) a w = ground (arith, fire_each_quiet os a w)

  pub fire_observers_quiet :
      (name : ModeName) (a : ℕ) (w : World Time (List ℕ)) → fire_observers t R name a w ≡ w
  unfolding fire_observers
  fire_observers_quiet name a w = fire_each_quiet _ a w

  dispatch_timers-app :
      (ra : Bool) (ps : List ℕ) (w : World Time (List ℕ))
      → (dispatch_timers t R now ra ps w).0.app ≡ w.app
  unfolding dispatch_timers fire_timer
  dispatch_timers-app ra [] w = refl
  dispatch_timers-app ra (p ∷ ps) w =
      ground
        (arith, dispatch_timers-app ra ps w, dispatch_timers-app ra ps (fire_timer t R now p w))

  pub leave-app : (name : ModeName) (w : World Time (List ℕ)) → (leave t R name w).app ≡ w.app
  unfolding leave
  leave-app name w = ap (λ v. v.app) (fire_observers_quiet name 128 w)

  wait_phase-app :
      (name : ModeName) (w : World Time (List ℕ)) → (wait_phase t R name w).0.app ≡ w.app
  unfolding wait_phase
  wait_phase-app name w = ground (
    arith,
    fire_observers_quiet name 32 w,
    fire_observers_quiet name 64 w,
    leave-app name w,
    leave-app name (record w { loop = record (w.loop) { stopped = false } }),
  )

  pub timer_phase-app :
      (name : ModeName) (ra : Bool) (w : World Time (List ℕ))
      → (timer_phase t R name ra w).0.app ≡ w.app
  unfolding timer_phase
  timer_phase-app name ra w =
      let ps = Mode.timers (entry w.loop.modes name) in
      rw (fire_observers_quiet name 2 w) (
        ground (
          arith,
          dispatch_timers-app ra ps w,
          leave-app name (dispatch_timers t R now ra ps w).0,
          wait_phase-app name (dispatch_timers t R now ra ps w).0,
        ))

  performed-source :
      (s x : ℕ) (w : World Time (List ℕ))
      → ((perform_source t R s w).source x).signaled ≡ (if s == x then false else is_signaled w x)
        × (((perform_source t R s w).source x).has_perform ≡ (w.source x).has_perform)
  unfolding perform_source
  performed-source s x w = elim (Bool-cases (s == x)) [
    | inl h ↦ (ground arith, ground (arith, ap w.source ((nat_beq_iff s x).0 h)))
    | inr h ↦ (ground arith, ground arith)
  ]

  performed-app :
      (s : ℕ) (w : World Time (List ℕ))
      → is_signaled w s ≡ true
      → (perform_source t R s w).app ≡ (if performs w s then w.app ++ s ∷ [] else w.app)
  unfolding perform_source
  performed-app s w h = ground arith

  -- All sources: those performed are the signalled ones with a callback, in order.
  pub dispatch_each :
      (ss : List ℕ) (w : World Time (List ℕ))
      → distinct ss ≡ true
      → ((dispatch_sources t R false ss w).0.app ≡ w.app ++ retain (performs w) ss)
        × ((dispatch_sources t R false ss w).1 ≡ false)
        × ((x : ℕ)
            → contains ss x ≡ true
            → is_signaled (dispatch_sources t R false ss w).0 x ≡ false)
        × ((x : ℕ)
            → contains ss x ≡ false
            → is_signaled (dispatch_sources t R false ss w).0 x ≡ is_signaled w x)
  unfolding dispatch_sources perform_source
  dispatch_each [] w d = (sym (append-nil w.app), refl, (λ x h. cc), (λ x h. refl))
  dispatch_each (s ∷ ss) w d = elim (Bool-cases (is_signaled w s)) [
    | inl lit ↦
        let v = perform_source t R s w in
        let ih = dispatch_each ss v (ground arith) in
        let same =
          retain_same (performs v) (performs w) s ss (λ x h. ground (arith, performed-source s x w))
            (ground arith) in
        (
          ground (
            arith,
            ih.0,
            same,
            performed-app s w,
            append_assoc w.app (s ∷ []) (retain (performs w) ss),
          ),
          ground (arith, ih.1),
          λ x h. ground (arith, ih.2 x, ih.3 x, performed-source s x w),
          λ x h. ground (arith, ih.3 x, performed-source s x w),
        )
    | inr unlit ↦
        let ih = dispatch_each ss w (ground arith) in
        (
          ground (arith, ih.0),
          ground (arith, ih.1),
          λ x h. ground (arith, ih.2 x, ih.3 x, nat_beq_iff s x),
          λ x h. ground (arith, ih.3 x),
        )
  ]

  -- At most one source: the first that is signalled, and the flag says whether there was one.
  pub dispatch_first :
      (ss : List ℕ) (w : World Time (List ℕ))
      → let lit = retain (is_signaled w) ss in
        ((dispatch_sources t R true ss w).0.app ≡ w.app ++ retain (performs w) (take 1 lit))
        × (((dispatch_sources t R true ss w).1 ≡ false) ↔ (lit ≡ []))
  unfolding dispatch_sources
  dispatch_first [] w = (sym (append-nil w.app), ((λ e. refl), (λ e. refl)))
  dispatch_first (s ∷ ss) w = elim (Bool-cases (is_signaled w s)) [
    | inl lit ↦ (
      ground (arith, performed-app s w, append-nil w.app),
      ((λ e. ground arith), (λ e. ground arith)),
    )
    | inr unlit ↦
        let ih = dispatch_first ss w in
        (ground (arith, ih.0), ((λ e. ground (arith, ih.1)), (λ e. ground (arith, ih.1))))
  ]
