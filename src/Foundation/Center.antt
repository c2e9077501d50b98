-- ===== src/Foundation/Center.antt =====
-- crates/grafted-frameworks/src/foundation/notification.rs: `ns_notification_center_default`,
-- which any number of threads may call at once. The steps are the atomic ones: the load, the
-- `calloc`, and the exchange with what follows from it. The pointer 0 is null.
use mathlib.Core.Path.{subst}
use grafted.Base.{ℕ, ◌≡◌, ◌≢◌, refl, Bool-cases, ◌⊎◌, inl, inr, ◌==◌, nat_eq, if◌then◌else◌, arith}

-- Where a thread is in the call: before the load, after it found null, with its own object, and
-- returned with a pointer.
pub data Thread : Type 0 where
  entered : Thread
  found_null : Thread
  allocated : ℕ → Thread
  returned : ℕ → Thread

abbrev pub State : Type 0
State = ℕ × (ℕ → Thread)

abbrev pub at_thread : (ℕ → Thread) → ℕ → Thread → ℕ → Thread
at_thread threads t now u = if t == u then now else threads u

-- What one thread does next, given what `calloc` answers; `center` is the shared pointer.
unfoldable pub advance : ℕ → ℕ → Thread → ℕ × Thread
advance center fresh Thread.entered =
    if center == 0 then (center, Thread.found_null) else (center, Thread.returned center)
advance center fresh Thread.found_null =
    if fresh == 0 then (center, Thread.returned center) else (center, Thread.allocated fresh)
advance center fresh (Thread.allocated obj) =
    if center == 0 then (obj, Thread.returned obj) else (center, Thread.returned center)
advance center fresh (Thread.returned p) = (center, Thread.returned p)

pub data Step : State → State → Type 0 where
  step :
      (center t fresh : ℕ) (threads : ℕ → Thread)
      → Step
          (center, threads)
          (
            (advance center fresh (threads t)).0,
            at_thread threads t (advance center fresh (threads t)).1,
          )

pub data Reaches : State → State → Type 0 where
  stays : (s : State) → Reaches s s
  then_step : (s s' s'' : State) → Reaches s s' → Step s' s'' → Reaches s s''

-- No object of a thread is null, and what a thread returned is the shared pointer or null.
abbrev IsAgreed : ℕ → Thread → Type 0
IsAgreed center Thread.entered = Unit {0}
IsAgreed center Thread.found_null = Unit {0}
IsAgreed center (Thread.allocated obj) = obj ≢ 0
IsAgreed center (Thread.returned p) = (p ≡ center) ⊎ (p ≡ 0)

abbrev AllAgreed : State → Type 0
AllAgreed (center, threads) = (t : ℕ) → IsAgreed center (threads t)

-- A step keeps a pointer that is set.
advance_keeps : (center fresh : ℕ) (th : Thread) → center ≢ 0 → (advance center fresh th).0 ≡ center
unfolding advance
advance_keeps center fresh Thread.entered set = ground arith
advance_keeps center fresh Thread.found_null set = ground arith
advance_keeps center fresh (Thread.allocated obj) set = ground arith
advance_keeps center fresh (Thread.returned p) set = refl

advance-IsAgreed :
    (center fresh : ℕ) (th : Thread)
    → IsAgreed center th
    → IsAgreed (advance center fresh th).0 (advance center fresh th).1
unfolding advance
advance-IsAgreed center fresh Thread.entered ok = elim (Bool-cases (center == 0)) [
  | inl null ↦ rw null tt
  | inr set ↦ rw set (inl refl)
]
advance-IsAgreed center fresh Thread.found_null ok = elim (Bool-cases (fresh == 0)) [
  | inl failed ↦ rw failed (inl refl)
  | inr made ↦ rw made (λ (e : fresh ≡ 0). ground arith)
]
advance-IsAgreed center fresh (Thread.allocated obj) ok = elim (Bool-cases (center == 0)) [
  | inl won ↦ rw won (inl refl)
  | inr lost ↦ rw lost (inl refl)
]
advance-IsAgreed center fresh (Thread.returned p) ok = ok

-- What was true of a thread stays true when another one moves the shared pointer off null.
IsAgreed-moves :
    (center center' : ℕ) (th : Thread)
    → (center ≢ 0 → center' ≡ center)
    → IsAgreed center th
    → IsAgreed center' th
IsAgreed-moves center center' Thread.entered keeps ok = tt
IsAgreed-moves center center' Thread.found_null keeps ok = tt
IsAgreed-moves center center' (Thread.allocated obj) keeps ok = ok
IsAgreed-moves center center' (Thread.returned p) keeps (inr null) = inr null
IsAgreed-moves center center' (Thread.returned p) keeps (inl same) =
    elim (Bool-cases (center == 0)) [
      | inl null ↦ inr (ground arith)
      | inr set ↦ inl (ground (arith, keeps (ground arith)))
    ]

step-AllAgreed : (s s' : State) → Step s s' → AllAgreed s → AllAgreed s'
step-AllAgreed s s' (Step.step center t fresh threads) agreed u = elim (Bool-cases (t == u)) [
  | inl own ↦ rw own (advance-IsAgreed center fresh (threads t) (agreed t))
  | inr other ↦ rw other (
      IsAgreed-moves center (advance center fresh (threads t)).0 (threads u)
        (advance_keeps center fresh (threads t)) (agreed u))
]

reaches-AllAgreed : (s s' : State) → Reaches s s' → AllAgreed s → AllAgreed s'
reaches-AllAgreed _ _ (Reaches.stays s) agreed = agreed
reaches-AllAgreed _ _ (Reaches.then_step s s' s'' before last) agreed =
    step-AllAgreed s' s'' last (reaches-AllAgreed s s' before agreed)

-- However the calls of any threads interleave, two that returned a center returned the same one.
pub default_center_agrees :
    (s : State)
    → Reaches (0, λ t. Thread.entered) s
    → (t u p q : ℕ) → s.1 t ≡ Thread.returned p
    → s.1 u ≡ Thread.returned q
    → p ≢ 0
    → q ≢ 0
    → p ≡ q
default_center_agrees s reached t u p q did_t did_u real_p real_q =
    let agreed : AllAgreed s = reaches-AllAgreed (0, λ t. Thread.entered) s reached (λ t. tt) in
    let told : IsAgreed s.0 (Thread.returned p) = subst (IsAgreed s.0) did_t (agreed t) in
    let told_too : IsAgreed s.0 (Thread.returned q) = subst (IsAgreed s.0) did_u (agreed u) in
    ground arith
