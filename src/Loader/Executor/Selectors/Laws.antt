-- ===== src/Loader/Executor/Selectors/Laws.antt =====
-- Racing threads get selectors of their own.
use grafted.Base.{
  ℕ, ◌+◌, ◌^◌, ◌≤◌, ◌<◌, ◌≡◌, ◌≢◌, refl, sym, ◌∙◌, ap, Option, none, some, ◌==◌, nat_eq, ltb, arith,
  Bool-cases, inl, inr, ◌⊎◌,
}
use mathlib.Core.Path.{subst}
use grafted.Loader.Memory.{Memory, put}
use grafted.Loader.Executor.Selectors.{
  Shared, Phase, start, unmapped, own_page, lost, paged, took, ready, panicked, advance,
  write_selector, State, act, Step, advances, writes, Reaches, begin, more,
}

-- What holds of one thread.
unfoldable pub IsPlaced : Shared → Phase → Type 0
IsPlaced sh start = Unit {0}
IsPlaced sh unmapped = Unit {0}
IsPlaced sh (own_page q) = q ≢ 0
IsPlaced sh lost = Shared.selector_page sh ≢ 0
IsPlaced sh (paged p) = (p ≢ 0) × (Shared.selector_page sh ≡ p)
IsPlaced sh (took p o) = (p ≢ 0) × (Shared.selector_page sh ≡ p) × (o < Shared.selector_next sh)
IsPlaced sh (ready p o v) =
    (p ≢ 0)
    × (Shared.selector_page sh ≡ p)
    × (o < Shared.selector_next sh)
    × (o < 4096)
    × (Shared.memory sh (p + o) ≡ v)
IsPlaced sh panicked = Unit {0}

unfoldable pub offset_of : Phase → Option ℕ
offset_of (took p o) = some o
offset_of (ready p o v) = some o
offset_of ph = none

-- What another thread's action may do to what is shared.
unfoldable Grows : Shared → Shared → Option ℕ → Type 0
Grows sh sh' mine =
    ((Shared.selector_page sh ≡ 0) ⊎ (Shared.selector_page sh' ≡ Shared.selector_page sh))
    × (Shared.selector_next sh ≤ Shared.selector_next sh')
    × ((o : ℕ)
        → mine ≡ some o
        → Shared.memory sh' (Shared.selector_page sh + o)
          ≡ Shared.memory sh (Shared.selector_page sh + o))

kept :
    (sh sh' : Shared) (ph : Phase) → Grows sh sh' (offset_of ph) → IsPlaced sh ph → IsPlaced sh' ph
unfolding IsPlaced Grows offset_of
kept sh sh' start (page, next, mem) h = tt
kept sh sh' unmapped (page, next, mem) h = tt
kept sh sh' (own_page q) (page, next, mem) h = h
kept sh sh' lost (inl page, next, mem) h = absurd (h page)
kept sh sh' lost (inr page, next, mem) h = λ e. h (sym page ∙ e)
kept sh sh' (paged p) (inl page, next, mem) (h, k) = absurd (h (sym k ∙ page))
kept sh sh' (paged p) (inr page, next, mem) (h, k) = (h, page ∙ k)
kept sh sh' (took p o) (inl page, next, mem) (h, k, l) = absurd (h (sym k ∙ page))
kept sh sh' (took p o) (inr page, next, mem) (h, k, l) = (h, page ∙ k, omega arith)
kept sh sh' (ready p o v) (inl page, next, mem) (h, k, l, b, e) = absurd (h (sym k ∙ page))
kept sh sh' (ready p o v) (inr page, next, mem) (h, k, l, b, e) = (
  h,
  page ∙ k,
  omega arith,
  b,
  subst (λ (q : ℕ). Shared.memory sh' (q + o) ≡ Shared.memory sh (q + o)) k (mem o refl) ∙ e,
)
kept sh sh' panicked (page, next, mem) h = tt

-- Where a thread stands, and that no two have the same offset.
IsSound : ℕ → State → Type 0
IsSound n s =
    (Shared.selector_next (State.shared s) ≤ n)
    × ((i : ℕ) → IsPlaced (State.shared s) (State.threads s i))
    × ((i j o : ℕ)
        → i ≢ j
        → offset_of (State.threads s i) ≡ some o
        → offset_of (State.threads s j) ≢ some o)

-- A thread's offset is below the next one.
offset_below :
    (sh : Shared) (ph : Phase) (o : ℕ)
    → IsPlaced sh ph
    → offset_of ph ≡ some o
    → o < Shared.selector_next sh
unfolding IsPlaced offset_of
offset_below sh (took p x) o (h, k, l) e = ground arith
offset_below sh (ready p x v) o (h, k, l, b, m) e = ground arith
offset_below sh start o h e = absurd cc
offset_below sh unmapped o h e = absurd cc
offset_below sh (own_page q) o h e = absurd cc
offset_below sh lost o h e = absurd cc
offset_below sh (paged p) o h e = absurd cc
offset_below sh panicked o h e = absurd cc

-- What one action promises: the thread is placed, what is shared grows for the others, and an offset
-- the thread has now is the one it had, or a new one.
IsSafe : Shared → Phase → Shared × Phase → Type 0
IsSafe sh ph (sh', ph') =
    IsPlaced sh' ph'
    × (Shared.selector_next sh' ≤ Shared.selector_next sh + 1)
    × ((other : Option ℕ) → ((o : ℕ) → other ≡ some o → offset_of ph ≢ some o) → Grows sh sh' other)
    × ((o : ℕ) → offset_of ph' ≡ some o → (offset_of ph ≡ some o) ⊎ (o ≡ Shared.selector_next sh))
    × ((o : ℕ) → offset_of ph' ≡ some o → o < Shared.selector_next sh')

-- An action that changes nothing shared and gives the thread no offset.
quiet :
    (sh : Shared) (ph ph' : Phase) → IsPlaced sh ph' → offset_of ph' ≡ none → IsSafe sh ph (sh, ph')
unfolding Grows IsSafe
quiet sh ph ph' placed free = (
  placed,
  omega arith,
  (λ other fresh. (inr refl, omega arith, λ o e. refl)),
  (λ o e. absurd cc),
  λ o e. absurd cc,
)

others_kept :
    (sh : Shared) (p o v : ℕ) (other : Option ℕ)
    → Shared.selector_page sh ≡ p
    → ((x : ℕ) → other ≡ some x → some o ≢ some x)
    → (x : ℕ) → other ≡ some x
    → put (Shared.memory sh) (p + o) v (Shared.selector_page sh + x)
      ≡ Shared.memory sh (Shared.selector_page sh + x)
others_kept sh p o v other k fresh x e =
    let apart : o ≢ x = λ h. fresh x e (ap some h) in ground arith

advance-IsSafe :
    (mmap : Option ℕ) (sh : Shared) (ph : Phase)
    → mmap ≢ some 0
    → Shared.selector_next sh + 1 < 2 ^ 64
    → IsPlaced sh ph
    → IsSafe sh ph (advance mmap sh ph)
unfolding advance IsPlaced offset_of Grows IsSafe
advance-IsSafe mmap sh start mapped few placed = elim (Bool-cases (Shared.selector_page sh == 0)) [
  | inl null ↦ rw (null, advance) (quiet sh start unmapped tt refl)
  | inr set ↦
      rw (set, advance)
        (quiet sh start (paged (Shared.selector_page sh)) ((λ h. ground arith), refl) refl)
]
advance-IsSafe none sh unmapped mapped few placed = quiet sh unmapped panicked tt refl
advance-IsSafe (some q) sh unmapped mapped few placed =
    quiet sh unmapped (own_page q) (λ h. mapped (ap some h)) refl
advance-IsSafe mmap sh (own_page q) mapped few placed =
    elim (Bool-cases (Shared.selector_page sh == 0)) [
      | inl null ↦
          rw (null, advance)
            (
              (placed, refl),
              omega arith,
              (λ other fresh. (inl (ground arith), omega arith, λ o e. refl)),
              (λ o e. absurd cc),
              λ o e. absurd cc,
            )
      | inr set ↦ rw (set, advance) (quiet sh (own_page q) lost (λ h. ground arith) refl)
    ]
advance-IsSafe mmap sh lost mapped few placed =
    quiet sh lost (paged (Shared.selector_page sh)) (placed, refl) refl
advance-IsSafe mmap sh (paged p) mapped few (h, k) = (
  (h, k, ground arith),
  ground arith,
  (λ other fresh. (inr refl, ground arith, λ o e. refl)),
  (λ o e. inr (sym (ground arith))),
  λ o e. ground arith,
)
advance-IsSafe mmap sh (took p o) mapped few (h, k, l) = elim (Bool-cases (ltb o 4096)) [
  | inl small ↦
      rw (small, advance)
        (
          (h, k, l, ground arith, ground arith),
          omega arith,
          (λ other fresh. (inr refl, omega arith, others_kept sh p o 0 other k fresh)),
          (λ o e. inl e),
          λ o e. ground arith,
        )
  | inr large ↦ rw (large, advance) (quiet sh (took p o) panicked tt refl)
]
advance-IsSafe mmap sh (ready p o v) mapped few placed = (
  placed,
  omega arith,
  (λ other fresh. (inr refl, omega arith, λ x e. refl)),
  (λ x e. inl e),
  λ x e. offset_below sh (ready p o v) x placed e,
)
advance-IsSafe mmap sh panicked mapped few placed = quiet sh panicked panicked tt refl

write_selector-IsSafe :
    (value : ℕ) (sh : Shared) (ph : Phase)
    → IsPlaced sh ph
    → IsSafe sh ph (write_selector value sh ph)
unfolding write_selector IsPlaced offset_of Grows IsSafe
write_selector-IsSafe value sh (ready p o v) (h, k, l, b, e) = (
  (h, k, l, b, ground arith),
  omega arith,
  (λ other fresh. (inr refl, omega arith, others_kept sh p o value other k fresh)),
  (λ x e. inl e),
  λ x e. ground arith,
)
write_selector-IsSafe value sh start placed = quiet sh start start tt refl
write_selector-IsSafe value sh unmapped placed = quiet sh unmapped unmapped tt refl
write_selector-IsSafe value sh (own_page q) placed = quiet sh (own_page q) (own_page q) placed refl
write_selector-IsSafe value sh lost placed = quiet sh lost lost placed refl
write_selector-IsSafe value sh (paged p) placed = quiet sh (paged p) (paged p) placed refl
write_selector-IsSafe value sh (took p o) placed = (
  placed,
  omega arith,
  (λ other fresh. (inr refl, omega arith, λ x e. refl)),
  (λ x e. inl e),
  λ x e. offset_below sh (took p o) x placed e,
)
write_selector-IsSafe value sh panicked placed = quiet sh panicked panicked tt refl

-- A safe action of one thread keeps all sound.
act-IsSound :
    (action : Shared → Phase → Shared × Phase) (i n : ℕ) (s : State)
    → IsSafe (State.shared s) (State.threads s i) (action (State.shared s) (State.threads s i))
    → IsSound n s
    → IsSound (n + 1) (act action i s)
unfolding IsSound IsSafe
act-IsSound action i n s (placed, few, grows, own, below) (count, all, apart) =
    (omega arith, placed_at, distinct)
  where
    sh : Shared
    sh = State.shared s

    after : Shared × Phase
    after = action sh (State.threads s i)

    placed_at :
        (j : ℕ) → IsPlaced (State.shared (act action i s)) (State.threads (act action i s) j)
    placed_at j = elim (Bool-cases (j == i)) [
      | inl same ↦ rw same placed
      | inr other ↦ rw other (
          kept sh (after.0) (State.threads s j)
            (grows (offset_of (State.threads s j)) (λ o e. apart j i o (λ h. ground arith) e))
            (all j))
    ]

    new_apart :
        (k o : ℕ) → i ≢ k → offset_of (after.1) ≡ some o → offset_of (State.threads s k) ≢ some o
    new_apart k o differ e f = elim (own o e) [
      | inl was ↦ apart i k o differ was f
      | inr new ↦ absurd (omega (arith, offset_below sh (State.threads s k) o (all k) f, new))
    ]

    distinct :
        (j k o : ℕ)
        → j ≢ k
        → offset_of (State.threads (act action i s) j) ≡ some o
        → offset_of (State.threads (act action i s) k) ≢ some o
    distinct j k o differ = elim (Bool-cases (j == i)) [
      | inl here ↦ elim (Bool-cases (k == i)) [
        | inl there ↦ absurd (differ (ground arith))
        | inr there ↦ rw (here, there) (new_apart k o (λ h. ground arith))
      ]
      | inr here ↦ elim (Bool-cases (k == i)) [
        | inl there ↦ rw (here, there) (λ e f. new_apart j o (λ h. ground arith) f e)
        | inr there ↦ rw (here, there) (apart j k o differ)
      ]
    ]

step-IsSound :
    (n : ℕ) (s s' : State) → Step s s' → n + 1 < 2 ^ 64 → IsSound n s → IsSound (n + 1) s'
unfolding IsSound
step-IsSound n _ _ (advances i mmap s mapped) few sound =
    act-IsSound (advance mmap) i n s
      (advance-IsSafe mmap (State.shared s) (State.threads s i) mapped (omega (arith, sound.0))
        (sound.1 i))
      sound
step-IsSound n _ _ (writes i value s) few sound =
    act-IsSound (write_selector value) i n s
      (write_selector-IsSafe value (State.shared s) (State.threads s i) (sound.1 i)) sound

reaches-IsSound : (m : Memory) (n : ℕ) (s : State) → Reaches m n s → n < 2 ^ 64 → IsSound n s
unfolding IsSound IsPlaced offset_of
reaches-IsSound m _ _ begin few = (omega arith, (λ i. tt), λ i j o differ e. absurd cc)
reaches-IsSound m _ _ (more {n} {s} {s'} before step) few =
    step-IsSound n s s' step few (reaches-IsSound m n s before (omega arith))

-- However the actions of the threads interleave, two threads that have their selectors have different
-- bytes of one page, and each byte holds what its thread wrote there last. The run has fewer than
-- 2^64 actions.
pub selectors_apart :
    (m : Memory) (n : ℕ) (s : State)
    → Reaches m n s
    → n < 2 ^ 64
    → (i j p o v q x w : ℕ) → i ≢ j
    → State.threads s i ≡ ready p o v
    → State.threads s j ≡ ready q x w
    → (p ≡ q)
      × (p + o ≢ q + x)
      × (o < 4096)
      × (x < 4096)
      × (Shared.memory (State.shared s) (p + o) ≡ v)
      × (Shared.memory (State.shared s) (q + x) ≡ w)
unfolding IsSound IsPlaced offset_of
selectors_apart m n s run few i j p o v q x w differ at_i at_j =
    let (count, all, apart) = reaches-IsSound m n s run few in
    let (h, k, l, b, e) = subst (IsPlaced (State.shared s)) at_i (all i) in
    let (h', k', l', b', e') = subst (IsPlaced (State.shared s)) at_j (all j) in
    let other : o ≢ x =
      λ same. apart i j x differ (ap offset_of at_i ∙ ap some same) (ap offset_of at_j) in
    (sym k ∙ k', (λ same. other (omega (arith, k, k', same))), b, b', e, e')
