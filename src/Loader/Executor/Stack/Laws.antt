-- ===== src/Loader/Executor/Stack/Laws.antt =====
-- What the new process finds on its stack.
use mathlib.Core.Path.{subst}
use grafted.Base.{
  ℕ, ◌+◌, ◌-◌, ◌*◌, ◌%◌, ◌^◌, ◌≤◌, ◌<◌, ◌≡◌, refl, ap, sym, ◌∙◌, List, [], ◌∷◌, ◌++◌, ◌==◌, nat_eq,
  length, length-append, Bytes, codes, arith, inl, inr, Bool-cases,
}
use grafted.Loader.Memory.{
  Memory, read_word, write_word, read-write_same, byte-write_apart, read_word-cong,
}
use grafted.Loader.Executor.Stack.{
  Stack, sub64, push_strings, push_u64, push_all, align, build_stack,
}
use grafted.Loader.Executor.Stack.Strings.{
  AreStrings, AreStrings-kept, AreAbove, AreWords, AgreesFrom, room, push_strings-lem,
}

abbrev AreSmall : List ℕ → Type 0
AreSmall [] = Unit {0}
AreSmall (v ∷ vs) = (v < 2 ^ 64) × AreSmall vs

AreWords-kept :
    (m m' : Memory) (sp at : ℕ) (ws : List ℕ)
    → AgreesFrom sp m m'
    → sp ≤ at
    → AreWords m at ws
    → AreWords m' at ws
AreWords-kept m m' sp at [] same above h = tt
AreWords-kept m m' sp at (w ∷ ws) same above (h, rest) = (
  read_word-cong 8 m' m at (λ x lo hi. same x (omega arith)) ∙ h,
  AreWords-kept m m' sp (at + 8) ws same (omega arith) rest,
)

-- Pushing words leaves them below the pointer in their order.
push_all-lem :
    (vs : List ℕ) (sp : ℕ) (m : Memory)
    → 8 * length vs ≤ sp
    → sp < 2 ^ 64
    → AreSmall vs
    → ((push_all (sp, m) vs).0 ≡ sp - 8 * length vs)
      × AgreesFrom sp m (push_all (sp, m) vs).1
      × AreWords (push_all (sp, m) vs).1 (sp - 8 * length vs) vs
unfolding push_all push_u64
push_all-lem [] sp m fits small words = (omega arith, λ x h. refl, tt)
push_all-lem (v ∷ vs) sp m fits small (here, words) =
    let (down, same, there) = push_all-lem vs sp m (omega arith) small words in
    let m1 = (push_all (sp, m) vs).1 in
    let at = sp - 8 * length (v ∷ vs) in
    let to : sub64 (push_all (sp, m) vs).0 8 ≡ at = ground (arith, down) in
    let moved : (x : ℕ)
        → write_word 8 m1 (sub64 (push_all (sp, m) vs).0 8) v x ≡ write_word 8 m1 at v x =
      λ x. ap (λ (k : ℕ). write_word 8 m1 k v x) to in
    let next : sp - 8 * length vs ≡ at + 8 = omega arith in
    (
      to,
      λ x h. moved x ∙ (byte-write_apart 8 m1 at v x (inr (omega arith)) ∙ same x h),
      (
        ap (λ (k : ℕ). read_word 8 (write_word 8 m1 k v) at) to ∙ read-write_same 8 m1 at v here,
        AreWords-kept m1 (write_word 8 m1 (sub64 (push_all (sp, m) vs).0 8) v) (at + 8) (at + 8) vs
            (λ x h. moved x ∙ byte-write_apart 8 m1 at v x (inr h)) (omega arith)
            (subst (λ (k : ℕ). AreWords m1 k vs) next there),
      ),
    )

push_all-append :
    (us vs : List ℕ) (st : Stack) → push_all st (us ++ vs) ≡ push_all (push_all st vs) us
unfolding push_all
push_all-append [] vs st = refl
push_all-append (u ∷ us) vs st = ap (λ (s : Stack). push_u64 s u) (push_all-append us vs st)

AreSmall-append : (us vs : List ℕ) → AreSmall us → AreSmall vs → AreSmall (us ++ vs)
AreSmall-append [] vs h k = k
AreSmall-append (u ∷ us) vs (here, h) k = (here, AreSmall-append us vs h k)

AreAbove-AreSmall : (sp : ℕ) (ps : List ℕ) → AreAbove sp ps → AreSmall ps
AreAbove-AreSmall sp [] above = tt
AreAbove-AreSmall sp (p ∷ ps) (here, above) = (here.1, AreAbove-AreSmall sp ps above)

-- The words that `build_stack` pushes, lowest first.
abbrev pub block : ℕ → List ℕ → List ℕ → List ℕ → List ℕ
block argc argv envp apple = argc ∷ (argv ++ (0 ∷ (envp ++ (0 ∷ (apple ++ (0 ∷ []))))))

push_block :
    (argc : ℕ) (argv envp apple : List ℕ) (st : Stack)
    → push_u64
        (push_all (push_u64 (push_all (push_u64 (push_all (push_u64 st 0) apple) 0) envp) 0) argv)
        argc
      ≡ push_all st (block argc argv envp apple)
unfolding push_all
push_block argc argv envp apple st =
    rw
      (
        push_all-append argv (0 ∷ (envp ++ (0 ∷ (apple ++ (0 ∷ []))))) st,
        push_all-append envp (0 ∷ (apple ++ (0 ∷ []))) st,
        push_all-append apple (0 ∷ []) st,
      )
      refl

length-block :
    (argc : ℕ) (argv envp apple : List ℕ)
    → length (block argc argv envp apple) ≡ length argv + length envp + length apple + 4
length-block argc argv envp apple = omega (
  arith,
  length-append argv (0 ∷ (envp ++ (0 ∷ (apple ++ (0 ∷ []))))),
  length-append envp (0 ∷ (apple ++ (0 ∷ []))),
  length-append apple (0 ∷ []),
)

-- Where the block starts: at a multiple of 16, whatever the number of strings.
align-lem :
    (sp n : ℕ) (m : Memory)
    → 8 * n + 24 ≤ sp
    → sp < 2 ^ 64
    → (((align (sp, m) n).0 - 8 * n) % 16 ≡ 0)
      × ((align (sp, m) n).1 ≡ m)
      × ((align (sp, m) n).0 ≤ sp)
      × (8 * n ≤ (align (sp, m) n).0)
unfolding align
align-lem sp n m fits small = elim (Bool-cases (n % 2 == 0)) [
  | inl even ↦ ground arith
  | inr odd ↦ ground arith
]

block_laid :
    (ws : List ℕ) (sp : ℕ) (m : Memory)
    → 8 * length ws + 24 ≤ sp
    → sp < 2 ^ 64
    → AreSmall ws
    → let st = push_all (align (sp, m) (length ws)) ws in
      (st.0 % 16 ≡ 0) × AreWords st.1 st.0 ws × AgreesFrom sp m st.1
block_laid ws sp m fits small words =
    let (even, same_m, lower, enough) = align-lem sp (length ws) m fits small in
    let at = (align (sp, m) (length ws)).0 in
    let (down, same, there) = push_all-lem ws at m enough (omega arith) words in
    let is : align (sp, m) (length ws) ≡ (at, m) = ap (λ (k : Memory). (at, k)) same_m in
    subst
      (λ (a : Stack).
        ((push_all a ws).0 % 16 ≡ 0)
        × AreWords (push_all a ws).1 (push_all a ws).0 ws
        × AgreesFrom sp m (push_all a ws).1)
      (sym is)
      (
        omega arith,
        subst (λ (k : ℕ). AreWords (push_all (at, m) ws).1 k ws) (sym down) there,
        λ x h. same x (omega arith),
      )

abbrev pub apple_of : Bytes → List Bytes
apple_of binary_path = (codes "executable_path=" ++ binary_path) ∷ []

-- A stack that holds what a Darwin process expects: the stack pointer is a multiple of 16, and from
-- it on stand the count of arguments and then, each list ended by a null pointer, pointers to the
-- arguments, to the environment and to the path of the executable, all complete strings.
abbrev pub IsProcessStack : List Bytes → List Bytes → Bytes → Stack → Type 0
IsProcessStack argv envp binary_path (sp, m) =
    (argv_ptrs envp_ptrs apple_ptrs : List ℕ) × ((sp % 16 ≡ 0)
      × AreWords m sp (block (length argv) argv_ptrs envp_ptrs apple_ptrs)
      × AreStrings m argv_ptrs argv
      × AreStrings m envp_ptrs envp
      × AreStrings m apple_ptrs (apple_of binary_path))

room-length : (ss : List Bytes) → 8 * length ss ≤ room ss
room-length [] = omega arith
room-length (s ∷ ss) = omega (arith, room-length ss)

-- If it has room below `stack_top`, `build_stack` leaves such a stack, and writes nothing above.
pub build_stack-IsProcessStack :
    (stack_top : ℕ) (argv envp : List Bytes) (binary_path : Bytes) (m : Memory)
    → stack_top < 2 ^ 64
    → room (apple_of binary_path) + room envp + room argv + 8 * (length argv + length envp + 5) + 24
      ≤ stack_top
    → IsProcessStack argv envp binary_path (build_stack stack_top argv envp binary_path m)
      × AgreesFrom stack_top m (build_stack stack_top argv envp binary_path m).1
unfolding build_stack
build_stack-IsProcessStack stack_top argv envp binary_path m small fits =
    let apple = apple_of binary_path in
    let r1 = push_strings (stack_top, m) apple in
    let r2 = push_strings r1.0 envp in
    let r3 = push_strings r2.0 argv in
    let (lo1, hi1, same1, above1, strings1, size1) =
      push_strings-lem apple stack_top m (omega arith) small in
    let (lo2, hi2, same2, above2, strings2, size2) =
      push_strings-lem envp r1.0.0 r1.0.1 (omega arith) (omega arith) in
    let (lo3, hi3, same3, above3, strings3, size3) =
      push_strings-lem argv r2.0.0 r2.0.1 (omega arith) (omega arith) in
    let ws = block (length argv) r3.1 r2.1 r1.1 in
    let size : length ws ≡ 1 + (length argv + 1) + (length envp + 1) + (1 + 1) =
      omega (arith, length-block (length argv) r3.1 r2.1 r1.1) in
    let words : AreSmall ws = (
      omega (arith, room-length argv),
      AreSmall-append r3.1 _ (AreAbove-AreSmall r3.0.0 r3.1 above3) (
        omega arith,
        AreSmall-append r2.1 _ (AreAbove-AreSmall r2.0.0 r2.1 above2) (
          omega arith,
          AreSmall-append r1.1 _ (AreAbove-AreSmall r1.0.0 r1.1 above1) (omega arith, tt),
        ),
      ),
    ) in
    let st = push_all (align r3.0 (length ws)) ws in
    let (even, laid, same) = block_laid ws r3.0.0 r3.0.1 (omega arith) (omega arith) words in
    let same_all : build_stack stack_top argv envp binary_path m ≡ st =
      push_block (length argv) r3.1 r2.1 r1.1
        (align r3.0 (1 + (length argv + 1) + (length envp + 1) + (1 + 1)))
      ∙ ap (λ (n : ℕ). push_all (align r3.0 n) ws) (sym size) in
    subst (λ (b : Stack). IsProcessStack argv envp binary_path b × AgreesFrom stack_top m b.1)
      (sym same_all)
      (
        (
          r3.1,
          r2.1,
          r1.1,
          (
            even,
            laid,
            AreStrings-kept r3.0.1 st.1 r3.0.0 r3.1 argv same above3 strings3,
            AreStrings-kept r2.0.1 st.1 r2.0.0 r2.1 envp (λ x h. same x (omega arith) ∙ same3 x h)
                above2 strings2,
            AreStrings-kept r1.0.1 st.1 r1.0.0 r1.1 apple
                (λ x h. same x (omega arith) ∙ (same3 x (omega arith) ∙ same2 x h)) above1 strings1,
          ),
        ),
        λ x h. same x (omega arith) ∙ (same3 x (omega arith) ∙ (same2 x (omega arith) ∙ same1 x h)),
      )
