-- ===== src/Loader/Executor/Signals/Laws.antt =====
-- What the handler and the trampoline together leave.
use grafted.Base.{
  ℕ, zero, suc, ◌+◌, ◌-◌, ◌/◌, ◌^◌, ◌≤◌, ◌<◌, ◌≡◌, ◌≢◌, refl, ◌∙◌, ap, true, false, ◌&&◌, [], ◌∷◌,
  Option, none, some, ◌==◌, nat_eq, ltb, leb, if◌then◌else◌, u64, Bytes, arith, ◌⊎◌, inl, inr,
  Bool-cases,
}
use native.Mathlib.Nat.{pow-suc}
use mathlib.Core.Path.{subst}
use grafted.Loader.Memory.{
  Memory, put, write_word, read_word, read-write_same, byte-write_apart, read_word-cong,
}
use grafted.Loader.Executor.Code.{HoldsBytes, HoldsBytes-kept, HoldsBytes-append, byte_at}
use grafted.Loader.Executor.Syscalls.{Host, Served, process_syscall}
use grafted.Loader.Executor.Stack.{sub64}
use grafted.Loader.Executor.Signals.{
  Regs, rax, args_of, Handled, sigsys_handler, rsp, rip, to_le_bytes, copy_bytes, trampoline_code,
  redirect, sud_range,
}

-- The processor on the three instructions of the trampoline: `movabs r11, imm64`,
-- `mov byte ptr [r11], imm8` and `ret`.
unfoldable pub cpu_step : Regs × Memory → Option (Regs × Memory)
cpu_step (regs, m) =
    let at = regs rip in
    if (m at == 0x49) && (m (at + 1) == 0xbb)
    then some (put (put regs 11 (read_word 8 m (at + 2))) rip (at + 10), m)
    else if (m at == 0x41) && ((m (at + 1) == 0xc6) && (m (at + 2) == 0x03))
    then some (put regs rip (at + 4), put m (regs 11) (m (at + 3)))
    else if m at == 0xc3
    then some (put (put regs rip (read_word 8 m (regs rsp))) rsp (u64 (regs rsp + 8)), m)
    else none

unfoldable pub cpu_steps : ℕ → Regs × Memory → Option (Regs × Memory)
cpu_steps zero c = some c
cpu_steps (suc n) c = elim (cpu_step c) [ none ↦ none | some c' ↦ cpu_steps n c' ]

-- The bytes of a number, read as a word.
read_word-to_le_bytes :
    (n : ℕ) (m : Memory) (at v : ℕ)
    → v < 256 ^ n
    → HoldsBytes m at (to_le_bytes n v)
    → read_word n m at ≡ v
unfolding read_word
read_word-to_le_bytes zero m at v small h = omega arith
read_word-to_le_bytes (suc n) m at v small (h, rest) =
    omega
      (arith, h, read_word-to_le_bytes n m (at + 1) (v / 256) (omega (arith, pow-suc 256 n)) rest)

copy_bytes_below : (m : Memory) (at : ℕ) (bs : Bytes) (x : ℕ) → x < at → copy_bytes m at bs x ≡ m x
copy_bytes_below m at [] x h = refl
copy_bytes_below m at (b ∷ bs) x h = ground (arith, copy_bytes_below m (at + 1) bs x (omega arith))

pub copy_bytes-HoldsBytes :
    (m : Memory) (at : ℕ) (bs : Bytes) → HoldsBytes (copy_bytes m at bs) at bs
copy_bytes-HoldsBytes m at [] = tt
copy_bytes-HoldsBytes m at (b ∷ bs) = (
  ground arith,
  HoldsBytes-kept (copy_bytes m at (b ∷ bs)) (copy_bytes m (at + 1) bs) (at + 1) bs
      (λ x lo hi. ground arith) (copy_bytes-HoldsBytes m (at + 1) bs),
)

movabs_step :
    (regs : Regs) (m : Memory) (sel : ℕ)
    → sel < 2 ^ 64
    → m (regs rip) ≡ 0x49
    → m (regs rip + 1) ≡ 0xbb
    → HoldsBytes m (regs rip + 2) (to_le_bytes 8 sel)
    → cpu_step (regs, m) ≡ some (put (put regs 11 sel) rip (regs rip + 10), m)
unfolding cpu_step
movabs_step regs m sel small b0 b1 word =
    rw (b0, b1, read_word-to_le_bytes 8 m (regs rip + 2) sel (omega arith) word) refl

mov_step :
    (regs : Regs) (m : Memory) (imm : ℕ)
    → m (regs rip) ≡ 0x41
    → m (regs rip + 1) ≡ 0xc6
    → m (regs rip + 2) ≡ 0x03
    → m (regs rip + 3) ≡ imm
    → cpu_step (regs, m) ≡ some (put regs rip (regs rip + 4), put m (regs 11) imm)
unfolding cpu_step
mov_step regs m imm b0 b1 b2 b3 = rw (b0, b1, b2, b3) refl

ret_step :
    (regs : Regs) (m : Memory) (to : ℕ)
    → m (regs rip) ≡ 0xc3
    → read_word 8 m (regs rsp) ≡ to
    → cpu_step (regs, m) ≡ some (put (put regs rip to) rsp (u64 (regs rsp + 8)), m)
unfolding cpu_step
ret_step regs m to b0 word = rw (b0, word) refl

cpu_steps_next :
    (n : ℕ) (c c' : Regs × Memory) → cpu_step c ≡ some c' → cpu_steps (suc n) c ≡ cpu_steps n c'
unfolding cpu_steps
cpu_steps_next n c c' e = rw (e, cpu_steps) refl

put_apart : (m : Memory) (at b x : ℕ) → x ≢ at → put m at b x ≡ m x
put_apart m at b x h = ground arith

-- The trampoline, run from its page.
run_trampoline :
    (regs : Regs) (m : Memory) (sel : ℕ)
    → sel < 2 ^ 64
    → HoldsBytes m (regs rip) (trampoline_code sel)
    → (sel < regs rip) ⊎ (regs rip + 15 ≤ sel)
    → cpu_steps 3 (regs, m)
      ≡ some (
        put
            (put
              (put (put (put regs 11 sel) rip (regs rip + 10)) rip (regs rip + 10 + 4))
              rip
              (read_word 8 (put m sel 1) (regs rsp)))
            rsp
            (u64 (regs rsp + 8)),
        put m sel 1,
      )
unfolding trampoline_code cpu_steps
run_trampoline regs m sel small code apart =
    let head =
      HoldsBytes-append m (regs rip) (0x49 ∷ (0xbb ∷ to_le_bytes 8 sel))
        (0x41 ∷ (0xc6 ∷ (0x03 ∷ (1 ∷ (0xc3 ∷ []))))) code in
    let (b0, (b1, word)) = head.0 in
    let (c0, (c1, (c2, (c3, (c4, end))))) = head.1 in
    let regs1 : Regs = put (put regs 11 sel) rip (regs rip + 10) in
    let regs2 : Regs = put regs1 rip (regs rip + 10 + 4) in
    let m2 : Memory = put m sel 1 in
    let last : m2 (regs rip + 10 + 4) ≡ 0xc3 =
      put_apart m sel 1 (regs rip + 10 + 4)
        (elim apart [ inl h ↦ (λ e. omega arith) | inr h ↦ (λ e. omega arith) ])
      ∙ byte_at m (regs rip + 10 + 1 + 1 + 1 + 1) (regs rip + 10 + 4) 0xc3 (omega arith) c4 in
    cpu_steps_next 2 (regs, m) (regs1, m)
      (movabs_step regs m sel small b0 b1
        (subst (λ (x : ℕ). HoldsBytes m x (to_le_bytes 8 sel)) (two (regs rip)) word))
    ∙ cpu_steps_next 1 (regs1, m) (regs2, m2)
        (mov_step regs1 m 1 c0 c1
          (byte_at m (regs rip + 10 + 1 + 1) (regs rip + 10 + 2) 3 (omega arith) c2)
          (byte_at m (regs rip + 10 + 1 + 1 + 1) (regs rip + 10 + 3) 1 (omega arith) c3))
    ∙ cpu_steps_next 0 (regs2, m2)
        (put (put regs2 rip (read_word 8 m2 (regs rsp))) rsp (u64 (regs rsp + 8)), m2)
        (ret_step regs2 m2 (read_word 8 m2 (regs rsp)) last refl)
  where
    two : (x : ℕ) → x + 1 + 1 ≡ x + 2
    two x = omega arith

-- The registers after the handler and the trampoline.
regs_back :
    (regs : Regs) (result sel below page a b back top : ℕ)
    → back ≡ regs rip
    → top ≡ regs rsp
    → (r : ℕ)
    → put
        (put
          (put (put (put (put (put (put regs rax result) rsp below) rip page) 11 sel) rip a) rip b)
          rip
          back)
        rsp
        top
        r
      ≡ (if r == rax then result else if r == 11 then sel else regs r)
regs_back regs result sel below page a b back top e f r = ground arith

-- After a system call that returns, the handler resumes in the trampoline, and its three instructions
-- bring the program back behind the call: every register is what it was, `rip` and `rsp` too, but
-- `rax` holds the result and `r11` the selector's address; the selector is BLOCK, and of the memory
-- that the host left only the eight bytes below the stack pointer may differ.
pub sigsys_handler_resumes :
    {W : Type 0} (host : Host (Memory × W)) (sel page result : ℕ) (fd : Option ℕ) (regs : Regs)
    (m m1 : Memory) (w w1 : W)
    → sel ≢ 0
    → sel < 2 ^ 64
    → 8 ≤ regs rsp
    → regs rsp < 2 ^ 64
    → regs rip < 2 ^ 64
    → process_syscall host (regs rax) (args_of regs) fd (put m sel 0, w)
      ≡ Served.returned result (m1, w1)
    → HoldsBytes m1 page (trampoline_code sel)
    → (sel < page) ⊎ (page + 15 ≤ sel)
    → (regs rsp ≤ page) ⊎ (page + 15 + 8 ≤ regs rsp)
    → (regs rsp ≤ sel) ⊎ (sel + 8 < regs rsp)
    → (regs1 : Regs) × (m2 : Memory) × (regs2 : Regs) × (m3 : Memory) × (sigsys_handler host sel
          page fd true regs
          (m, w)
        ≡ Handled.resumed regs1 (m2, w1))
      × (cpu_steps 3 (regs1, m2) ≡ some (regs2, m3))
      × ((r : ℕ) → regs2 r ≡ (if r == rax then result else if r == 11 then sel else regs r))
      × ((x : ℕ) → ((regs rsp ≤ x + 8) × (x < regs rsp)) ⊎ (m3 x ≡ put m1 sel 1 x))
unfolding sigsys_handler redirect trampoline_code
sigsys_handler_resumes host sel page result fd regs m m1 w w1 set small low high back served code
      apart page_apart sel_apart =
    let new_rsp : ℕ = sub64 (regs rsp) 8 in
    let at : new_rsp ≡ regs rsp - 8 = omega arith in
    let regs1 : Regs = put (put (put regs rax result) rsp new_rsp) rip page in
    let m2 : Memory = write_word 8 m1 new_rsp (regs rip) in
    let code2 : HoldsBytes m2 page (trampoline_code sel) =
      HoldsBytes-kept m2 m1 page (trampoline_code sel)
        (λ x lo hi.
          byte-write_apart 8 m1 new_rsp (regs rip) x
            (elim page_apart [ inl h ↦ inr (omega arith) | inr h ↦ inl (omega arith) ]))
        code in
    let popped : read_word 8 (put m2 sel 1) new_rsp ≡ regs rip =
      read_word-cong 8 (put m2 sel 1) m2 new_rsp (λ x lo hi.
        put_apart m2 sel 1 x
          (elim sel_apart [ inl h ↦ (λ e. omega arith) | inr h ↦ (λ e. omega arith) ]))
      ∙ read-write_same 8 m1 new_rsp (regs rip) (omega arith) in
    let differs : (sel == 0) ≡ false = ground arith in
    let regs2 : Regs =
      put
        (put (put (put (put regs1 11 sel) rip (page + 10)) rip (page + 10 + 4)) rip
          (read_word 8 (put m2 sel 1) new_rsp))
        rsp (u64 (new_rsp + 8)) in
    (
      regs1,
      m2,
      regs2,
      put m2 sel 1,
      rw (differs, served, sigsys_handler) refl,
      run_trampoline regs1 m2 sel small code2 apart,
      regs_back regs result sel new_rsp page (page + 10) (page + 10 + 4)
          (read_word 8 (put m2 sel 1) new_rsp) (u64 (new_rsp + 8)) popped (omega arith),
      λ x. elim (Bool-cases (leb (regs rsp) (x + 8) && ltb x (regs rsp))) [
        | inl inside ↦ inl (ground arith, ground arith)
        | inr outside ↦ inr (
            ap (λ (b : ℕ). if x == sel then 1 else b)
              (byte-write_apart 8 m1 new_rsp (regs rip) x (elim (Bool-cases (ltb x new_rsp)) [
                | inl h ↦ inl (ground arith)
                | inr h ↦ inr (ground arith)
              ])))
      ],
    )

-- A system call made at or above a text base that is set is dispatched: its address is not in the
-- exempt range.
pub sud_range_catches :
    (text_base ip : ℕ)
    → 0 < text_base
    → text_base ≤ ip
    → (ip < (sud_range text_base).0) ⊎ ((sud_range text_base).0 + (sud_range text_base).1 ≤ ip)
unfolding sud_range
sud_range_catches text_base ip set above =
    elim (Bool-cases (ltb 0 text_base && ltb text_base 0x1_0000_0000)) [
      | inl small ↦ rw small (inr (omega arith))
      | inr large ↦ rw large (inr (ground arith))
    ]
