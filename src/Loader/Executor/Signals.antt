-- ===== src/Loader/Executor/Signals.antt =====
-- crates/grafted-loader/src/executor.rs: `alloc_trampoline_for`, `sigsys_handler`, `enable_sud` and
-- `setup_thread_sud`. The registers are a function of their numbers in an instruction. The `mmap` of
-- the trampoline's page and `prctl` are parameters. A null pointer is 0.
pub mod Laws
use grafted.Base.{
  ℕ, zero, suc, ◌+◌, ◌-◌, ◌*◌, ◌/◌, ◌%◌, ◌^◌, Bool, true, false, ◌&&◌, List, [], ◌∷◌, ◌++◌, Option,
  none, some, ◌==◌, nat_eq, ltb, if◌then◌else◌, u64, Bytes,
}
use grafted.Loader.Memory.{Memory, put, write_word}
use grafted.Loader.Outcome.{Outcome, ok, err, panicked, mmap_error}
use grafted.Loader.Executor.Selectors.{syscall_dispatch_filter_allow, syscall_dispatch_filter_block}
use grafted.Loader.Executor.Syscalls.{Args, Host, Served, process_syscall}
use grafted.Loader.Executor.Stack.{sub64}

abbrev pub Regs : Type 0
Regs = ℕ → ℕ

abbrev pub rax : ℕ
rax = 0

abbrev pub rcx : ℕ
rcx = 1

abbrev pub rdx : ℕ
rdx = 2

abbrev pub rsp : ℕ
rsp = 4

abbrev pub rsi : ℕ
rsi = 6

abbrev pub rdi : ℕ
rdi = 7

abbrev pub rip : ℕ
rip = 16

-- The bytes of a number, the lowest first.
abbrev pub to_le_bytes : ℕ → ℕ → Bytes
to_le_bytes zero v = []
to_le_bytes (suc n) v = (v % 256) ∷ to_le_bytes n (v / 256)

abbrev pub copy_bytes : Memory → ℕ → Bytes → Memory
copy_bytes m at [] = m
copy_bytes m at (b ∷ bs) = put (copy_bytes m (at + 1) bs) at b

-- `movabs r11, sel_ptr`, `mov byte ptr [r11], BLOCK` and `ret`.
unfoldable pub trampoline_code : ℕ → Bytes
trampoline_code sel_ptr =
    (0x49 ∷ (0xbb ∷ to_le_bytes 8 sel_ptr))
    ++ (0x41 ∷ (0xc6 ∷ (0x03 ∷ (syscall_dispatch_filter_block ∷ (0xc3 ∷ [])))))

unfoldable pub alloc_trampoline_for : Option ℕ → ℕ → Memory → Outcome (ℕ × Memory)
alloc_trampoline_for none sel_ptr m = err mmap_error
alloc_trampoline_for (some page) sel_ptr m = ok (page, copy_bytes m page (trampoline_code sel_ptr))

-- The handler returns to the registers, or the process has ended.
pub data Handled (W : Type 0) : Type 0 where
  resumed : Regs → Memory × W → Handled W
  ended : ℕ → Memory × W → Handled W

abbrev pub args_of : Regs → Args
args_of regs = record {
  a0 = regs rdi;
  a1 = regs rsi;
  a2 = regs rdx;
  a3 = regs 10;
  a4 = regs 8;
  a5 = regs 9;
}

-- The resume address goes on the stack, and the trampoline is next.
unfoldable pub redirect : ℕ → ℕ → Regs → Memory → Regs × Memory
redirect trampoline result regs m =
    let new_rsp = sub64 (regs rsp) 8 in
    (put (put (put regs rax result) rsp new_rsp) rip trampoline, write_word 8 m new_rsp (regs rip))

-- `dispatched` says that the signal is one of the dispatch, by its `si_code`.
unfoldable pub sigsys_handler :
    {W : Type 0} → Host (Memory × W) → ℕ → ℕ → Option ℕ → Bool → Regs → Memory × W → Handled W
sigsys_handler host sel_ptr trampoline fd dispatched regs (m, w) =
    if sel_ptr == 0
    then resumed regs (m, w)
    else if dispatched
    then elim (process_syscall host (regs rax) (args_of regs) fd
        (put m sel_ptr syscall_dispatch_filter_allow, w)) [
          | Served.exited code s ↦ ended code s
          | Served.returned result (m', w') ↦
              let (regs', m'') = redirect trampoline result regs m' in resumed regs' (m'', w')
        ]
    else resumed regs
        (put (put m sel_ptr syscall_dispatch_filter_allow) sel_ptr syscall_dispatch_filter_block, w)

-- The addresses whose calls are not dispatched: their start and their number.
unfoldable pub sud_range : ℕ → ℕ × ℕ
sud_range text_base =
    if ltb 0 text_base && ltb text_base 0x1_0000_0000 then (0, 0) else (0x1000, 0xFFFF_F000)

-- `prctl` is given the range and the selector, and answers whether it succeeds.
module _ {W : Type 0} (prctl : ℕ → ℕ → ℕ → Memory × W → Bool × (Memory × W)) where
  unfoldable pub enable_sud : ℕ → ℕ → Memory × W → Outcome (Memory × W)
  enable_sud text_base sel_ptr s =
      let (sud_off, sud_len) = sud_range text_base in
      let (done, s') = prctl sud_off sud_len sel_ptr s in if done then ok s' else err mmap_error

  -- The new thread's trampoline, and what is left when its calls are dispatched. The answer of
  -- `prctl` is not looked at.
  unfoldable pub setup_thread_sud : Option ℕ → ℕ → ℕ → Memory × W → Outcome (ℕ × (Memory × W))
  setup_thread_sud page text_base sel_ptr (m, w) = elim (alloc_trampoline_for page sel_ptr m) [
    | ok (tramp, m1) ↦
        let (sud_off, sud_len) = sud_range text_base in
        let (done, (m2, w')) = prctl sud_off sud_len sel_ptr (m1, w) in
        ok (tramp, (put m2 sel_ptr syscall_dispatch_filter_block, w'))
    | err e ↦ panicked
    | panicked ↦ panicked
  ]
