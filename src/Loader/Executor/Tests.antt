-- ===== src/Loader/Executor/Tests.antt =====
-- The executor's theorems at small programs.
use grafted.Base.{
  ℕ, ◌+◌, ◌/◌, ◌%◌, ◌^◌, ◌≤◌, ◌<◌, ◌≡◌, ◌≢◌, refl, ◌⊎◌, inl, inr, true, false, ◌&&◌, ◌==◌, nat_eq,
  if◌then◌else◌, has_bit, [], ◌∷◌, Option, none, some, get_or, length, codes, arith,
}
use grafted.Kernel.Syscall.{translate, first_arm, darwin_unix_to_linux}
use grafted.Loader.Memory.{Memory, put, read_word, write_word}
use grafted.Loader.Executor.Stack.{build_stack}
use grafted.Loader.Executor.Stack.Strings.{AgreesFrom}
use grafted.Loader.Executor.Stack.Laws.{IsProcessStack, build_stack-IsProcessStack}
use grafted.Loader.Executor.Syscalls.{
  Args, Host, Served, mmap_flags, open_flags, unix_call, vm_protect, trap_call, process_syscall,
}
use grafted.Loader.Executor.Syscalls.Flags.{mmap_flags_bits}
use grafted.Loader.Executor.Syscalls.Laws.{Answers, Call, recorder}
use grafted.Loader.Executor.Syscalls.Exits.{has_exited, process_syscall_exits}
use grafted.Loader.Executor.Selectors.{
  Shared, advance, write_selector, State, act, advances, initial, Reaches, begin, more,
}
use grafted.Loader.Executor.Selectors.Laws.{selectors_apart}
use grafted.Loader.Executor.Signals.{
  Regs, rax, rsp, Handled, trampoline_code, copy_bytes, redirect, sigsys_handler,
}
use grafted.Loader.Executor.Signals.Laws.{cpu_steps, sigsys_handler_resumes}
use grafted.Loader.Executor.Crashes.{
  Statics, null_call, skip_insn, save_crash_site, sigsegv_handler, patch_sites,
  grafted_set_lifecycle_skip_mode,
}
use grafted.Loader.Executor.Crashes.Laws.{Skips, crashes_bounded, is_covered, patch_sites_effect}
use grafted.Loader.Executor.Decode.{opcode_form, decode_modrm, decode_opcode, decode_binary_insn}
use grafted.Loader.Executor.Decode.Laws.{IsRegister, decode_binary_insn_bounds}
use grafted.Loader.Executor.Decode.Encoding.{Insn, encode, destination, decode_binary_insn-encode}

program : Unit {0}
unfolding translate first_arm darwin_unix_to_linux read_word write_word mmap_flags open_flags
    unix_call vm_protect trap_call process_syscall advance write_selector redirect sigsys_handler
    trampoline_code null_call skip_insn save_crash_site sigsegv_handler patch_sites
    grafted_set_lifecycle_skip_mode opcode_form decode_modrm decode_opcode decode_binary_insn
program = tt

abbrev zeros : Memory
zeros = λ x. 0

build_stack-IsProcessStack_example :
    IsProcessStack (codes "app" ∷ (codes "-v" ∷ [])) (codes "A=1" ∷ []) (codes "/app") (
      build_stack 0x10000 (codes "app" ∷ (codes "-v" ∷ [])) (codes "A=1" ∷ []) (codes "/app") zeros)
    × AgreesFrom 0x10000 zeros
        (build_stack 0x10000
          (codes "app" ∷ (codes "-v" ∷ []))
          (codes "A=1" ∷ [])
          (codes "/app")
          zeros).1
build_stack-IsProcessStack_example =
    build_stack-IsProcessStack 0x10000 (codes "app" ∷ (codes "-v" ∷ [])) (codes "A=1" ∷ [])
      (codes "/app") zeros (omega arith) (omega arith)

-- MAP_PRIVATE, MAP_FIXED and MAP_ANON.
test_mmap_flags : mmap_flags 0x1012 ≡ 0x32
unfolding program
test_mmap_flags = refl

mmap_flags_bits_example :
    ((k : ℕ) → k < 5 → has_bit (mmap_flags 0x1012) k ≡ has_bit 0x1012 k)
    × (has_bit (mmap_flags 0x1012) 5 ≡ has_bit 0x1012 12)
    × (has_bit (mmap_flags 0x1012) 14 ≡ has_bit 0x1012 6)
    × (mmap_flags 0x1012 / 2 ^ 6 % 2 ^ 8 ≡ 0)
    × (mmap_flags 0x1012 < 2 ^ 15)
mmap_flags_bits_example = mmap_flags_bits 0x1012

-- O_WRONLY, O_CREAT and O_TRUNC.
test_open_flags : open_flags 0x601 ≡ 0x241
unfolding program
test_open_flags = refl

abbrev six : Args
six = record { a0 = 4096; a1 = 8192; a2 = 3; a3 = 0x1002; a4 = 5; a5 = 0 }

abbrev answers : Answers
answers = record {
  to_syscall = λ n a. 7;
  to_mprotect = λ at size prot. true;
  to_trap = λ n a. some 1;
}

-- `mmap`, and `mach_vm_protect`.
test_process_syscall :
    (process_syscall (recorder answers) 0x20000C5 six none []
      ≡ Served.returned 7 (Call.linux_call 9 (record six { a3 = 0x22 }) ∷ []))
    × (process_syscall (recorder answers) 0x100000E six none []
        ≡ Served.returned 0 (Call.protect_call 8192 4096 5 ∷ []))
unfolding program
test_process_syscall = (refl, refl)

test_process_syscall_exits :
    has_exited (process_syscall (recorder answers) 0x2000001 six none [])
    ≡ ((0x2000001 / 2 ^ 24 % 2 ^ 8 == 2) && (0x2000001 % 2 ^ 24 == 1))
test_process_syscall_exits = process_syscall_exits (recorder answers) six [] 0x2000001 none

-- Two threads, the second before the first has taken its offset.
abbrev page : Option ℕ
page = some 0x7000

abbrev raced : State
raced = act (advance page) 2 (
    act (advance page) 1 (
      act (advance page) 1 (
        act (advance page) 2 (
          act (advance page) 2
            (act (advance page) 1 (act (advance page) 1 (act (advance page) 1 (initial zeros))))))))

raced_reached : Reaches zeros 8 raced
raced_reached =
    let fresh : page ≢ some 0 = λ h. cc in
    more
      (more
        (more
          (more
            (more
              (more (more (more begin (advances 1 page _ fresh)) (advances 1 page _ fresh))
                (advances 1 page _ fresh))
              (advances 2 page _ fresh))
            (advances 2 page _ fresh))
          (advances 1 page _ fresh))
        (advances 1 page _ fresh))
      (advances 2 page _ fresh)

selectors_apart_example :
    (◌≡◌ {A = ℕ} 0x7000 0x7000)
    × (0x7000 + 1 ≢ 0x7000 + 0)
    × (1 < 4096)
    × (0 < 4096)
    × (Shared.memory (State.shared raced) 0x7001 ≡ 0)
    × (Shared.memory (State.shared raced) 0x7000 ≡ 0)
unfolding program
selectors_apart_example =
    selectors_apart zeros 8 raced raced_reached (omega arith) 1 2 0x7000 1 0 0x7000 0 0
      (omega arith) refl refl

-- `getpid` at 0x1234, with the selector at 0x50 and the trampoline at 0x100.
abbrev at_getpid : Regs
at_getpid =
    λ r. if r == 0 then 0x2000014 else if r == 4 then 0x9000 else if r == 16 then 0x1234 else r

abbrev quiet_host : Host (Memory × ℕ)
quiet_host = record {
  syscall = λ n a s. (42, s);
  mprotect = λ at size prot s. (true, s);
  mach_trap = λ n a s. (none, s);
  complain = λ s. s;
}

abbrev with_trampoline : Memory
with_trampoline = copy_bytes zeros 0x100 (trampoline_code 0x50)

abbrev with_selector : Memory
with_selector = put with_trampoline 0x50 0

sigsys_handler_resumes_example :
    (regs1 : Regs) × (m2 : Memory) × (regs2 : Regs) × (m3 : Memory) × (sigsys_handler quiet_host
        0x50 0x100 none true at_getpid
        (with_trampoline, 0)
      ≡ Handled.resumed regs1 (m2, 0))
    × (cpu_steps 3 (regs1, m2) ≡ some (regs2, m3))
    × ((r : ℕ) → regs2 r ≡ (if r == rax then 42 else if r == 11 then 0x50 else at_getpid r))
    × ((x : ℕ)
        → ((at_getpid rsp ≤ x + 8) × (x < at_getpid rsp)) ⊎ (m3 x ≡ put with_selector 0x50 1 x))
unfolding program
sigsys_handler_resumes_example =
    sigsys_handler_resumes quiet_host 0x50 0x100 42 none at_getpid with_trampoline with_selector 0 0
      (omega arith) (omega arith) (omega arith) (omega arith) (omega arith) refl
      (
        refl,
        (
          refl,
          (
            refl,
            (
              refl,
              (
                refl,
                (refl, (refl, (refl, (refl, (refl, (refl, (refl, (refl, (refl, (refl, tt)))))))))),
              ),
            ),
          ),
        ),
      )
      (inl (omega arith)) (inr (omega arith)) (inr (omega arith))

-- `mov rax, [rbx + 8]`.
abbrev load_rax : Insn
load_rax = record {
  rex = some 8;
  two_byte = false;
  opcode = 0x8B;
  modf = 1;
  reg = 0;
  rm = 3;
  sib = 0;
  disp = 8 ∷ [];
  imm = [];
}

abbrev loading : Memory
loading = λ x. get_or (encode load_rax) x 0

decode_binary_insn-encode_example :
    decode_binary_insn loading 0 ≡ (length (encode load_rax), destination load_rax)
decode_binary_insn-encode_example =
    decode_binary_insn-encode loading 0 load_rax
      (refl, (omega arith), (omega arith), (omega arith), refl, refl) refl (omega arith)
      (refl, (refl, (refl, (refl, tt))))

-- `mov dword ptr [rax], 1` is six bytes long, and `mov eax, [0x10]` seven.
test_decode_short :
    (decode_binary_insn (λ x. get_or (0xC7 ∷ (0 ∷ (1 ∷ (0 ∷ (0 ∷ (0 ∷ [])))))) x 0) 0 ≡ (3, none))
    × (decode_binary_insn
          (λ x. get_or (0x8B ∷ (0x04 ∷ (0x25 ∷ (0x10 ∷ (0 ∷ (0 ∷ (0 ∷ []))))))) x 0)
          0
        ≡ (3, some 0))
unfolding program
test_decode_short = (refl, refl)

test_decode_binary_insn_bounds :
    ((decode_binary_insn loading 0).0 ≤ 12) × IsRegister ((decode_binary_insn loading 0).1)
test_decode_binary_insn_bounds = decode_binary_insn_bounds loading 0

abbrev trying : Statics
trying = record {
  recovery_active = true;
  lifecycle_skip_mode = false;
  lifecycle_skip_count = 3;
  crash_sites = [];
  crash_site_count = 0;
  in_handler = false;
}

abbrev skipping : Statics
skipping = record trying { lifecycle_skip_mode = true; lifecycle_skip_count = 1 }

-- A call of a null pointer.
abbrev at_null : Regs
at_null = λ r. if r == 4 then 0x2000 else 0

skipped_once : Skips (grafted_set_lifecycle_skip_mode true trying) 1 skipping
unfolding program
skipped_once = Skips.more false zeros at_null (null_call zeros at_null) Skips.begin refl

crashes_bounded_example : 1 ≤ 500
crashes_bounded_example = crashes_bounded trying 1 skipping skipped_once

patch_sites_effect_example :
    (patch_sites (λ page. page == 0x1000) ((0x1010, 3) ∷ ((0x5000, 2) ∷ [])) zeros).1 0x1012 ≡ (
      if is_covered (λ page. page == 0x1000) ((0x1010, 3) ∷ ((0x5000, 2) ∷ [])) 0x1012
      then 0x90
      else zeros 0x1012)
patch_sites_effect_example =
    patch_sites_effect (λ page. page == 0x1000) ((0x1010, 3) ∷ ((0x5000, 2) ∷ [])) zeros 0x1012
