-- ===== src/Loader/Executor/Crashes.antt =====
-- crates/grafted-loader/src/executor.rs: skipping instructions that crash while a binary's lifecycle
-- functions are tried. What the handlers print is left out. `mprotect` is a parameter.
pub mod Laws
use grafted.Base.{
  ℕ, zero, suc, ◌+◌, ◌-◌, ◌*◌, ◌/◌, ◌%◌, ◌^◌, Bool, true, false, not, ◌&&◌, ◌||◌, List, [], ◌∷◌,
  Option, none, some, ◌==◌, nat_eq, ltb, leb, if◌then◌else◌, u32, u64, set, take, get_or, replicate,
  min,
}
use grafted.Loader.Memory.{Memory, put, read_word}
use grafted.Loader.Executor.Signals.{Regs, rax, rdx, rsp, rip}
use grafted.Loader.Executor.Decode.{decode_binary_insn}

-- The statics: RECOVERY_ACTIVE, LIFECYCLE_SKIP_MODE, LIFECYCLE_SKIP_COUNT, CRASH_SITES,
-- CRASH_SITE_COUNT and IN_HANDLER. A site is its address and its length.
pub record Statics : Type 0 where
  pub recovery_active : Bool
  pub lifecycle_skip_mode : Bool
  pub lifecycle_skip_count : ℕ
  pub crash_sites : List (ℕ × ℕ)
  pub crash_site_count : ℕ
  pub in_handler : Bool

unfoldable pub grafted_set_lifecycle_skip_mode : Bool → Statics → Statics
grafted_set_lifecycle_skip_mode active st =
    if active
    then record st { lifecycle_skip_mode = true; lifecycle_skip_count = 0; crash_site_count = 0 }
    else record st { lifecycle_skip_mode = false }

-- How the handler ends: it returns to registers, jumps to the recovery point, or ends the process.
pub data Ending : Type 0 where
  resumed : Regs → Statics → Ending
  jumped : Statics → Ending
  exited : ℕ → Statics → Ending

-- Whether the stack pointer is one that a return address is read from.
abbrev pub is_stack : ℕ → Bool
is_stack sp = ltb 0x1000 sp && ltb sp 0x8000_0000_0000

-- A call of a null pointer returns to its caller with the empty Swift string.
unfoldable pub null_call : Memory → Regs → Regs
null_call m regs =
    put (put (put (put regs rip (read_word 8 m (regs rsp))) rsp (regs rsp + 8)) rax 0) rdx
      0xE000_0000_0000_0000

unfoldable pub save_crash_site : ℕ → ℕ → Statics → Statics
save_crash_site at len st =
    let idx = Statics.crash_site_count st in
    record st {
      crash_site_count = u32 (idx + 1);
      crash_sites =
          if ltb idx 256
          then set (Statics.crash_sites st) idx (at, len % 2 ^ 8)
          else Statics.crash_sites st;
    }

-- The instruction is passed over, and its destination is 0.
unfoldable pub skip_insn : ℕ → Option ℕ → Regs → Regs
skip_insn insn_len none regs = put regs rip (regs rip + insn_len)
skip_insn insn_len (some dest) regs = put (put regs rip (regs rip + insn_len)) dest 0

abbrev pub is_binary : ℕ → Bool
is_binary at = leb 0x1_0000_0000 at && ltb at 0x1_0020_0000

unfoldable pub sigsegv_handler : Bool → Memory → Regs → Statics → Ending
sigsegv_handler is_abort m regs st =
    if Statics.in_handler st
    then (if Statics.recovery_active st then jumped st else exited 139 st)
    else if Statics.recovery_active st
    then (if not is_abort && Statics.lifecycle_skip_mode st
        then (let skip_n = Statics.lifecycle_skip_count st in
            let counted : Statics = record st { lifecycle_skip_count = u32 (skip_n + 1) } in
            let (insn_len, dest_reg) = decode_binary_insn m (regs rip) in
            if ltb skip_n 500 && ((regs rip == 0) && is_stack (regs rsp))
            then resumed (null_call m regs) counted
            else if ltb skip_n 500 && (is_binary (regs rip) && ltb 0 insn_len)
            then resumed (skip_insn insn_len dest_reg regs)
                (save_crash_site (regs rip) insn_len counted)
            else jumped counted)
        else jumped st)
    else exited 139 st

abbrev pub fill_nops : Memory → ℕ → ℕ → Memory
fill_nops m at zero = m
fill_nops m at (suc len) = put (fill_nops m (at + 1) len) at 0x90

-- `mprotect` says for a page whether it could be made writable.
module _ (mprotect : ℕ → Bool) where
  -- The loop over the sites, with the number of those patched.
  unfoldable pub patch_sites : List (ℕ × ℕ) → Memory → ℕ × Memory
  patch_sites [] m = (0, m)
  patch_sites ((at, len) ∷ sites) m =
      if (at == 0) || (len == 0)
      then patch_sites sites m
      else if mprotect (at / 4096 * 4096)
      then (let (n, m') = patch_sites sites (fill_nops m at len) in (n + 1, m'))
      else patch_sites sites m

  unfoldable pub grafted_nop_saved_crash_sites : Statics → Memory → ℕ × (Statics × Memory)
  grafted_nop_saved_crash_sites st m =
      let (patched, m') =
        patch_sites (take (min (Statics.crash_site_count st) 256) (Statics.crash_sites st)) m in
      (patched, (record st { crash_site_count = 0 }, m'))
