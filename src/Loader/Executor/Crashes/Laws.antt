-- ===== src/Loader/Executor/Crashes/Laws.antt =====
-- How often instructions are skipped, and what is patched.
use grafted.Base.{
  ℕ, zero, suc, ◌+◌, ◌*◌, ◌/◌, ◌≤◌, ◌<◌, ◌≡◌, refl, Bool, true, false, not, ◌&&◌, ◌||◌, List, [],
  ◌∷◌, ◌==◌, nat_eq, ltb, leb, if◌then◌else◌, arith, inl, inr, Bool-cases,
}
use mathlib.Core.Path.{subst}
use grafted.Loader.Memory.{Memory}
use grafted.Loader.Executor.Signals.{Regs, rip, rsp}
use grafted.Loader.Executor.Decode.{decode_binary_insn}
use grafted.Loader.Executor.Crashes.{
  Statics, Ending, resumed, jumped, exited, is_stack, is_binary, save_crash_site, sigsegv_handler,
  fill_nops, patch_sites, grafted_set_lifecycle_skip_mode,
}

-- What a handler that returns leaves of the count.
IsCounted : ℕ → Ending → Type 0
IsCounted n (resumed regs st) = (n < 500) × (Statics.lifecycle_skip_count st ≡ n + 1)
IsCounted n (jumped st) = Unit {0}
IsCounted n (exited code st) = Unit {0}

sigsegv_handler-IsCounted :
    (is_abort : Bool) (m : Memory) (regs : Regs) (st : Statics)
    → IsCounted (Statics.lifecycle_skip_count st) (sigsegv_handler is_abort m regs st)
unfolding IsCounted sigsegv_handler save_crash_site
sigsegv_handler-IsCounted is_abort m regs st = elim (Bool-cases (Statics.in_handler st)) [
  | inl again ↦ elim (Bool-cases (Statics.recovery_active st)) [
    | inl active ↦ rw (again, active, sigsegv_handler) tt
    | inr idle ↦ rw (again, idle, sigsegv_handler) tt
  ]
  | inr first ↦ elim (Bool-cases (Statics.recovery_active st)) [
    | inr idle ↦ rw (first, idle, sigsegv_handler) tt
    | inl active ↦ elim (Bool-cases (not is_abort && Statics.lifecycle_skip_mode st)) [
      | inr plain ↦ rw (first, active, plain, sigsegv_handler) tt
      | inl skips ↦
          elim (Bool-cases (
            ltb (Statics.lifecycle_skip_count st) 500
            && ((regs rip == 0) && is_stack (regs rsp)))) [
              | inl null ↦
                  rw (first, active, skips, null, sigsegv_handler) (ground arith, ground arith)
              | inr other ↦
                  elim (Bool-cases (
                    ltb (Statics.lifecycle_skip_count st) 500
                    && (is_binary (regs rip) && ltb 0 ((decode_binary_insn m (regs rip)).0)))) [
                      | inl known ↦
                          rw (first, active, skips, other, known, sigsegv_handler)
                            (ground arith, ground arith)
                      | inr unknown ↦ rw (first, active, skips, other, unknown, sigsegv_handler) tt
                    ]
            ]
    ]
  ]
]

-- Crashes after which the handler returned, one after the other, with whatever memory and registers.
pub data Skips (st : Statics) : ℕ → Statics → Type 0 where
  begin : Skips st 0 st
  more :
      {n : ℕ} {st' st'' : Statics} (is_abort : Bool) (m : Memory) (regs regs' : Regs)
      → Skips st n st'
      → sigsegv_handler is_abort m regs st' ≡ resumed regs' st''
      → Skips st (n + 1) st''

crashes_counted :
    (st : Statics) (n : ℕ) (st' : Statics)
    → Skips st n st'
    → Statics.lifecycle_skip_count st ≡ 0
    → (Statics.lifecycle_skip_count st' ≡ n) × (n ≤ 500)
unfolding IsCounted
crashes_counted st _ _ begin zeroed = (zeroed, omega arith)
crashes_counted st _ _ (more {n} {st'} {st''} is_abort m regs regs' before step) zeroed =
    let (same, below) = crashes_counted st n st' before zeroed in
    let (few, next) =
      subst (IsCounted (Statics.lifecycle_skip_count st')) step
        (sigsegv_handler-IsCounted is_abort m regs st') in
    (omega arith, omega arith)

-- Once skip mode is switched on, the handler returns at most 500 times before it jumps to the
-- recovery point or ends the process, whatever crashes.
pub crashes_bounded :
    (st : Statics) (n : ℕ) (st' : Statics)
    → Skips (grafted_set_lifecycle_skip_mode true st) n st'
    → n ≤ 500
unfolding grafted_set_lifecycle_skip_mode
crashes_bounded st n st' skips =
    (crashes_counted (grafted_set_lifecycle_skip_mode true st) n st' skips refl).1

fill_nops_effect :
    (m : Memory) (at len x : ℕ)
    → fill_nops m at len x ≡ (if leb at x && ltb x (at + len) then 0x90 else m x)
fill_nops_effect m at zero x = ground arith
fill_nops_effect m at (suc len) x = ground (arith, fill_nops_effect m (at + 1) len x)

module _ (mprotect : ℕ → Bool) where
  -- A byte of a site that is patched.
  abbrev pub is_covered : List (ℕ × ℕ) → ℕ → Bool
  is_covered [] x = false
  is_covered ((at, len) ∷ sites) x =
      (not (at == 0) && (mprotect (at / 4096 * 4096) && (leb at x && ltb x (at + len))))
      || is_covered sites x

  -- The patched memory has the byte of `nop` wherever a saved site with a writable page covers it,
  -- however the sites overlap, and is unchanged elsewhere.
  pub patch_sites_effect :
      (sites : List (ℕ × ℕ)) (m : Memory) (x : ℕ)
      → (patch_sites mprotect sites m).1 x ≡ (if is_covered sites x then 0x90 else m x)
  unfolding patch_sites
  patch_sites_effect [] m x = refl
  patch_sites_effect ((at, len) ∷ sites) m x = ground (
    arith,
    fill_nops_effect m at len x,
    patch_sites_effect sites m x,
    patch_sites_effect sites (fill_nops m at len) x,
  )
