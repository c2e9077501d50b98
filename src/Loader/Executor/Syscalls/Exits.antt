-- ===== src/Loader/Executor/Syscalls/Exits.antt =====
-- Which system calls end the process.
use grafted.Base.{
  ℕ, ◌/◌, ◌%◌, ◌^◌, ◌≡◌, refl, Bool, true, false, ◌&&◌, ◌||◌, ◌==◌, nat_eq, arith, Bool-cases, inl,
  inr, Option, sym, ◌∙◌, ap,
}
use grafted.Kernel.Syscall.{LinuxNr, nr, minus_one, darwin_unix_to_linux}
use grafted.Kernel.Syscall.Laws.{translate_classifies}
use grafted.Loader.Executor.Syscalls.{
  Args, Host, Served, returned, exited, unix_call, vm_protect, trap_call, process_syscall,
}
use grafted.Loader.Executor.Syscalls.Laws.{LinuxNr-cases}

-- The process ends.
abbrev pub has_exited : {S : Type 0} → Served S → Bool
has_exited (returned r s) = false
has_exited (exited c s) = true

-- The table has the numbers of `exit` and `exit_group` for `exit` alone.
is_exit : LinuxNr → Bool
is_exit minus_one = false
is_exit (nr l) = (l == 60) || (l == 231)

table_exits : (n : ℕ) → is_exit (darwin_unix_to_linux n) ≡ (n == 1)
unfolding darwin_unix_to_linux is_exit
table_exits n = ground arith

exit_number : (n : ℕ) (l : LinuxNr) → darwin_unix_to_linux n ≡ l → (n == 1) ≡ is_exit l
exit_number n l e = sym (table_exits n) ∙ ap is_exit e

module _ {S : Type 0} (host : Host S) (a : Args) (s : S) where
  unix_call_stays : (d l : ℕ) → has_exited (unix_call host d l a s) ≡ false
  unfolding unix_call
  unix_call_stays d l = ground arith

  trap_call_stays : (t : ℕ) (fd : Option ℕ) → has_exited (trap_call host t a fd s) ≡ false
  unfolding trap_call vm_protect
  trap_call_stays t fd = ground arith

  -- The executor itself ends the process exactly on a BSD call with the number of `exit`; all other
  -- calls return, whatever the host does.
  pub process_syscall_exits :
      (raw : ℕ) (fd : Option ℕ)
      → has_exited (process_syscall host raw a fd s)
        ≡ ((raw / 2 ^ 24 % 2 ^ 8 == 2) && (raw % 2 ^ 24 == 1))
  unfolding process_syscall is_exit
  process_syscall_exits raw fd = elim (Bool-cases (raw / 2 ^ 24 % 2 ^ 8 == 2)) [
    | inl bsd ↦ elim (LinuxNr-cases (darwin_unix_to_linux (raw % 2 ^ 24))) [
      | inl missing ↦
          rw ((translate_classifies raw).0 (ground arith), missing, process_syscall)
            (rw (bsd, exit_number (raw % 2 ^ 24) minus_one missing, is_exit) refl)
      | inr (l, entry) ↦ elim (Bool-cases ((l == 60) || (l == 231))) [
        | inl exits ↦
            rw ((translate_classifies raw).0 (ground arith), entry, exits, process_syscall)
              (rw (bsd, exit_number (raw % 2 ^ 24) (nr l) entry, is_exit) (sym exits))
        | inr stays ↦
            rw ((translate_classifies raw).0 (ground arith), entry, stays, process_syscall)
              (rw (bsd, exit_number (raw % 2 ^ 24) (nr l) entry, is_exit)
                (unix_call_stays (raw % 2 ^ 24) l ∙ sym stays))
      ]
    ]
    | inr not_bsd ↦ elim (Bool-cases (raw / 2 ^ 24 % 2 ^ 8 == 1)) [
      | inl mach ↦
          rw ((translate_classifies raw).1 (ground arith), process_syscall)
            (rw not_bsd (trap_call_stays (raw % 2 ^ 24) fd))
      | inr not_mach ↦
          rw ((translate_classifies raw).2 (ground arith) (ground arith), process_syscall)
            (ground arith)
    ]
  ]
