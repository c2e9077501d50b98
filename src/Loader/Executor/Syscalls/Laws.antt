-- ===== src/Loader/Executor/Syscalls/Laws.antt =====
-- The calls of the host that a system call makes, by a host that records them.
use grafted.Base.{
  ℕ, ◌+◌, ◌/◌, ◌%◌, ◌^◌, ◌≤◌, ◌<◌, ◌≡◌, ◌≢◌, refl, Bool, true, false, ◌||◌, ◌==◌, nat_eq,
  if◌then◌else◌, has_bit, inl, inr, ◌⊎◌, List, [], ◌∷◌, Option, none, u32,
}
use grafted.Kernel.Syscall.{LinuxNr, nr, minus_one, darwin_unix_to_linux}
use grafted.Loader.Executor.Syscalls.Numbers.{IsLinuxNumber}
use grafted.Loader.Executor.Syscalls.{Args, Host, Served, returned, exited, mmap_flags, open_flags}

pub data Call : Type 0 where
  linux_call : ℕ → Args → Call
  protect_call : ℕ → ℕ → ℕ → Call
  trap_made : ℕ → Args → Call
  message : Call

-- What the host answers.
pub record Answers : Type 0 where
  pub to_syscall : ℕ → Args → ℕ
  pub to_mprotect : ℕ → ℕ → ℕ → Bool
  pub to_trap : ℕ → Args → Option ℕ

abbrev pub recorder : Answers → Host (List Call)
recorder an = record {
  syscall = λ n a log. (Answers.to_syscall an n a, linux_call n a ∷ log);
  mprotect =
      λ at size prot log. (Answers.to_mprotect an at size prot, protect_call at size prot ∷ log);
  mach_trap = λ n a log. (Answers.to_trap an n a, trap_made n a ∷ log);
  complain = λ log. message ∷ log;
}

abbrev pub calls_of : Served (List Call) → List Call
calls_of (returned r log) = log
calls_of (exited c log) = log

-- One call for which `P` holds, or none where `Q` holds.
unfoldable pub OneAtMost : (Call → Type 0) → Type 0 → List Call → Type 0
OneAtMost P Q [] = Q
OneAtMost P Q (c ∷ []) = P c
OneAtMost P Q (c ∷ (d ∷ rest)) = ⊥

-- Memory without access, at a fixed place (bit 4 of Darwin's flags) and without a file (bit 12).
abbrev pub IsGuard : Args → Type 0
IsGuard a = (a.a2 ≡ 0) × (has_bit (u32 a.a3) 4 ≡ true) × (has_bit (u32 a.a3) 12 ≡ true)

-- The arguments of the Linux call for a Darwin number: the flags of `mmap` and `open` are
-- translated, and the others stay.
abbrev pub linux_args : ℕ → Args → Args
linux_args darwin_nr a =
    if (darwin_nr == 197) || (darwin_nr == 199)
    then record a { a3 = mmap_flags (u32 a.a3) }
    else if darwin_nr == 5
    then record a { a1 = open_flags (u32 a.a1) }
    else a

-- What one call must be: a number below 500 is passed on as it is; a BSD call becomes the Linux call
-- of its row, never a guard page or a protection without access; `mach_vm_protect` becomes a
-- protection of whole pages, with some access; another trap is passed on with an open device; the
-- rest is a message.
unfoldable pub IsMeant : ℕ → Args → Option ℕ → Call → Type 0
IsMeant raw a fd (linux_call n b) =
    ((raw < 500) × (n ≡ raw) × (b ≡ a))
    ⊎ ((raw / 2 ^ 24 % 2 ^ 8 ≡ 2)
        × (raw % 2 ^ 24 ≢ 1)
        × IsLinuxNumber (raw % 2 ^ 24) n
        × (b ≡ linux_args (raw % 2 ^ 24) a)
        × ((raw % 2 ^ 24 ≢ 197) ⊎ (¬ IsGuard a))
        × ((raw % 2 ^ 24 ≢ 74) ⊎ (a.a2 ≢ 0)))
IsMeant raw a fd (protect_call at size prot) =
    (raw / 2 ^ 24 % 2 ^ 8 ≡ 1)
    × (raw % 2 ^ 24 ≡ 14)
    × (prot ≡ u32 a.a4)
    × (prot ≢ 0)
    × (at % 4096 ≡ 0)
    × (size % 4096 ≡ 0)
    × ((2 ^ 64 ≤ a.a1 + a.a2 + 0xFFF) ⊎ ((at ≤ a.a1) × (a.a1 + a.a2 ≤ at + size)))
IsMeant raw a fd (trap_made n b) =
    (raw / 2 ^ 24 % 2 ^ 8 ≡ 1)
    × (n ≡ raw % 2 ^ 24)
    × ((n < 26) ⊎ (28 < n))
    × (n ≢ 14)
    × (b ≡ a)
    × (fd ≢ none)
IsMeant raw a fd message = 500 ≤ raw

-- When no call is made: for the end of the process and a BSD number without a row; a guard page and a
-- protection without access, which succeed; the ports of the thread, the task and for replies,
-- which are constants; and a trap without the device.
unfoldable pub IsSilent : ℕ → Args → Option ℕ → Type 0
IsSilent raw a fd =
    ((raw / 2 ^ 24 % 2 ^ 8 ≡ 2)
      × ((raw % 2 ^ 24 ≡ 1)
          ⊎ ((darwin_unix_to_linux (raw % 2 ^ 24) ≡ minus_one)
              ⊎ (((raw % 2 ^ 24 ≡ 197) × IsGuard a) ⊎ ((raw % 2 ^ 24 ≡ 74) × (a.a2 ≡ 0))))))
    ⊎ ((raw / 2 ^ 24 % 2 ^ 8 ≡ 1)
        × (((26 ≤ raw % 2 ^ 24) × (raw % 2 ^ 24 ≤ 28))
            ⊎ (((raw % 2 ^ 24 ≡ 14) × (u32 a.a4 ≡ 0)) ⊎ ((fd ≡ none) × (raw % 2 ^ 24 ≢ 14)))))

pub LinuxNr-cases : (l : LinuxNr) → (l ≡ minus_one) ⊎ ((n : ℕ) × (l ≡ nr n))
LinuxNr-cases minus_one = inl refl
LinuxNr-cases (nr n) = inr (n, refl)

-- The process ends.
abbrev pub has_exited : {S : Type 0} → Served S → Bool
has_exited (returned r s) = false
has_exited (exited c s) = true
