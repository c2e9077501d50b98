-- ===== src/Loader/Executor/Syscalls/Numbers.antt =====
-- The Linux numbers of system calls by their names, against the table of
-- crates/grafted-kernel/src/syscall.rs.
use grafted.Base.{
  ℕ, ◌≡◌, ◌≢◌, Bool, true, false, ◌||◌, Option, none, some, ◌==◌, nat_eq, if◌then◌else◌, arith,
  Bool-cases, inl, inr,
}
use grafted.Kernel.Syscall.{nr, darwin_unix_to_linux, first_arm}

-- What the rows of the table are about, and the numbers of these calls in Linux for x86_64.
pub data PosixCall : Type 0 where
  exit : PosixCall
  fork : PosixCall
  wait4 : PosixCall
  getpid : PosixCall
  read : PosixCall
  write : PosixCall
  open_file : PosixCall
  close : PosixCall
  unlink : PosixCall
  chmod : PosixCall
  mmap : PosixCall
  munmap : PosixCall
  mprotect : PosixCall
  sigaction : PosixCall
  kill : PosixCall
  gettimeofday : PosixCall
  getuid : PosixCall
  ioctl : PosixCall

abbrev pub linux_number : PosixCall → ℕ
linux_number exit = 60
linux_number fork = 57
linux_number wait4 = 61
linux_number getpid = 39
linux_number read = 0
linux_number write = 1
linux_number open_file = 2
linux_number close = 3
linux_number unlink = 87
linux_number chmod = 90
linux_number mmap = 9
linux_number munmap = 11
linux_number mprotect = 10
linux_number sigaction = 13
linux_number kill = 62
linux_number gettimeofday = 96
linux_number getuid = 102
linux_number ioctl = 16

-- The Linux number of the call that a row names, but for the rows that give another one.
abbrev pub number_by_name : ℕ → Option ℕ
number_by_name d =
    if d == 1
    then some (linux_number exit)
    else if d == 2
    then some (linux_number fork)
    else if d == 3
    then some (linux_number read)
    else if d == 4
    then some (linux_number write)
    else if d == 5
    then some (linux_number open_file)
    else if d == 6
    then some (linux_number close)
    else if d == 7
    then some (linux_number wait4)
    else if d == 10
    then some (linux_number unlink)
    else if d == 15
    then some (linux_number chmod)
    else if d == 20
    then some (linux_number getpid)
    else if d == 24
    then some (linux_number getuid)
    else if d == 46
    then some (linux_number sigaction)
    else if d == 48
    then some (linux_number kill)
    else if d == 54
    then some (linux_number ioctl)
    else if d == 73
    then some (linux_number munmap)
    else if d == 74
    then some (linux_number mprotect)
    else if d == 116
    then some (linux_number gettimeofday)
    else if d == 197
    then some (linux_number mmap)
    else none

-- fchdir, chown, geteuid, getegid, getgid, execve and posix_spawn: the rows left out above.
abbrev pub is_astray : ℕ → Bool
is_astray d =
    (d == 13)
    || ((d == 16) || ((d == 25) || ((d == 43) || ((d == 47) || ((d == 59) || (d == 338))))))

-- The Linux number of a call: that of the call that the row names, and for the rows that give
-- another one, what the table gives.
abbrev pub IsLinuxNumber : ℕ → ℕ → Type 0
IsLinuxNumber d n = if is_astray d then darwin_unix_to_linux d ≡ nr n else number_by_name d ≡ some n

by_name :
    (d n : ℕ) → darwin_unix_to_linux d ≡ nr n → is_astray d ≡ false → number_by_name d ≡ some n
unfolding darwin_unix_to_linux first_arm
by_name d n h named = ground (arith, h, named)

pub table_numbers : (d n : ℕ) → darwin_unix_to_linux d ≡ nr n → IsLinuxNumber d n
table_numbers d n h = elim (Bool-cases (is_astray d)) [
  | inl astray ↦ rw astray h
  | inr named ↦ rw named (by_name d n h named)
]

pub mmaps : (d n : ℕ) → darwin_unix_to_linux d ≡ nr n → ((d == 197) || (d == 199)) ≡ true → d ≡ 197
unfolding darwin_unix_to_linux first_arm
mmaps d n h e = ground (arith, h, e)

pub exits_alone :
    (d l : ℕ) → darwin_unix_to_linux d ≡ nr l → ((l == 60) || (l == 231)) ≡ true → d ≡ 1
unfolding darwin_unix_to_linux first_arm
exits_alone d l h e = ground (arith, h, e)

pub not_exit : (d l : ℕ) → darwin_unix_to_linux d ≡ nr l → ((l == 60) || (l == 231)) ≡ false → d ≢ 1
unfolding darwin_unix_to_linux first_arm
not_exit d l h e z = ground (arith, h, e, z)
