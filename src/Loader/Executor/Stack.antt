-- ===== src/Loader/Executor/Stack.antt =====
-- crates/grafted-loader/src/executor.rs: `build_stack`.
-- The state is the stack pointer and the memory. The environment is an argument.
pub mod Strings
pub mod Laws
use grafted.Base.{
  ℕ, zero, suc, ◌+◌, ◌-◌, ◌*◌, ◌/◌, ◌%◌, ◌^◌, List, [], ◌∷◌, ◌++◌, ◌==◌, nat_eq, if◌then◌else◌, u64,
  length, Bytes, codes,
}
use grafted.Loader.Memory.{Memory, put, write_word}

abbrev pub Stack : Type 0
Stack = ℕ × Memory

-- `*sp -= n`, which wraps.
abbrev pub sub64 : ℕ → ℕ → ℕ
sub64 sp n = u64 (sp + (2 ^ 64 - u64 n))

-- `copy_nonoverlapping`, and the byte 0 behind it.
unfoldable pub write_string : Memory → ℕ → Bytes → Memory
write_string m at [] = put m at 0
write_string m at (b ∷ bs) = put (write_string m (at + 1) bs) at b

-- The closure `push_string`: the string goes below, at a multiple of 8.
unfoldable pub push_string : Stack → Bytes → Stack
push_string (sp, m) s = let at = sub64 sp (length s + 1) / 8 * 8 in (at, write_string m at s)

-- `iter().map(push_string).collect()`: the strings in order, and where each one is.
unfoldable pub push_strings : Stack → List Bytes → Stack × List ℕ
push_strings st [] = (st, [])
push_strings st (s ∷ ss) =
    let st' = push_string st s in let rest = push_strings st' ss in (rest.0, st'.0 ∷ rest.1)

-- The closure `push_u64`.
unfoldable pub push_u64 : Stack → ℕ → Stack
push_u64 (sp, m) v = (sub64 sp 8, write_word 8 m (sub64 sp 8) v)

-- The loop `for ptr in ptrs.iter().rev()`: the last one is pushed first.
unfoldable pub push_all : Stack → List ℕ → Stack
push_all st [] = st
push_all st (v ∷ vs) = push_u64 (push_all st vs) v

-- The stack is aligned to 16 and padded, so that it will be aligned when all is pushed.
unfoldable pub align : Stack → ℕ → Stack
align (sp, m) total_entries =
    let sp' = sp / 16 * 16 in if total_entries % 2 == 0 then (sp', m) else (sub64 sp' 8, m)

unfoldable pub build_stack : ℕ → List Bytes → List Bytes → Bytes → Memory → Stack
build_stack stack_top argv envp binary_path m =
    let apple = (codes "executable_path=" ++ binary_path) ∷ [] in
    let (st1, apple_ptrs) = push_strings (stack_top, m) apple in
    let (st2, envp_ptrs) = push_strings st1 envp in
    let (st3, argv_ptrs) = push_strings st2 argv in
    let total = 1 + (length argv + 1) + (length envp + 1) + (length apple + 1) in
    let st4 = align st3 total in
    let st5 = push_all (push_u64 st4 0) apple_ptrs in
    let st6 = push_all (push_u64 st5 0) envp_ptrs in
    let st7 = push_all (push_u64 st6 0) argv_ptrs in push_u64 st7 (length argv)
