-- ===== src/Dyld/Linker/Bind/Entries.antt =====
-- What binding the non-lazy symbol pointers leaves in memory.
use grafted.Base.{
  ℕ, zero, suc, ◌+◌, ◌*◌, ◌^◌, ◌≤◌, ◌<◌, ◌≡◌, refl, ap, ◌∙◌, inl, inr, false, List, [], ◌∷◌, Option,
  none, some, nat_eq, ltb, if◌then◌else◌, u64, length, get_elem?, Bytes, arith, Bool-cases,
  Option-cases,
}
use mathlib.Core.Path.{subst, sym}
use grafted.Loader.Memory.{Memory, write_word}
use grafted.Dyld.Linker.{Symbols, Linker}
use grafted.Dyld.Linker.Classes.{ObjcState, Fresh}
use grafted.Dyld.Linker.Bind.{u32_at, lib_system, target_of, bind_entries}
use grafted.Dyld.Linker.Bind.Laws.{
  Writes, write_all, IsClear, AreApart, IsBeside, AreRead, write_all-AreRead, write_all_beside,
}

abbrev pub AreSmall : Writes → Type 0
AreSmall [] = Unit {0}
AreSmall ((at, v) ∷ ws) = (v < 2 ^ 64) × AreSmall ws

-- The name of an entry's symbol, if it has one.
abbrev pub entry_name : List (Option Bytes) → ℕ → Option Bytes
entry_name symbols sym_idx = elim (get_elem? symbols sym_idx) [ none ↦ none | some name ↦ name ]

module _ (read_symbols : Bytes → Option Symbols) (dlsym : Bytes → ℕ) (linker : Linker) (trap : ℕ)
    (fresh : ℕ → Fresh) (addr indirect : ℕ) (bytes : Bytes) (symbols : List (Option Bytes)) where
  -- The pointers of the entries that have a name, until the file ends, and what they are bound to.
  unfoldable pub entries : ℕ → ℕ → ObjcState → Writes
  entries zero k st = []
  entries (suc n) k st =
      if ltb (length bytes) (indirect + k * 4 + 4)
      then []
      else elim (entry_name symbols (u32_at bytes (indirect + k * 4))) [
        | none ↦ entries n (k + 1) st
        | some name ↦
            let (to, st') =
              target_of read_symbols dlsym linker trap fresh k lib_system name false st in
            (addr + k * 8, to) ∷ entries n (k + 1) st'
      ]

  entries-IsClear : (n k j : ℕ) (st : ObjcState) → j < k → IsClear (addr + j * 8) (entries n k st)
  unfolding entries
  entries-IsClear zero k j st below = tt
  entries-IsClear (suc n) k j st below =
      elim (Bool-cases (ltb (length bytes) (indirect + k * 4 + 4))) [
        | inl beyond ↦ rw (beyond, entries) tt
        | inr inside ↦ elim (Option-cases (entry_name symbols (u32_at bytes (indirect + k * 4)))) [
          | inl nameless ↦
              rw (inside, nameless, entries) (entries-IsClear n (k + 1) j st (omega arith))
          | inr (name, named) ↦
              rw (inside, named, entries)
                (
                  inl (omega arith),
                  entries-IsClear n (k + 1) j
                      ((target_of read_symbols dlsym linker trap fresh k lib_system name false
                        st).1)
                      (omega arith),
                )
        ]
      ]

  entries-AreApart :
      (n k : ℕ) (st : ObjcState) → AreSmall (entries n k st) → AreApart (entries n k st)
  unfolding entries
  entries-AreApart zero k st = λ small. tt
  entries-AreApart (suc n) k st = elim (Bool-cases (ltb (length bytes) (indirect + k * 4 + 4))) [
    | inl beyond ↦ rw (beyond, entries) (λ small. tt)
    | inr inside ↦ elim (Option-cases (entry_name symbols (u32_at bytes (indirect + k * 4)))) [
      | inl nameless ↦ rw (inside, nameless, entries) (entries-AreApart n (k + 1) st)
      | inr (name, named) ↦
          let next =
            (target_of read_symbols dlsym linker trap fresh k lib_system name false st).1 in
          rw (inside, named, entries)
            (λ small. (
              small.0,
              entries-IsClear n (k + 1) k next (omega arith),
              entries-AreApart n (k + 1) next small.1,
            ))
    ]
  ]

  bind_entries_writes :
      (n k : ℕ) (m : Memory) (st : ObjcState)
      → addr + (k + n) * 8 ≤ 2 ^ 64
      → ((bind_entries read_symbols dlsym linker trap fresh n k addr indirect bytes symbols m st).0
          ≡ length (entries n k st))
        × ((bind_entries read_symbols dlsym linker trap fresh n k addr indirect bytes symbols m
              st).1.0
            ≡ write_all m (entries n k st))
  unfolding bind_entries entries write_all
  bind_entries_writes zero k m st fits = (refl, refl)
  bind_entries_writes (suc n) k m st fits =
      elim (Bool-cases (ltb (length bytes) (indirect + k * 4 + 4))) [
        | inl beyond ↦ rw (beyond, bind_entries, entries, write_all) (refl, refl)
        | inr inside ↦ elim (Option-cases (get_elem? symbols (u32_at bytes (indirect + k * 4)))) [
          | inl outside ↦
              rw (inside, outside, bind_entries, entries)
                (bind_entries_writes n (k + 1) m st (omega arith))
          | inr (none, unread) ↦
              rw (inside, unread, bind_entries, entries)
                (bind_entries_writes n (k + 1) m st (omega arith))
          | inr (some name, named) ↦
              let to = target_of read_symbols dlsym linker trap fresh k lib_system name false st in
              let at : u64 (addr + k * 8) ≡ addr + k * 8 = omega arith in
              let (count, memory) =
                bind_entries_writes n (k + 1) (write_word 8 m (addr + k * 8) to.0) to.1
                  (omega arith) in
              rw (inside, named, at, bind_entries, entries, write_all)
                (omega (arith, count), memory)
        ]
      ]

  -- Each pointer of the table whose entry has a name holds the address that the name resolves to, or
  -- the trap, and is counted; no other byte changes. The table ends below 2^64.
  pub bind_entries_reads :
      (n : ℕ) (m : Memory) (st : ObjcState) (x : ℕ)
      → addr + n * 8 ≤ 2 ^ 64
      → AreSmall (entries n 0 st)
      → IsBeside x (entries n 0 st)
      → ((bind_entries read_symbols dlsym linker trap fresh n 0 addr indirect bytes symbols m st).0
          ≡ length (entries n 0 st))
        × AreRead
            (bind_entries read_symbols dlsym linker trap fresh n 0 addr indirect bytes symbols m
              st).1.0
            (entries n 0 st)
        × ((bind_entries read_symbols dlsym linker trap fresh n 0 addr indirect bytes symbols m
                st).1.0
              x
            ≡ m x)
  bind_entries_reads n m st x fits small beside =
      let (count, memory) = bind_entries_writes n 0 m st (omega arith) in
      (
        count,
        subst (λ (m' : Memory). AreRead m' (entries n 0 st)) (sym memory)
            (write_all-AreRead (entries n 0 st) m (entries-AreApart n 0 st small)),
        ap (λ (m' : Memory). m' x) memory ∙ write_all_beside (entries n 0 st) m x beside,
      )
