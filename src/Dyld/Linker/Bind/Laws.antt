-- ===== src/Dyld/Linker/Bind/Laws.antt =====
-- What binding leaves in memory.
use grafted.Base.{
  ℕ, ◌+◌, ◌^◌, ◌≤◌, ◌<◌, ◌≡◌, refl, ap, ◌∙◌, ◌⊎◌, inl, inr, List, [], ◌∷◌, Option, none, some,
  nat_eq, length, Option, none, some, Bytes, arith,
}
use mathlib.Core.Path.{subst, sym}
use grafted.Loader.Memory.{
  Memory, read_word, write_word, read-write_same, read-write_apart, byte-write_apart,
}
use grafted.Dyld.Linker.{Symbols, Linker, resolve}
use grafted.Dyld.Linker.Classes.{ObjcState, Fresh}
use grafted.Dyld.Linker.Bind.{Import, target_of, bind}

-- Words to write, each with its address.
abbrev pub Writes : Type 0
Writes = List (ℕ × ℕ)

unfoldable pub write_all : Memory → Writes → Memory
write_all m [] = m
write_all m ((at, v) ∷ ws) = write_all (write_word 8 m at v) ws

-- No other word overlaps the one at an address.
abbrev pub IsClear : ℕ → Writes → Type 0
IsClear at [] = Unit {0}
IsClear at ((other, v) ∷ ws) = ((at + 8 ≤ other) ⊎ (other + 8 ≤ at)) × IsClear at ws

-- The words are of 64 bits and do not overlap.
abbrev pub AreApart : Writes → Type 0
AreApart [] = Unit {0}
AreApart ((at, v) ∷ ws) = (v < 2 ^ 64) × IsClear at ws × AreApart ws

-- A byte that is in none of the words.
abbrev pub IsBeside : ℕ → Writes → Type 0
IsBeside x [] = Unit {0}
IsBeside x ((at, v) ∷ ws) = ((x < at) ⊎ (at + 8 ≤ x)) × IsBeside x ws

abbrev pub AreRead : Memory → Writes → Type 0
AreRead m [] = Unit {0}
AreRead m ((at, v) ∷ ws) = (read_word 8 m at ≡ v) × AreRead m ws

write_all_clear :
    (ws : Writes) (m : Memory) (at : ℕ)
    → IsClear at ws
    → read_word 8 (write_all m ws) at ≡ read_word 8 m at
unfolding write_all
write_all_clear [] m at clear = refl
write_all_clear ((other, v) ∷ ws) m at (apart, clear) =
    write_all_clear ws (write_word 8 m other v) at clear
    ∙ read-write_apart 8 8 m other v at (elim apart [ inl h ↦ inr h | inr h ↦ inl h ])

pub write_all_beside : (ws : Writes) (m : Memory) (x : ℕ) → IsBeside x ws → write_all m ws x ≡ m x
unfolding write_all
write_all_beside [] m x beside = refl
write_all_beside ((at, v) ∷ ws) m x (apart, beside) =
    write_all_beside ws (write_word 8 m at v) x beside ∙ byte-write_apart 8 m at v x apart

pub write_all-AreRead : (ws : Writes) (m : Memory) → AreApart ws → AreRead (write_all m ws) ws
unfolding write_all
write_all-AreRead [] m apart = tt
write_all-AreRead ((at, v) ∷ ws) m (small, clear, apart) = (
  write_all_clear ws (write_word 8 m at v) at clear ∙ read-write_same 8 m at v (omega arith),
  write_all-AreRead ws (write_word 8 m at v) apart,
)

module _ (read_symbols : Bytes → Option Symbols) (dlsym : Bytes → ℕ) (linker : Linker) (trap : ℕ)
    (fresh : ℕ → Fresh) where
  -- The address of each import, and what it is to hold: the address that the search for its symbol
  -- gives, or that of the trap if the search fails. A later search knows the classes made up before.
  abbrev pub targets : ℕ → List Import → ObjcState → Writes
  targets k [] st = []
  targets k (i ∷ imports) st =
      let (found, st') =
        resolve read_symbols dlsym (fresh k) linker (Import.dylib i) (Import.symbol i)
          (Import.is_weak i) st in
      (Import.address i, elim found [ none ↦ trap | some addr ↦ addr ])
      ∷ targets (k + 1) imports st'

  bind_writes :
      (imports : List Import) (k : ℕ) (m : Memory) (st : ObjcState)
      → ((bind read_symbols dlsym linker trap fresh k imports m st).0 ≡ length imports)
        × ((bind read_symbols dlsym linker trap fresh k imports m st).1.0
            ≡ write_all m (targets k imports st))
  unfolding bind write_all target_of
  bind_writes [] k m st = (refl, refl)
  bind_writes (i ∷ imports) k m st =
      let (addr, st') =
        target_of read_symbols dlsym linker trap fresh k (Import.dylib i) (Import.symbol i)
          (Import.is_weak i) st in
      let (count, memory) =
        bind_writes imports (k + 1) (write_word 8 m (Import.address i) addr) st' in
      (omega (arith, count), memory)

  -- Every import is bound, and counted: where the words of the imports do not overlap and the values
  -- are of 64 bits, each holds the address that the search for its symbol gives, with the classes made
  -- up for the imports before it, or that of the trap if the search fails, and no other byte changes.
  pub bind_reads :
      (k : ℕ) (imports : List Import) (m : Memory) (st : ObjcState) (x : ℕ)
      → AreApart (targets k imports st)
      → IsBeside x (targets k imports st)
      → ((bind read_symbols dlsym linker trap fresh k imports m st).0 ≡ length imports)
        × AreRead
            (bind read_symbols dlsym linker trap fresh k imports m st).1.0
            (targets k imports st)
        × ((bind read_symbols dlsym linker trap fresh k imports m st).1.0 x ≡ m x)
  bind_reads k imports m st x apart beside =
      let (count, memory) = bind_writes imports k m st in
      (
        count,
        subst (λ (m' : Memory). AreRead m' (targets k imports st)) (sym memory)
            (write_all-AreRead (targets k imports st) m apart),
        ap (λ (m' : Memory). m' x) memory ∙ write_all_beside (targets k imports st) m x beside,
      )
