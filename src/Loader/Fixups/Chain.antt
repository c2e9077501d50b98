-- ===== src/Loader/Fixups/Chain.antt =====
-- Walking a chain that lies in memory as its format documents it.
use grafted.Base.{
  ℕ, zero, suc, ◌+◌, ◌*◌, ◌^◌, ◌≤◌, ◌<◌, ◌≡◌, refl, ap, ◌∙◌, false, List, [], ◌∷◌, some, ◌==◌,
  nat_eq, u64, length, arith, ◌⊎◌, inl,
}
use grafted.Loader.Memory.{
  Memory, read_word, write_word, read-write_apart, read-write_same, byte-write_apart,
  read_word-cong,
}
use grafted.Loader.Fixups.{walk_chain, next_of}
use grafted.Loader.Fixups.Entries.{Entry, IsEntry, encode_offset, meant, decode-encode_offset}

-- A chain: its entries, each with the distance to the next one in words of 4 bytes.
abbrev pub Links : Type 0
Links = List (Entry × ℕ)

-- The chain stands in memory from `ptr` on: each distance but the last is at least 2, so that the
-- entries do not overlap, the last is 0, and no address wraps.
abbrev pub IsChain : Memory → ℕ → Links → Type 0
IsChain m ptr [] = ⊥
IsChain m ptr ((e, next) ∷ []) =
    IsEntry e × (next ≡ 0) × (ptr + 8 ≤ 2 ^ 64) × (read_word 8 m ptr ≡ encode_offset e next)
IsChain m ptr ((e, next) ∷ l ∷ ls) =
    (IsEntry e
      × (2 ≤ next)
      × (next < 2 ^ 12)
      × (ptr + 8 ≤ 2 ^ 64)
      × (read_word 8 m ptr ≡ encode_offset e next))
    × (IsChain m (ptr + next * 4) (l ∷ ls) × (ptr + next * 4 < 2 ^ 64))

-- Each entry was replaced by the address it means.
abbrev pub IsPatched : List ℕ → ℕ → Memory → ℕ → Links → Type 0
IsPatched imports load m ptr [] = Unit {0}
IsPatched imports load m ptr ((e, next) ∷ ls) =
    (read_word 8 m ptr ≡ meant imports load e) × IsPatched imports load m (ptr + next * 4) ls

-- The byte `x` belongs to none of the entries.
abbrev pub IsOutside : ℕ → ℕ → Links → Type 0
IsOutside x ptr [] = Unit {0}
IsOutside x ptr ((e, next) ∷ ls) = ((x < ptr) ⊎ (ptr + 8 ≤ x)) × IsOutside x (ptr + next * 4) ls

-- A write below the chain does not touch it.
IsChain-write :
    (m : Memory) (at v ptr : ℕ) (ls : Links)
    → at + 8 ≤ ptr
    → IsChain m ptr ls
    → IsChain (write_word 8 m at v) ptr ls
IsChain-write m at v ptr [] below chain = absurd chain
IsChain-write m at v ptr ((e, next) ∷ []) below chain =
    ground (arith, read-write_apart 8 8 m at v ptr (inl below))
IsChain-write m at v ptr ((e, next) ∷ l ∷ ls) below (here, (chain, in_space)) = ground (
  arith,
  read-write_apart 8 8 m at v ptr (inl below),
  IsChain-write m at v (ptr + next * 4) (l ∷ ls) (omega arith) chain,
)

meant_small : (imports : List ℕ) (load : ℕ) (e : Entry) → meant imports load e < 256 ^ 8
meant_small imports load (Entry.rebase target high8) = ground arith
meant_small imports load (Entry.bind ordinal addend) = ground arith

step_last :
    (fuel : ℕ) (imports : List ℕ) (load ptr : ℕ) (e : Entry) (m : Memory)
    → IsChain m ptr ((e, 0) ∷ [])
    → walk_chain (suc fuel) 6 imports load ptr m ≡ some (write_word 8 m ptr (meant imports load e))
unfolding walk_chain
step_last fuel imports load ptr e m (is_entry, zero_next, in_space, word) =
    let (addr, far) = decode-encode_offset imports load 0 e is_entry (omega arith) in
    rw (word, addr, ap next_of word ∙ far, walk_chain) refl

step_next :
    (fuel : ℕ) (imports : List ℕ) (load ptr next : ℕ) (e : Entry) (l : Entry × ℕ) (ls : Links)
    (m : Memory)
    → IsChain m ptr ((e, next) ∷ l ∷ ls)
    → walk_chain (suc fuel) 6 imports load ptr m
      ≡ walk_chain fuel 6 imports load (ptr + next * 4) (write_word 8 m ptr (meant imports load e))
unfolding walk_chain
step_next fuel imports load ptr next e l ls m
      ((is_entry, far_on, small, in_space, word), (chain, below)) =
    let (addr, far) = decode-encode_offset imports load next e is_entry small in
    let goes_on : (next == 0) ≡ false = ground arith in
    let steps : next_of (read_word 8 m ptr) ≡ next = ap next_of word ∙ far in
    let to : u64 (ptr + next_of (read_word 8 m ptr) * 4) ≡ ptr + next * 4 = omega arith in
    rw (word, addr, steps, goes_on, walk_chain)
      (ap (λ (k : ℕ). walk_chain fuel 6 imports load k (write_word 8 m ptr (meant imports load e)))
        to)

IsOutside-below : (x ptr : ℕ) (ls : Links) → x < ptr → IsOutside x ptr ls
IsOutside-below x ptr [] h = tt
IsOutside-below x ptr ((e, next) ∷ ls) h =
    (inl h, IsOutside-below x (ptr + next * 4) ls (omega arith))

-- A chain of format 6 is walked to its end, with fuel for its entries: each of them is replaced by
-- the address it means, and no other byte changes.
pub walk_chain_patches :
    (ls : Links) (fuel : ℕ) (imports : List ℕ) (load ptr : ℕ) (m : Memory)
    → IsChain m ptr ls
    → length ls ≤ fuel
    → (m' : Memory) × ((walk_chain fuel 6 imports load ptr m ≡ some m')
        × (IsPatched imports load m' ptr ls × ((x : ℕ) → IsOutside x ptr ls → m' x ≡ m x)))
walk_chain_patches [] fuel imports load ptr m chain enough = absurd chain
walk_chain_patches (l ∷ ls) zero imports load ptr m chain enough = absurd (omega arith)
walk_chain_patches ((e, next) ∷ []) (suc fuel) imports load ptr m (is_entry, last, in_space, word)
      enough =
    let v = meant imports load e in
    (
      write_word 8 m ptr v,
      (
        step_last fuel imports load ptr e m
            (is_entry, refl, in_space, word ∙ ap (encode_offset e) last),
        (
          (read-write_same 8 m ptr v (meant_small imports load e), tt),
          λ x out. byte-write_apart 8 m ptr v x out.0,
        ),
      ),
    )
walk_chain_patches ((e, next) ∷ l ∷ ls) (suc fuel) imports load ptr m (here, (chain, below))
      enough =
    let v = meant imports load e in
    let (m', (ran, (patched, kept))) =
      walk_chain_patches (l ∷ ls) fuel imports load (ptr + next * 4) (write_word 8 m ptr v)
        (IsChain-write m ptr v (ptr + next * 4) (l ∷ ls) (omega arith) chain) (omega arith) in
    let own : read_word 8 m' ptr ≡ v =
      read_word-cong 8 m' (write_word 8 m ptr v) ptr
        (λ x lo hi. kept x (IsOutside-below x (ptr + next * 4) (l ∷ ls) (omega arith)))
      ∙ read-write_same 8 m ptr v (meant_small imports load e) in
    (
      m',
      (
        (step_next fuel imports load ptr next e l ls m (here, (chain, below)) ∙ ran),
        ((own, patched), λ x out. kept x out.1 ∙ byte-write_apart 8 m ptr v x out.0),
      ),
    )
