-- ===== src/Loader/Fixups/Imports.antt =====
-- The table of imports that the binding entries refer to.
use grafted.Base.{
  ℕ, zero, suc, ◌+◌, ◌*◌, ◌/◌, ◌%◌, ◌^◌, ◌<◌, ◌≡◌, ap, sym, ◌∙◌, List, ◌∷◌, Option, some, u32,
  length, get_or, Bytes, arith, Option-cases, inl, inr,
}
use grafted.Loader.Format.{DylibDep}
use grafted.Loader.Memory.{Memory, read_word}
use grafted.Loader.Fixups.{FixupsHeader, dylib_name, resolve_imports}

module _ (c_string : Memory → ℕ → Option Bytes) (resolve_symbol : Bytes → Bytes → ℕ) where
  abbrev pub import_word : Memory → FixupsHeader → ℕ → ℕ
  import_word raw header i = read_word 4 raw (header.imports_offset + i * 4)

  abbrev pub import_name : Memory → FixupsHeader → ℕ → Option Bytes
  import_name raw header i =
      c_string raw (u32 (header.symbols_offset + import_word raw header i / 2 ^ 9))

  -- The table has as many addresses as there are imports left, and the address at each place is
  -- that of the import's name in the library that its ordinal stands for.
  pub resolve_imports_reads :
      (raw : Memory) (header : FixupsHeader) (deps : List DylibDep) (left i : ℕ) (table : List ℕ)
      → resolve_imports c_string resolve_symbol raw header deps left i ≡ some table
      → (length table ≡ left)
        × ((k : ℕ) (name : Bytes)
            → k < left
            → import_name raw header (i + k) ≡ some name
            → get_or table k 0
              ≡ resolve_symbol (dylib_name deps (import_word raw header (i + k) % 2 ^ 8)) name)
  unfolding resolve_imports
  resolve_imports_reads raw header deps zero i table h =
      (ground arith, λ k name small found. absurd (omega arith))
  resolve_imports_reads raw header deps (suc left) i table h =
      elim (Option-cases (import_name raw header i)) [
        | inl missing ↦ absurd (ground arith)
        | inr (name, found) ↦
            elim (Option-cases
              (resolve_imports c_string resolve_symbol raw header deps left (i + 1))) [
                | inl missing ↦ absurd (ground arith)
                | inr (rest, resolved) ↦
                    let first =
                      resolve_symbol (dylib_name deps (import_word raw header i % 2 ^ 8)) name in
                    let whole : table ≡ first ∷ rest = ground arith in
                    let (size, reads) =
                      resolve_imports_reads raw header deps left (i + 1) rest resolved in
                    (
                      ground arith,
                      λ k.
                          elim k
                            as (λ (k : ℕ).
                              (other : Bytes)
                              → k < suc left
                              → import_name raw header (i + k) ≡ some other
                              → get_or table k 0
                                ≡ resolve_symbol
                                    (dylib_name deps (import_word raw header (i + k) % 2 ^ 8))
                                    other) [
                                      | zero ↦ λ other small there.
                                          let same : i + 0 ≡ i = omega arith in
                                          let called : import_name raw header i ≡ some other =
                                            ap (import_name raw header) (sym same) ∙ there in
                                          ground (arith, ap (import_word raw header) same)
                                      | suc k ↦ λ other small there.
                                          let same : i + 1 + k ≡ i + suc k = omega arith in
                                          ground (
                                            arith,
                                            ap (import_word raw header) same,
                                            reads k other (omega arith)
                                                (ap (import_name raw header) same ∙ there),
                                          )
                                    ],
                    )
              ]
      ]
