-- ===== src/Loader/Executor/Decode/Laws.antt =====
-- The decoder against the encoding of the instructions.
use grafted.Base.{
  ℕ, ◌+◌, ◌/◌, ◌%◌, ◌≤◌, ◌<◌, Bool, ◌&&◌, ◌||◌, Option, none, some, ◌==◌, nat_eq, arith, inl, inr,
  Bool-cases, Option-cases,
}
use mathlib.Core.Path.{subst}
use grafted.Loader.Memory.{Memory}
use grafted.Loader.Executor.Decode.{
  opcode_form, decode_modrm, decode_opcode, decode_binary_insn, loads,
}

-- The bytes of a form behind its opcode, without ModRM.
form_size : Option (ℕ × (ℕ × Bool)) → ℕ
form_size none = 0
form_size (some (skip, (imm_size, has_dest_reg))) = skip + imm_size

form_size-opcode_form : (opcode op2 : ℕ) → form_size (opcode_form opcode op2) ≤ 4
unfolding opcode_form form_size
form_size-opcode_form opcode op2 = ground arith

-- No destination, or one of the sixteen registers.
abbrev pub IsRegister : Option ℕ → Type 0
IsRegister none = Unit {0}
IsRegister (some r) = r < 16

decode_modrm_bounds :
    (off rex opcode modrm imm_size : ℕ) (has_dest_reg : Bool)
    → ((decode_modrm off rex opcode modrm imm_size has_dest_reg).0 ≤ off + 7 + imm_size)
      × IsRegister ((decode_modrm off rex opcode modrm imm_size has_dest_reg).1)
unfolding decode_modrm
decode_modrm_bounds off rex opcode modrm imm_size has_dest_reg =
    elim (Bool-cases (modrm / 64 % 4 == 3)) [
      | inl direct ↦
          elim (Bool-cases ((opcode == 0xFF) && ((modrm / 8 % 8 == 2) || (modrm / 8 % 8 == 4)))) [
            | inl calls ↦ rw (direct, calls, decode_modrm) (omega arith, tt)
            | inr other ↦ rw (direct, other, decode_modrm) (omega arith, tt)
          ]
      | inr indirect ↦ elim (Bool-cases has_dest_reg) [
        | inl loads ↦ rw (indirect, loads, decode_modrm) (ground arith, ground arith)
        | inr keeps ↦ rw (indirect, keeps, decode_modrm) (ground arith, tt)
      ]
    ]

IsWithin : ℕ → ℕ × Option ℕ → Type 0
IsWithin n (len, dest) = (len ≤ n) × IsRegister dest

decode_opcode-IsWithin :
    (m : Memory) (at off rex : ℕ) → IsWithin (off + 11) (decode_opcode m at off rex)
unfolding decode_opcode form_size IsWithin
decode_opcode-IsWithin m at off rex =
    elim (Option-cases (opcode_form (m (at + off)) (m (at + off + 1)))) [
      | inl unknown ↦ rw (unknown, decode_opcode) (omega arith, tt)
      | inr ((skip, (imm_size, has_dest_reg)), known) ↦
          let (short, register) =
            decode_modrm_bounds (off + skip) rex (m (at + off)) (m (at + off + skip + 1)) imm_size
              has_dest_reg in
          let small : skip + imm_size ≤ 4 =
            subst (λ f. form_size f ≤ 4) known
              (form_size-opcode_form (m (at + off)) (m (at + off + 1))) in
          rw (known, decode_opcode) (omega arith, register)
    ]

-- Whatever the bytes are, an instruction is at most 12 bytes long, so that its length is kept in a
-- byte, and a destination is one of the sixteen registers.
pub decode_binary_insn_bounds :
    (m : Memory) (at : ℕ)
    → ((decode_binary_insn m at).0 ≤ 12) × IsRegister ((decode_binary_insn m at).1)
unfolding decode_binary_insn IsWithin
decode_binary_insn_bounds m at = elim (Bool-cases (m at / 16 % 16 == 4)) [
  | inl prefixed ↦ rw (prefixed, decode_binary_insn) (decode_opcode-IsWithin m at 1 (m at))
  | inr plain ↦
      let (short, register) = decode_opcode-IsWithin m at 0 0 in
      rw (plain, decode_binary_insn) (omega arith, register)
]
