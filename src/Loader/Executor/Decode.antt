-- ===== src/Loader/Executor/Decode.antt =====
-- crates/grafted-loader/src/executor.rs: `decode_binary_insn`.
pub mod Laws
pub mod Encoding
use grafted.Base.{
  ℕ, zero, suc, ◌+◌, ◌-◌, ◌*◌, ◌/◌, ◌%◌, ◌^◌, Bool, true, false, not, ◌&&◌, ◌||◌, List, [], ◌∷◌,
  Option, none, some, ◌==◌, nat_eq, ltb, leb, if◌then◌else◌, contains, has_bit,
}
use grafted.Loader.Memory.{Memory}

-- The first arm of the `match`: a register is loaded.
abbrev pub loads : List ℕ
loads = 0x8B ∷ (0x8A ∷ (0x63 ∷ (0x03 ∷ (0x0B ∷ (0x23 ∷ (0x2B ∷ (0x33 ∷ (0x3B ∷ (0x3A ∷ [])))))))))

abbrev pub stores : List ℕ
stores =
    0x89
    ∷ (0x88 ∷ (0x39 ∷ (0x38 ∷ (0x85 ∷ (0x84 ∷ (0x01 ∷ (0x09 ∷ (0x21 ∷ (0x29 ∷ (0x31 ∷ []))))))))))

abbrev pub with_imm8 : List ℕ
with_imm8 = 0x83 ∷ (0x80 ∷ (0xC6 ∷ (0xC7 ∷ (0xF6 ∷ []))))

-- The second bytes after 0x0F.
abbrev pub two_byte_loads : List ℕ
two_byte_loads = 0xB6 ∷ (0xB7 ∷ (0xBE ∷ (0xBF ∷ (0xAF ∷ []))))

-- For an opcode, and the byte behind it: how far the byte before ModRM is behind the opcode, the
-- size of the immediate, and whether there is a destination register.
unfoldable pub opcode_form : ℕ → ℕ → Option (ℕ × (ℕ × Bool))
opcode_form opcode op2 =
    if contains loads opcode
    then some (0, (0, true))
    else if contains stores opcode
    then some (0, (0, false))
    else if opcode == 0xFF
    then some (0, (0, false))
    else if contains with_imm8 opcode
    then some (0, (1, false))
    else if opcode == 0x81
    then some (0, (4, false))
    else if (opcode == 0x0F) && contains two_byte_loads op2
    then some (1, (0, true))
    else none

abbrev pub disp_size : ℕ → ℕ → ℕ
disp_size modf rm =
    if modf == 0
    then (if rm == 5 then 4 else 0)
    else if modf == 1
    then 1
    else if modf == 2
    then 4
    else 0

-- Behind the opcode: the ModRM byte, the SIB byte, the displacement and the immediate.
unfoldable pub decode_modrm : ℕ → ℕ → ℕ → ℕ → ℕ → Bool → ℕ × Option ℕ
decode_modrm off rex opcode modrm imm_size has_dest_reg =
    let modf = modrm / 64 % 4 in
    let reg = modrm / 8 % 8 + (if has_bit rex 2 then 8 else 0) in
    let rm = modrm % 8 in
    if modf == 3
    then (if (opcode == 0xFF) && ((modrm / 8 % 8 == 2) || (modrm / 8 % 8 == 4))
        then (off + 2, none)
        else (0, none))
    else (
      off + 2 + (if rm == 4 then 1 else 0) + disp_size modf rm + imm_size,
      if has_dest_reg then some reg else none,
    )

-- The instruction behind the prefix.
unfoldable pub decode_opcode : Memory → ℕ → ℕ → ℕ → ℕ × Option ℕ
decode_opcode m at off rex = elim (opcode_form (m (at + off)) (m (at + off + 1))) [
  | none ↦ (0, none)
  | some (skip, (imm_size, has_dest_reg)) ↦
      decode_modrm (off + skip) rex (m (at + off)) (m (at + off + skip + 1)) imm_size has_dest_reg
]

-- A length of 0 says that the instruction is not known.
unfoldable pub decode_binary_insn : Memory → ℕ → ℕ × Option ℕ
decode_binary_insn m at =
    if m at / 16 % 16 == 4 then decode_opcode m at 1 (m at) else decode_opcode m at 0 0
