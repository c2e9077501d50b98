-- ===== src/Loader/Executor/Decode/Encoding.antt =====
-- The decoder against the encoding of the instructions.
use grafted.Base.{
  ℕ, ◌+◌, ◌*◌, ◌/◌, ◌%◌, ◌<◌, ◌≡◌, refl, ◌∙◌, ap, Bool, true, false, ◌&&◌, ◌||◌, List, [], ◌∷◌,
  ◌++◌, Option, none, some, ◌==◌, nat_eq, ltb, if◌then◌else◌, contains, has_bit, Bytes, arith, inl,
  inr, Bool-cases, length, length-append,
}
use mathlib.Core.Path.{subst}
use grafted.Loader.Memory.{Memory}
use grafted.Loader.Executor.Code.{HoldsBytes, byte_at}
use grafted.Loader.Executor.Decode.{
  opcode_form, disp_size, decode_modrm, decode_opcode, decode_binary_insn, stores, two_byte_loads,
}

-- An instruction with a memory operand: its prefix, whether 0x0F comes before the opcode, the parts of
-- ModRM, the SIB byte, the displacement and the immediate.
pub record Insn : Type 0 where
  pub rex : Option ℕ
  pub two_byte : Bool
  pub opcode : ℕ
  pub modf : ℕ
  pub reg : ℕ
  pub rm : ℕ
  pub sib : ℕ
  pub disp : Bytes
  pub imm : Bytes

abbrev pub rex_bytes : Option ℕ → Bytes
rex_bytes none = []
rex_bytes (some r) = (0x40 + r) ∷ []

-- ModRM and what follows.
abbrev pub operand : Insn → Bytes
operand i =
    (i.modf * 64 + i.reg * 8 + i.rm) ∷ ((if i.rm == 4 then i.sib ∷ [] else []) ++ (i.disp ++ i.imm))

abbrev pub encode : Insn → Bytes
encode i = rex_bytes i.rex ++ ((if i.two_byte then 0x0F ∷ [] else []) ++ (i.opcode ∷ operand i))

-- The opcodes that load a register, of those that the decoder lists: MOV, MOVSXD, ADD, OR, AND, SUB and XOR.
abbrev pub loading : List ℕ
loading = 0x8B ∷ (0x8A ∷ (0x63 ∷ (0x03 ∷ (0x0B ∷ (0x23 ∷ (0x2B ∷ (0x33 ∷ [])))))))

abbrev pub arithmetic_imm8 : List ℕ
arithmetic_imm8 = 0x83 ∷ (0x80 ∷ (0xC6 ∷ []))

abbrev pub is_known : Insn → Bool
is_known i =
    if i.two_byte
    then contains two_byte_loads i.opcode
    else contains loading i.opcode
      || (contains stores i.opcode
          || ((i.opcode == 0xFF)
              || (contains arithmetic_imm8 i.opcode
                  || ((i.opcode == 0x81) || ((i.opcode == 0xF6) && ltb i.reg 2)))))

-- The displacement is of 32 bits without a base register, and by ModRM otherwise.
abbrev pub disp_length : ℕ → ℕ → ℕ → ℕ
disp_length modf rm sib =
    if modf == 0
    then (if (rm == 5) || ((rm == 4) && (sib % 8 == 5)) then 4 else 0)
    else if modf == 1
    then 1
    else 4

abbrev pub imm_length : Insn → ℕ
imm_length i =
    if i.two_byte
    then 0
    else if contains arithmetic_imm8 i.opcode || (i.opcode == 0xF6)
    then 1
    else if i.opcode == 0x81
    then 4
    else 0

abbrev pub IsEncodable : Insn → Type 0
IsEncodable i =
    (is_known i ≡ true)
    × (i.modf < 3)
    × (i.reg < 8)
    × (i.rm < 8)
    × (length i.disp ≡ disp_length i.modf i.rm i.sib)
    × (length i.imm ≡ imm_length i)

-- The prefix's bit 2 as a part of a register's number.
abbrev pub high_bit : Option ℕ → ℕ
high_bit none = 0
high_bit (some r) = if has_bit r 2 then 8 else 0

-- The register that the instruction loads, the prefix's bit 2 its high bit.
abbrev pub destination : Insn → Option ℕ
destination i =
    if i.two_byte || contains loading i.opcode then some (i.reg + high_bit i.rex) else none

decode_modrm_parts :
    (off rex opcode modf reg rm imm_size : ℕ) (has_dest_reg : Bool)
    → modf < 3
    → reg < 8
    → rm < 8
    → decode_modrm off rex opcode (modf * 64 + reg * 8 + rm) imm_size has_dest_reg ≡ (
      off + 2 + (if rm == 4 then 1 else 0) + disp_size modf rm + imm_size,
      if has_dest_reg then some (reg + (if has_bit rex 2 then 8 else 0)) else none,
    )
unfolding decode_modrm
decode_modrm_parts off rex opcode modf reg rm imm_size has_dest_reg hm hr hb =
    let a : (modf * 64 + reg * 8 + rm) / 64 % 4 ≡ modf = omega arith in
    let b : (modf * 64 + reg * 8 + rm) / 8 % 8 ≡ reg = omega arith in
    let c : (modf * 64 + reg * 8 + rm) % 8 ≡ rm = omega arith in
    let d : (modf == 3) ≡ false = ground arith in rw (a, b, c, d, decode_modrm) refl

one_byte_form :
    (i : Insn) (op2 : ℕ)
    → i.two_byte ≡ false
    → is_known i ≡ true
    → opcode_form i.opcode op2 ≡ some (0, (imm_length i, contains loading i.opcode))
unfolding opcode_form
one_byte_form i op2 one known = ground arith

two_byte_form :
    (i : Insn)
    → i.two_byte ≡ true
    → is_known i ≡ true
    → opcode_form 0x0F i.opcode ≡ some (1, (imm_length i, true))
unfolding opcode_form
two_byte_form i one known = ground arith

no_prefix : (i : Insn) → i.two_byte ≡ false → is_known i ≡ true → (i.opcode / 16 % 16 == 4) ≡ false
no_prefix i one known = ground arith

-- SIB with the base register 5 and no displacement by ModRM: the decoder misses the displacement.
abbrev pub is_baseless : Insn → Bool
is_baseless i = (i.modf == 0) && ((i.rm == 4) && (i.sib % 8 == 5))

length-operand :
    (i : Insn)
    → IsEncodable i
    → is_baseless i ≡ false
    → length (operand i) ≡ 1 + (if i.rm == 4 then 1 else 0) + disp_size i.modf i.rm + imm_length i
length-operand i (known, hm, hr, hb, hd, hi) based =
    let sized : disp_size i.modf i.rm ≡ disp_length i.modf i.rm i.sib = ground arith in
    ground (
      arith,
      length-append (if i.rm == 4 then i.sib ∷ [] else []) (i.disp ++ i.imm),
      length-append i.disp i.imm,
    )

abbrev pub loaded : Insn → ℕ → Bool → Option ℕ
loaded i rex has_dest_reg =
    if has_dest_reg then some (i.reg + (if has_bit rex 2 then 8 else 0)) else none

decode_one :
    (m : Memory) (at off rex : ℕ) (i : Insn)
    → i.two_byte ≡ false
    → IsEncodable i
    → is_baseless i ≡ false
    → HoldsBytes m (at + off) (i.opcode ∷ operand i)
    → decode_opcode m at off rex
      ≡ (off + length (i.opcode ∷ operand i), loaded i rex (contains loading i.opcode))
unfolding decode_opcode
decode_one m at off rex i one (known, hm, hr, hb, hd, hi) based (b0, (b1, rest)) =
    let form = one_byte_form i (m (at + off + 1)) one known in
    let modrm =
      byte_at m (at + off + 1) (at + off + 0 + 1) (i.modf * 64 + i.reg * 8 + i.rm) (omega arith)
        b1 in
    let sized = length-operand i (known, hm, hr, hb, hd, hi) based in
    let total : off + 0 + 2 + (if i.rm == 4 then 1 else 0) + disp_size i.modf i.rm + imm_length i
        ≡ off + length (i.opcode ∷ operand i) =
      omega (arith, sized) in
    rw (b0, form, modrm, decode_opcode)
      (decode_modrm_parts (off + 0) rex (m (at + off)) i.modf i.reg i.rm (imm_length i)
          (contains loading i.opcode) hm hr hb
        ∙ ap (λ (x : ℕ). (x, loaded i rex (contains loading i.opcode))) total)

decode_two :
    (m : Memory) (at off rex : ℕ) (i : Insn)
    → i.two_byte ≡ true
    → IsEncodable i
    → is_baseless i ≡ false
    → HoldsBytes m (at + off) (0x0F ∷ (i.opcode ∷ operand i))
    → decode_opcode m at off rex ≡ (off + length (0x0F ∷ (i.opcode ∷ operand i)), loaded i rex true)
unfolding decode_opcode
decode_two m at off rex i two (known, hm, hr, hb, hd, hi) based (b0, (b1, (b2, rest))) =
    let form = two_byte_form i two known in
    let modrm =
      byte_at m (at + off + 1 + 1) (at + off + 1 + 1) (i.modf * 64 + i.reg * 8 + i.rm) (omega arith)
        b2 in
    let sized = length-operand i (known, hm, hr, hb, hd, hi) based in
    let total : off + 1 + 2 + (if i.rm == 4 then 1 else 0) + disp_size i.modf i.rm + imm_length i
        ≡ off + length (0x0F ∷ (i.opcode ∷ operand i)) =
      omega (arith, sized) in
    rw (b0, b1, form, modrm, decode_opcode)
      (decode_modrm_parts (off + 1) rex (m (at + off)) i.modf i.reg i.rm (imm_length i) true hm hr
          hb
        ∙ ap (λ (x : ℕ). (x, loaded i rex true)) total)

-- The instruction's bytes behind its prefix.
abbrev pub unprefixed : Insn → Bytes
unprefixed i = (if i.two_byte then 0x0F ∷ [] else []) ++ (i.opcode ∷ operand i)

decode_unprefixed :
    (m : Memory) (at off rex : ℕ) (i : Insn)
    → IsEncodable i
    → is_baseless i ≡ false
    → HoldsBytes m (at + off) (unprefixed i)
    → decode_opcode m at off rex
      ≡ (off + length (unprefixed i), loaded i rex (i.two_byte || contains loading i.opcode))
decode_unprefixed m at off rex i fine based held = elim (Bool-cases i.two_byte) [
  | inl two ↦ rw two (
      decode_two m at off rex i two fine based (
        subst
          (λ (b : Bool).
            HoldsBytes m (at + off) ((if b then 0x0F ∷ [] else []) ++ (i.opcode ∷ operand i)))
          two held))
  | inr one ↦ rw one (
      decode_one m at off rex i one fine based (
        subst
          (λ (b : Bool).
            HoldsBytes m (at + off) ((if b then 0x0F ∷ [] else []) ++ (i.opcode ∷ operand i)))
          one held))
]

first_byte :
    (m : Memory) (at : ℕ) (i : Insn)
    → IsEncodable i
    → HoldsBytes m at (unprefixed i)
    → (m at / 16 % 16 == 4) ≡ false
first_byte m at i (known, hm, hr, hb, hd, hi) held = elim (Bool-cases i.two_byte) [
  | inl two ↦
      let (b, others) =
        subst
          (λ (b : Bool). HoldsBytes m at ((if b then 0x0F ∷ [] else []) ++ (i.opcode ∷ operand i)))
          two held in
      rw b refl
  | inr one ↦
      let (b, others) =
        subst
          (λ (b : Bool). HoldsBytes m at ((if b then 0x0F ∷ [] else []) ++ (i.opcode ∷ operand i)))
          one held in
      rw b (no_prefix i one known)
]

abbrev pub IsNibble : Option ℕ → Type 0
IsNibble none = Unit {0}
IsNibble (some r) = r < 16

decode_prefixed :
    (m : Memory) (at : ℕ) (i : Insn) (rex : Option ℕ)
    → IsNibble rex
    → IsEncodable i
    → is_baseless i ≡ false
    → HoldsBytes m at (rex_bytes rex ++ unprefixed i)
    → decode_binary_insn m at ≡ (
      length (rex_bytes rex ++ unprefixed i),
      if i.two_byte || contains loading i.opcode then some (i.reg + high_bit rex) else none,
    )
unfolding decode_binary_insn
decode_prefixed m at i none nibble fine based held =
    rw (first_byte m at i fine held, decode_binary_insn)
      (decode_unprefixed m at 0 0 i fine based
          (subst (λ (x : ℕ). HoldsBytes m x (unprefixed i)) (omega arith) held)
        ∙ ap (λ (x : ℕ). (x, loaded i 0 (i.two_byte || contains loading i.opcode))) (omega arith))
decode_prefixed m at i (some r) nibble fine based (b, held) =
    let is_rex : (m at / 16 % 16 == 4) ≡ true = rw b (ground arith) in
    let high : has_bit (m at) 2 ≡ has_bit r 2 = rw b (ground arith) in
    rw (is_rex, decode_binary_insn)
      (decode_unprefixed m at 1 (m at) i fine based held
        ∙ ap (λ (x : ℕ). (x, loaded i (m at) (i.two_byte || contains loading i.opcode)))
            (omega arith)
        ∙ ap
            (λ (t : Bool). (
              length (rex_bytes (some r) ++ unprefixed i),
              if i.two_byte || contains loading i.opcode
                  then some (i.reg + (if t then 8 else 0))
                  else none,
            ))
            high)

-- Of an instruction with a memory operand, with a REX prefix or without, whose opcode is one of the
-- loads 0x8B, 0x8A, 0x63, 0x03, 0x0B, 0x23, 0x2B and 0x33, of 0x0F 0xB6, 0xB7, 0xBE, 0xBF and 0xAF, of
-- the opcodes from a register, 0xFF, 0x83, 0x80, 0xC6, 0x81, or 0xF6 /0 and /1, the decoder gives the
-- length and the loaded register, but for the form with the SIB base 5 and no displacement by ModRM.
-- Left out of what the decoder lists are 0xC7 and 0xF6 /2 to /7, whose immediates it takes to be of
-- one byte, the compares 0x3A and 0x3B, which it takes for loads, and 0xFF with a register operand.
pub decode_binary_insn-encode :
    (m : Memory) (at : ℕ) (i : Insn)
    → IsEncodable i
    → is_baseless i ≡ false
    → IsNibble i.rex
    → HoldsBytes m at (encode i)
    → decode_binary_insn m at ≡ (length (encode i), destination i)
decode_binary_insn-encode m at i fine based nibble held =
    decode_prefixed m at i i.rex nibble fine based held
