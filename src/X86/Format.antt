-- ===== src/X86/Format.antt =====
-- What an instruction says, and the shape that follows each opcode.
use pebil.Common.{
  ℕ, ◌%◌, Bool, true, false, not, ◌&&◌, ◌||◌, Option, List, [], ◌∷◌, ltb, leb, ◌==◌, if◌then◌else◌,
  length,
}

-- The r/m operand. An index comes with its scale, 1, 2, 4 or 8. A displacement is the bit pattern
-- that the instruction holds: of 32 bits, or of 8.
pub data Operand : Type 0 where
  absent : Operand
  gpr : ℕ → Operand
  mem : Option ℕ → Option (ℕ × ℕ) → ℕ → Operand
  mem_byte : Option ℕ → Option (ℕ × ℕ) → ℕ → Operand
  rip : ℕ → Operand

-- `wide` is REX.W; `reg` is the ModRM register field with its REX bit, or the register that an
-- opcode holds in its low three bits, with REX.B.
pub record Insn : Type 0 where
  pub prefixes : List ℕ
  pub wide : Bool
  pub opcode : ℕ
  pub reg : ℕ
  pub rm : Operand
  pub imm : ℕ

-- The four low bits of a REX prefix.
pub record Rex : Type 0 where
  pub w : Bool
  pub r : ℕ
  pub x : ℕ
  pub b : ℕ

-- What follows an opcode: a ModRM byte and so many bytes of immediate, a register in the opcode
-- itself, or an immediate alone.
pub data Form : Type 0 where
  modrm : ℕ → Form
  in_opcode : ℕ → Form
  plain : ℕ → Form
  unknown : Form

-- Legacy prefixes: operand and address size, lock, repeat, and the segment overrides FS and GS.
unfoldable pub is_prefix : ℕ → Bool
is_prefix b =
    b == 0x66
    || (b == 0x67 || (b == 0xf0 || (b == 0xf2 || (b == 0xf3 || (b == 0x64 || b == 0x65)))))

-- One-byte opcodes with a ModRM byte: immediate of 0, 1 or 4 bytes.
unfoldable pub has_modrm : ℕ → Bool
has_modrm b =
    b == 0x01
    || (b == 0x09
        || (b == 0x21
            || (b == 0x31
                || (b == 0x87
                    || (b == 0x89
                        || (b == 0x8b
                            || (b == 0x8c || (b == 0x8d || (b == 0x8e || b == 0xff)))))))))

unfoldable pub has_modrm_imm8 : ℕ → Bool
has_modrm_imm8 b = b == 0x83 || (b == 0xc1 || b == 0x6b)

unfoldable pub has_modrm_imm32 : ℕ → Bool
has_modrm_imm32 b = b == 0x81 || (b == 0xc7 || b == 0x69)

-- `small` is the operand-size prefix, `wide` is REX.W. In 64-bit mode the bytes 0x40 to 0x4f are
-- REX prefixes, and do not get here.
unfoldable pub form_of : Bool → Bool → ℕ → Form
unfolding has_modrm has_modrm_imm8 has_modrm_imm32
form_of small wide b =
    if has_modrm b
    then modrm 0
    else if has_modrm_imm8 b
    then modrm 1
    else if has_modrm_imm32 b
    then modrm (if small then 2 else 4)
    else if leb 0x40 b && ltb b 0x60
    then in_opcode 0
    else if leb 0xb0 b && ltb b 0xb8
    then in_opcode 1
    else if leb 0xb8 b && ltb b 0xc0
    then in_opcode (if wide then 8 else if small then 2 else 4)
    else if b == 0x05 || (b == 0x2d || (b == 0x68 || (b == 0xe8 || b == 0xe9)))
    then plain 4
    else if b == 0xcd
    then plain 1
    else if b == 0xa1 || b == 0xa3
    then plain 4
    else if b == 0x06 || (b == 0x07 || (b == 0x16 || (b == 0x17 || (b == 0x1e || b == 0x1f))))
    then plain 0
    else if leb 0x9c b && ltb b 0xa0
    then plain 0
    else if b == 0x90
        || (b == 0xa5
            || (b == 0xaa
                || (b == 0xab
                    || (b == 0xc3 || (b == 0xcc || (b == 0xce || (b == 0xfc || b == 0xfd)))))))
    then plain 0
    else unknown

-- Opcodes behind 0x0f, as 0x0f00 and the second byte.
unfoldable pub form_of_two : ℕ → Form
form_of_two b =
    if b == 0xae || (b == 0xc1 || (b == 0x1f || b == 0x10))
    then modrm 0
    else if leb 0x80 b && ltb b 0x90
    then plain 4
    else if b == 0xa0 || (b == 0xa1 || (b == 0xa8 || b == 0xa9))
    then plain 0
    else unknown

unfoldable pub is_memory : Operand → Bool
is_memory absent = false
is_memory (gpr r) = false
is_memory other = true

unfoldable pub has_prefix : ℕ → List ℕ → Bool
has_prefix p [] = false
has_prefix p (q ∷ ps) = p == q || has_prefix p ps

-- Opcodes whose immediate or displacement depends on the operand size in a way that `form_of` leaves
-- out.
unfoldable pub is_near : ℕ → Bool
is_near op =
    op == 0x05
    || (op == 0x2d
        || (op == 0x68 || (op == 0xe8 || (op == 0xe9 || (leb 0x0f80 op && ltb op 0x0f90)))))

-- Opcodes that 64-bit mode does not have, or reads in another way.
unfoldable pub is_only32 : ℕ → Bool
is_only32 op =
    op == 0x06
    || (op == 0x07
        || (op == 0x16
            || (op == 0x17
                || (op == 0x1e
                    || (op == 0x1f
                        || (op == 0x40
                            || (op == 0x48 || (op == 0xa1 || (op == 0xa3 || op == 0xce)))))))))

-- Where the ModRM byte is part of the opcode, or asks for memory or for a segment register.
unfoldable pub is_regular_modrm : Insn → Bool
unfolding is_memory
is_regular_modrm i =
    if i.opcode == 0x8d
    then is_memory i.rm
    else if i.opcode == 0x8c
    then ltb i.reg 6
    else if i.opcode == 0x8e
    then ltb i.reg 6 && not (i.reg == 1)
    else if i.opcode == 0xc7 || i.opcode == 0x0f1f
    then i.reg == 0
    else if i.opcode == 0xff
    then i.reg == 0 || (i.reg == 1 || (i.reg == 2 || (i.reg == 4 || i.reg == 6)))
    else if i.opcode == 0xc1
    then not (i.reg % 8 == 6)
    else if i.opcode == 0x0fae
    then ltb i.reg 2 && (is_memory i.rm && length i.prefixes == 0)
    else true

-- The instructions that the format here gives in full: at most two prefixes, that of the address size in
-- 64-bit mode only, and that of the operand size only where nothing else depends on it.
unfoldable pub is_regular : Bool → Insn → Bool
unfolding has_prefix is_near is_only32 is_regular_modrm
is_regular is64 i =
    ltb (length i.prefixes) 3
    && ((is64 || not (has_prefix 0x67 i.prefixes))
        && ((not (has_prefix 0x66 i.prefixes) || (not i.wide && not (is_near i.opcode)))
            && (not (is64 && is_only32 i.opcode) && is_regular_modrm i)))
