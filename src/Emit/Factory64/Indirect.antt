-- ===== src/Emit/Factory64/Indirect.antt =====
-- src/X86InstructionFactory.C: class X86InstructionFactory64, operands at an address in a register.
use pebil.Common.{
  ℕ, ◌+◌, ◌*◌, ◌%◌, ◌++◌, Option, List, ltb, leb, ◌==◌, if◌then◌else◌, ◌>>◌, ensure, Bool, ◌||◌,
}
use pebil.Emit.Buffer.{byte, copy, when, fill}

unfoldable pub emit_add_imm_to_regaddr_imm : ℕ → ℕ → ℕ → Option (List ℕ)
unfolding fill copy
emit_add_imm_to_regaddr_imm b reg imm = do
  ensure (ltb reg 16)
  let st = if leb 8 reg then 1 else 0
  let sib = if reg % 8 == 4 then 1 else 0
  let immoff = 2 + st + sib
  fill (10 + st + sib) (
      byte 0 0x41
      ++ byte st 0x81
      ++ byte (st + 1) (0x80 + reg % 8)
      ++ byte (st + 2) 0x24
      ++ copy immoff 4 imm
      ++ copy (immoff + 4) 4 b)

unfoldable pub emit_add_imm_byte_to_regaddr_imm : ℕ → ℕ → ℕ → Option (List ℕ)
unfolding fill copy
emit_add_imm_byte_to_regaddr_imm b reg imm = do
  ensure (ltb reg 16)
  let st = if leb 8 reg then 1 else 0
  let sib = if reg % 8 == 4 then 1 else 0
  let immoff = 2 + st + sib
  fill (7 + st + sib) (
      byte 0 0x41
      ++ byte st 0x83
      ++ byte (st + 1) (0x80 + reg % 8)
      ++ byte (st + 2) 0x24
      ++ copy immoff 4 imm
      ++ copy (immoff + 4) 1 b)

unfoldable pub emit_fx_save_reg : ℕ → Option (List ℕ)
unfolding fill
emit_fx_save_reg reg = do
  ensure (ltb reg 16)
  let off = if leb 8 reg then 1 else 0
  let sib = if reg % 8 == 4 then 1 else 0
  fill (3 + off + sib) (
      when (leb 8 reg) (byte 0 0x41)
      ++ byte off 0x0f
      ++ byte (off + 1) 0xae
      ++ byte (off + 2) (0x00 + reg % 8)
      ++ when (reg % 8 == 4) (byte (off + 3) 0x24))

unfoldable pub emit_fx_rstor_reg : ℕ → Option (List ℕ)
unfolding fill
emit_fx_rstor_reg reg = do
  ensure (ltb reg 16)
  let off = if leb 8 reg then 1 else 0
  let sib = if reg % 8 == 4 then 1 else 0
  fill (3 + off + sib) (
      when (leb 8 reg) (byte 0 0x41)
      ++ byte off 0x0f
      ++ byte (off + 1) 0xae
      ++ byte (off + 2) (0x08 + reg % 8)
      ++ when (reg % 8 == 4) (byte (off + 3) 0x24))

unfoldable pub emit_load_reg_imm_reg : ℕ → ℕ → ℕ → Option (List ℕ)
unfolding fill copy
emit_load_reg_imm_reg idxsrc imm idxdest = do
  ensure (ltb idxsrc 16)
  ensure (ltb idxdest 16)
  let sib = if idxdest == 4 then 1 else 0
  fill (7 + sib) (
      byte 0 ((if ltb idxsrc 8 then 0x48 else 0x4c) + (if ltb idxdest 8 then 0 else 1))
      ++ byte 1 0x8d
      ++ byte 2 (0x80 + 8 * (idxsrc % 8) + idxdest % 8)
      ++ byte 3 0x24
      ++ copy (3 + sib) 4 imm)

unfoldable pub emit_move_imm_to_regaddr_imm : ℕ → ℕ → ℕ → Option (List ℕ)
unfolding fill copy
emit_move_imm_to_regaddr_imm val idx off = do
  ensure (ltb idx 16)
  let sib = if idx % 8 == 4 then 1 else 0
  fill (12 + sib) (
      byte 0 0x67
      ++ byte 1 (0x48 + (if leb 8 idx then 1 else 0))
      ++ byte 2 0xc7
      ++ byte 3 (0x80 + idx % 8)
      ++ byte 4 0x24
      ++ copy (4 + sib) 4 off
      ++ copy (4 + sib + 4) 4 val)

unfoldable pub emit_move_regaddr_imm_to_reg : ℕ → ℕ → ℕ → Option (List ℕ)
unfolding fill copy
emit_move_regaddr_imm_to_reg idxsrc imm idxdest = do
  ensure (ltb idxsrc 16)
  ensure (ltb idxdest 16)
  let sib = if idxsrc % 8 == 4 then 1 else 0
  fill (7 + sib) (
      byte 0 ((if ltb idxdest 8 then 0x48 else 0x4c) + (if ltb idxsrc 8 then 0 else 1))
      ++ byte 1 0x8b
      ++ byte 2 (0x80 + (idxdest % 8) * 8 + idxsrc % 8)
      ++ byte 3 0x24
      ++ copy (3 + sib) 4 imm)

-- `buff[0] |= 0x08` on 0x40 or 0x44 adds 8.
unfoldable pub emit_move_reg_to_regaddr_imm : ℕ → ℕ → ℕ → Bool → Option (List ℕ)
unfolding fill copy
emit_move_reg_to_regaddr_imm idxsrc idxdest imm source64_bit = do
  ensure (ltb idxsrc 16)
  ensure (ltb idxdest 16)
  let sib = if idxdest % 8 == 4 then 1 else 0
  fill (7 + sib) (
      byte 0 (
        (if ltb idxsrc 8 then 0x40 else 0x44)
        + (if source64_bit then 0x08 else 0)
        + (if ltb idxdest 8 then 0 else 1))
      ++ byte 1 0x89
      ++ byte 2 (0x80 + 8 * (idxsrc % 8) + idxdest % 8)
      ++ byte 3 0x24
      ++ copy (3 + sib) 4 imm)

unfoldable pub emit_move_reg_to_regaddr_imm_1byte : ℕ → ℕ → ℕ → Option (List ℕ)
unfolding fill copy
emit_move_reg_to_regaddr_imm_1byte idxsrc idxdest imm = do
  ensure (ltb idxsrc 8)
  ensure (ltb idxdest 8)
  let sib = if idxdest == 4 then 1 else 0
  fill (4 + sib) (
      byte 0 0x48
      ++ byte 1 0x89
      ++ byte 2 (0x40 + idxsrc * 8 + idxdest)
      ++ when (idxdest == 4) (byte 3 0x24)
      ++ copy (3 + sib) 1 imm)

unfoldable pub emit_move_reg_to_regaddr_imm_4byte : ℕ → ℕ → ℕ → Option (List ℕ)
unfolding fill copy
emit_move_reg_to_regaddr_imm_4byte idxsrc idxdest imm = do
  ensure (ltb idxsrc 8)
  ensure (ltb idxdest 8)
  let sib = if idxdest == 4 then 1 else 0
  fill (7 + sib) (
      byte 0 0x48
      ++ byte 1 0x89
      ++ byte 2 (0x80 + idxsrc * 8 + idxdest)
      ++ when (idxdest == 4) (byte 3 0x24)
      ++ copy (3 + sib) 4 imm)

-- In this pair of emitters `srcidx` is the register that holds the address.
unfoldable pub emit_move_reg_to_regaddr : ℕ → ℕ → Option (List ℕ)
unfolding fill
emit_move_reg_to_regaddr destidx srcidx = do
  ensure (ltb srcidx 16)
  ensure (ltb destidx 16)
  let extra = if srcidx % 8 == 4 || srcidx % 8 == 5 then 1 else 0
  fill (3 + extra) (
      byte 0 (0x48 + (if leb 8 srcidx then 1 else 0) + (if leb 8 destidx then 0x04 else 0))
      ++ byte 1 0x89
      ++ byte 2 (0x00 + srcidx % 8 + 8 * (destidx % 8) + (if srcidx % 8 == 5 then 0x40 else 0))
      ++ when (srcidx % 8 == 4) (byte 3 0x24)
      ++ when (srcidx % 8 == 5) (byte 3 0x00))

unfoldable pub emit_move_regaddr_to_reg : ℕ → ℕ → Option (List ℕ)
unfolding fill
emit_move_regaddr_to_reg srcidx destidx = do
  ensure (ltb srcidx 16)
  ensure (ltb destidx 16)
  let extra = if srcidx % 8 == 4 || srcidx % 8 == 5 then 1 else 0
  fill (3 + extra) (
      byte 0 (0x48 + (if leb 8 srcidx then 1 else 0) + (if leb 8 destidx then 0x04 else 0))
      ++ byte 1 0x8b
      ++ byte 2 (0x00 + srcidx % 8 + 8 * (destidx % 8) + (if srcidx % 8 == 5 then 0x40 else 0))
      ++ when (srcidx % 8 == 4) (byte 3 0x24)
      ++ when (srcidx % 8 == 5) (byte 3 0x00))
