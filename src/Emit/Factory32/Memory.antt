-- ===== src/Emit/Factory32/Memory.antt =====
-- src/X86InstructionFactory.C: class X86InstructionFactory32, operands in memory.
use pebil.Common.{ℕ, ◌+◌, ◌*◌, ◌-◌, ◌++◌, Option, List, ltb, ◌==◌, if◌then◌else◌, ◌>>◌, ensure}
use pebil.Emit.Buffer.{byte, copy, when, fill, fits}

unfoldable pub emit_move_imm_to_mem : ℕ → ℕ → Option (List ℕ)
unfolding fill copy
emit_move_imm_to_mem imm addr =
    fill 10 (byte 0 0xc7 ++ byte 1 0x05 ++ copy 2 4 addr ++ copy 6 4 imm)

unfoldable pub emit_fx_save : ℕ → Option (List ℕ)
unfolding fill copy
emit_fx_save addr = fill 7 (byte 0 0x0f ++ byte 1 0xae ++ byte 2 0x05 ++ copy 3 4 addr)

unfoldable pub emit_fx_rstor : ℕ → Option (List ℕ)
unfolding fill copy
emit_fx_rstor addr = fill 7 (byte 0 0x0f ++ byte 1 0xae ++ byte 2 0x0d ++ copy 3 4 addr)

unfoldable pub emit_exchange_mem_reg : ℕ → ℕ → Option (List ℕ)
unfolding fill copy
emit_exchange_mem_reg addr idx = do
  ensure (ltb idx 8)
  fill 6 (byte 0 0x87 ++ byte 1 (0x05 + 8 * idx) ++ copy 2 4 addr)

unfoldable pub emit_add_imm_byte_to_mem : ℕ → ℕ → Option (List ℕ)
unfolding fill copy
emit_add_imm_byte_to_mem imm addr =
    fill 7 (byte 0 0x83 ++ byte 1 0x05 ++ copy 2 4 addr ++ copy 6 1 imm)

unfoldable pub emit_sub_imm_byte_to_mem : ℕ → ℕ → Option (List ℕ)
unfolding fill copy
emit_sub_imm_byte_to_mem imm addr =
    fill 7 (byte 0 0x83 ++ byte 1 0x2d ++ copy 2 4 addr ++ copy 6 1 imm)

-- X86_REG_AX is 0: a shorter opcode.
unfoldable pub emit_move_reg_to_mem : ℕ → ℕ → Option (List ℕ)
unfolding fill copy
emit_move_reg_to_mem idx addr = do
  ensure (ltb idx 8)
  ensure (fits addr)
  let short = if idx == 0 then 1 else 0
  fill (6 - short) (
      byte 0 0x89
      ++ byte 1 (0x05 + 0x8 * idx)
      ++ when (idx == 0) (byte 0 0xa3)
      ++ copy (2 - short) 4 addr)

unfoldable pub emit_move_mem_to_reg : ℕ → ℕ → Option (List ℕ)
unfolding fill copy
emit_move_mem_to_reg addr idx = do
  ensure (ltb idx 8)
  ensure (fits addr)
  let short = if idx == 0 then 1 else 0
  fill (6 - short) (
      byte 0 0x8b
      ++ byte 1 (0x05 + 0x8 * idx)
      ++ when (idx == 0) (byte 0 0xa1)
      ++ copy (2 - short) 4 addr)

-- X86_REG_SP is 4: a SIB byte.
unfoldable pub emit_load_reg_imm_reg : ℕ → ℕ → ℕ → Option (List ℕ)
unfolding fill copy
emit_load_reg_imm_reg idxsrc imm idxdest = do
  ensure (ltb idxsrc 8)
  ensure (ltb idxdest 8)
  let sib = if idxdest == 4 then 1 else 0
  fill (6 + sib) (
      byte 0 0x8d
      ++ byte 1 (0x80 + idxsrc * 8 + idxdest)
      ++ when (idxdest == 4) (byte 2 0x24)
      ++ copy (2 + sib) 4 imm)

unfoldable pub emit_move_regaddr_imm_to_reg : ℕ → ℕ → ℕ → Option (List ℕ)
unfolding fill copy
emit_move_regaddr_imm_to_reg idxsrc imm idxdest = do
  ensure (ltb idxsrc 8)
  ensure (ltb idxdest 8)
  let sib = if idxsrc == 4 then 1 else 0
  fill (6 + sib) (
      byte 0 0x8b
      ++ byte 1 (0x80 + idxdest * 8 + idxsrc)
      ++ when (idxsrc == 4) (byte 2 0x24)
      ++ copy (2 + sib) 4 imm)

unfoldable pub emit_move_regaddr_to_reg : ℕ → ℕ → Option (List ℕ)
unfolding fill
emit_move_regaddr_to_reg srcidx destidx = do
  ensure (ltb srcidx 8)
  ensure (ltb destidx 8)
  fill 2 (byte 0 0x8b ++ byte 1 (0x00 + srcidx + 8 * destidx))

unfoldable pub emit_move_reg_to_regaddr_imm : ℕ → ℕ → ℕ → Option (List ℕ)
unfolding fill copy
emit_move_reg_to_regaddr_imm idxsrc idxdest imm = do
  ensure (ltb idxsrc 8)
  ensure (ltb idxdest 8)
  let sib = if idxdest == 4 then 1 else 0
  fill (6 + sib)
      (byte 0 0x89 ++ byte 1 (0x80 + 8 * idxsrc + idxdest) ++ byte 2 0x24 ++ copy (2 + sib) 4 imm)

unfoldable pub emit_jump_indirect : ℕ → Option (List ℕ)
unfolding fill copy
emit_jump_indirect tgt = do ensure (fits tgt); fill 6 (byte 0 0xff ++ byte 1 0x25 ++ copy 2 4 tgt)
