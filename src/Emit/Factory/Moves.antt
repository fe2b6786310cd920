-- ===== src/Emit/Factory/Moves.antt =====
-- src/X86InstructionFactory.C: class X86InstructionFactory, moves.
use pebil.Common.{ℕ, ◌+◌, ◌*◌, ◌++◌, Option, List, ltb, ◌==◌, not, if◌then◌else◌, ◌>>◌, ensure}
use pebil.Emit.Buffer.{byte, copy, when, fill, fits}

unfoldable pub emit_move_imm_to_reg : ℕ → ℕ → Option (List ℕ)
unfolding fill copy
emit_move_imm_to_reg imm idx = do
  ensure (ltb idx 8)
  ensure (fits imm)
  fill 5 (byte 0 (0xb8 + idx) ++ copy 1 4 imm)

unfoldable pub emit_move_imm_byte_to_reg : ℕ → ℕ → Option (List ℕ)
unfolding fill
emit_move_imm_byte_to_reg imm idx = do
  ensure (ltb idx 8)
  let reg = if ltb 3 idx then 1 else 0
  fill (2 + (if ltb 3 idx then 2 else 0)) (
      byte 0 0x66
      ++ byte reg (0xb0 + (if ltb 3 idx then 0x08 else 0) + idx)
      ++ byte (reg + 1) imm
      ++ when (ltb 3 idx) (byte 3 0x00))

unfoldable pub emit_stack_push_imm : ℕ → Option (List ℕ)
unfolding fill copy
emit_stack_push_imm imm = do ensure (fits imm); fill 5 (byte 0 0x68 ++ copy 1 4 imm)

unfoldable pub emit_move_imm_to_regaddr_imm : ℕ → ℕ → ℕ → Option (List ℕ)
unfolding fill copy
emit_move_imm_to_regaddr_imm immval idx immoff = do
  ensure (ltb idx 8)
  let sib = if idx == 4 then 1 else 0
  fill (10 + sib) (
      byte 0 0xc7
      ++ byte 1 (0x80 + idx)
      ++ when (idx == 4) (byte 2 0x24)
      ++ copy (6 + sib) 4 immval
      ++ copy (2 + sib) 4 immoff)

unfoldable pub emit_move_reg_to_regaddr : ℕ → ℕ → Option (List ℕ)
unfolding fill
emit_move_reg_to_regaddr idxsrc idxdest = do
  ensure (ltb idxsrc 8)
  ensure (ltb idxdest 8)
  fill 2 (byte 0 0x89 ++ byte 1 (0x00 + idxsrc * 8 + idxdest))

unfoldable pub emit_add_byte_to_regaddr : ℕ → ℕ → Option (List ℕ)
unfolding fill
emit_add_byte_to_regaddr byt idx = do
  ensure (ltb idx 8)
  fill 3 (byte 0 0x83 ++ byte 1 (0x00 + idx) ++ byte 2 byt)

unfoldable pub emit_move_rip_imm_to_segment_reg : ℕ → ℕ → Option (List ℕ)
unfolding fill copy
emit_move_rip_imm_to_segment_reg imm idx = do
  ensure (ltb idx 6)
  ensure (not (idx == 1))
  ensure (fits imm)
  fill 6 (byte 0 0x8e ++ byte 1 (0x05 + 8 * idx) ++ copy 2 4 imm)

unfoldable pub emit_move_imm_to_segment_reg : ℕ → ℕ → Option (List ℕ)
unfolding fill copy
emit_move_imm_to_segment_reg imm idx = do
  ensure (ltb idx 6)
  ensure (not (idx == 1))
  ensure (fits imm)
  fill 7 (byte 0 0x8e ++ byte 1 (0x04 + 8 * idx) ++ byte 2 0x25 ++ copy 3 4 imm)
