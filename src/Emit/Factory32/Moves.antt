-- ===== src/Emit/Factory32/Moves.antt =====
-- src/X86InstructionFactory.C: class X86InstructionFactory32, registers and the stack.
use pebil.Common.{ℕ, ◌+◌, ◌*◌, ◌++◌, Option, List, ltb, ◌>>◌, ensure, ◌&&◌}
use pebil.Emit.Buffer.{byte, copy, fill, fits}

unfoldable pub emit_move_segment_reg_to_reg : ℕ → ℕ → Option (List ℕ)
unfolding fill
emit_move_segment_reg_to_reg src dest = do
  ensure (ltb src 6)
  ensure (ltb dest 8)
  fill 2 (byte 0 0x8c ++ byte 1 (0xc0 + 8 * src + dest))

unfoldable pub emit_shift_right_logical : ℕ → ℕ → Option (List ℕ)
unfolding fill
emit_shift_right_logical imm reg = do
  ensure (ltb reg 8)
  fill 3 (byte 0 0xc1 ++ byte 1 (0xe8 + reg) ++ byte 2 imm)

unfoldable pub emit_shift_left_logical : ℕ → ℕ → Option (List ℕ)
unfolding fill
emit_shift_left_logical imm reg = do
  ensure (ltb reg 8)
  fill 3 (byte 0 0xc1 ++ byte 1 (0xe0 + reg) ++ byte 2 imm)

unfoldable pub emit_compare_imm_reg : ℕ → ℕ → Option (List ℕ)
unfolding fill copy
emit_compare_imm_reg imm reg = do
  ensure (ltb reg 8)
  ensure (fits imm)
  fill 6 (byte 0 0x81 ++ byte 1 (0xf8 + reg) ++ copy 2 4 imm)

-- X86_32BIT_GPRS is 8.
unfoldable pub emit_move_reg_to_reg : ℕ → ℕ → Option (List ℕ)
unfolding fill
emit_move_reg_to_reg srcreg destreg = do
  ensure (ltb srcreg 8)
  ensure (ltb destreg 8)
  fill 2 (byte 0 0x89 ++ byte 1 (0xc0 + 8 * srcreg + destreg))

unfoldable pub emit_reg_add_reg_2op_form : ℕ → ℕ → Option (List ℕ)
unfolding fill
emit_reg_add_reg_2op_form srcdestreg srcreg = do
  ensure (ltb srcdestreg 8)
  ensure (ltb srcreg 8)
  fill 2 (byte 0 0x01 ++ byte 1 (0xc0 + 8 * srcdestreg + srcreg))

unfoldable pub emit_reg_imm_1byte_mult_reg : ℕ → ℕ → ℕ → Option (List ℕ)
unfolding fill
emit_reg_imm_1byte_mult_reg src imm dest = do
  ensure (ltb src 8)
  ensure (ltb dest 8)
  fill 3 (byte 0 0x6b ++ byte 1 (0xc0 + 8 * dest + src) ++ byte 2 imm)

unfoldable pub emit_reg_add_imm : ℕ → ℕ → Option (List ℕ)
unfolding fill copy
emit_reg_add_imm idx imm = do
  ensure (ltb idx 8)
  fill 6 (byte 0 0x81 ++ byte 1 (0xc0 + idx) ++ copy 2 4 imm)

-- `imm` is a uint32_t, so the ASSERT that it fits in 32 bits holds.
unfoldable pub emit_reg_sub_imm : ℕ → ℕ → Option (List ℕ)
unfolding fill copy
emit_reg_sub_imm idx imm = do
  ensure (ltb 0 idx && ltb idx 8)
  fill 6 (byte 0 0x81 ++ byte 1 (0xe8 + idx) ++ copy 2 4 imm)

unfoldable pub emit_xor_reg_reg : ℕ → ℕ → Option (List ℕ)
unfolding fill
emit_xor_reg_reg src tgt = do
  ensure (ltb src 8)
  ensure (ltb tgt 8)
  fill 2 (byte 0 0x31 ++ byte 1 (0xc0 + tgt + 8 * src))

unfoldable pub emit_stack_push : ℕ → Option (List ℕ)
unfolding fill
emit_stack_push idx = do ensure (ltb idx 8); fill 1 (byte 0 (0x50 + idx))

unfoldable pub emit_stack_pop : ℕ → Option (List ℕ)
unfolding fill
emit_stack_pop idx = do ensure (ltb idx 8); fill 1 (byte 0 (0x58 + idx))
