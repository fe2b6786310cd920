-- ===== src/Emit/Factory64/Moves.antt =====
-- src/X86InstructionFactory.C: class X86InstructionFactory64, moves into registers and the stack.
use pebil.Common.{
  ℕ, ◌+◌, ◌*◌, ◌%◌, ◌-◌, ◌++◌, Option, List, ltb, leb, ◌==◌, if◌then◌else◌, ◌>>◌, ensure, ◌&&◌,
}
use pebil.Emit.Buffer.{byte, copy, fill, fits}
use pebil.Emit.Factory32.Moves.{
  emit_stack_push as emit_stack_push_32, emit_stack_pop as emit_stack_pop_32,
}

unfoldable pub emit_move_tls_offset_to_reg : ℕ → ℕ → Option (List ℕ)
unfolding fill copy
emit_move_tls_offset_to_reg imm dest = do
  ensure (ltb dest 16)
  fill 9 (
      byte 0 0x64
      ++ byte 1 (0x48 + (if leb 8 dest then 0x04 else 0))
      ++ byte 2 0x8b
      ++ byte 3 (0x04 + 0x08 * (dest % 8))
      ++ byte 4 0x25
      ++ copy 5 4 imm)

unfoldable pub emit_move_thread_id_to_reg : ℕ → Option (List ℕ)
unfolding emit_move_tls_offset_to_reg
emit_move_thread_id_to_reg dest = emit_move_tls_offset_to_reg 0x10 dest

-- X86_SEGMENT_REGS is 6.
unfoldable pub emit_move_segment_reg_to_reg : ℕ → ℕ → Option (List ℕ)
unfolding fill copy
emit_move_segment_reg_to_reg src dest = do
  ensure (ltb src 6)
  ensure (ltb dest 16)
  fill 3 (
      byte 0 (if ltb dest 8 then 0x48 else 0x49)
      ++ byte 1 0x8c
      ++ byte 2 (0xc0 + 8 * src + dest % 8))

unfoldable pub emit_move_reg_to_reg : ℕ → ℕ → Option (List ℕ)
unfolding fill copy
emit_move_reg_to_reg srcreg destreg = do
  ensure (ltb srcreg 16)
  ensure (ltb destreg 16)
  fill 3 (
      byte 0 ((if ltb srcreg 8 then 0x48 else 0x4c) + (if ltb destreg 8 then 0 else 1))
      ++ byte 1 0x89
      ++ byte 2 (0xc0 + 8 * (srcreg % 8) + destreg % 8))

unfoldable pub emit_load_rip_imm_to_reg : ℕ → ℕ → Option (List ℕ)
unfolding fill copy
emit_load_rip_imm_to_reg imm destreg = do
  ensure (ltb destreg 16)
  fill 7 (
      byte 0 (if ltb destreg 8 then 0x48 else 0x4c)
      ++ byte 2 (if ltb destreg 8 then 0x05 + 8 * destreg else 0x05 + 8 * (destreg - 8))
      ++ byte 1 0x8d
      ++ copy 3 4 imm)

unfoldable pub emit_load_rip_imm_reg : ℕ → ℕ → Option (List ℕ)
unfolding fill copy
emit_load_rip_imm_reg imm idxdest = do
  ensure (ltb idxdest 16)
  let sib = if idxdest == 4 then 1 else 0
  fill (7 + sib) (
      byte 0 ((if ltb idxdest 8 then 0x48 else 0x4c) + (if ltb idxdest 8 then 0 else 1))
      ++ byte 1 0x8d
      ++ byte 2 (0x05 + 8 * (idxdest % 8))
      ++ byte 3 0x24
      ++ copy (3 + sib) 4 imm)

unfoldable pub emit_move_imm_to_reg : ℕ → ℕ → Option (List ℕ)
unfolding fill copy
emit_move_imm_to_reg imm idx = do
  ensure (ltb idx 16)
  ensure (fits imm)
  fill 7 (
      byte 0 (if ltb idx 8 then 0x48 else 0x49)
      ++ byte 1 0xc7
      ++ byte 2 (0xc0 + idx % 8)
      ++ copy 3 4 imm)

unfoldable pub emit_move_imm64_to_reg : ℕ → ℕ → Option (List ℕ)
unfolding fill copy
emit_move_imm64_to_reg imm idx = do
  ensure (ltb idx 16)
  fill 10 (byte 0 (if ltb idx 8 then 0x48 else 0x49) ++ byte 1 (0xb8 + idx % 8) ++ copy 2 8 imm)

unfoldable pub emit_stack_push_4byte : ℕ → Option (List ℕ)
unfolding fill
emit_stack_push_4byte idx = do ensure (ltb idx 8); fill 2 (byte 0 0x66 ++ byte 1 (0x50 + idx))

-- The low registers go through X86InstructionFactory32.
unfoldable pub emit_stack_push : ℕ → Option (List ℕ)
unfolding fill emit_stack_push_32
emit_stack_push idx = do
  ensure (ltb idx 16)
  if ltb idx 8 then emit_stack_push_32 idx else fill 2 (byte 0 0x41 ++ byte 1 (0x48 + idx))

unfoldable pub emit_stack_pop : ℕ → Option (List ℕ)
unfolding fill emit_stack_pop_32
emit_stack_pop idx = do
  ensure (ltb idx 16)
  if ltb idx 8 then emit_stack_pop_32 idx else fill 2 (byte 0 0x41 ++ byte 1 (0x50 + idx))

-- A register number of an XMM register is 16 to 31.
unfoldable pub emit_move_mem_to_xmm_reg : ℕ → ℕ → Option (List ℕ)
unfolding fill copy
emit_move_mem_to_xmm_reg addr idx = do
  ensure (leb 16 idx && ltb idx (16 + 16))
  ensure (fits addr)
  let next = if ltb idx (16 + 8) then 3 else 4
  fill (next + 6) (
      byte 0 0xf2
      ++ (if ltb idx (16 + 8)
          then byte 1 0x0f ++ byte 2 0x10
          else byte 1 0x44 ++ byte 2 0x0f ++ byte 3 0x10)
      ++ byte next (0x04 + 0x08 * (idx % 8))
      ++ byte (next + 1) 0x25
      ++ copy (next + 2) 4 addr)
