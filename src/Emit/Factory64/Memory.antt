-- ===== src/Emit/Factory64/Memory.antt =====
-- src/X86InstructionFactory.C: class X86InstructionFactory64, operands at an absolute address.
use pebil.Common.{
  ℕ, ◌+◌, ◌*◌, ◌%◌, ◌-◌, ◌++◌, Option, List, ltb, if◌then◌else◌, ◌>>◌, ensure, Bool, ◌||◌, ◌^◌,
}
use pebil.Emit.Buffer.{byte, copy, fill, fits}

unfoldable pub emit_move_imm_to_mem : ℕ → ℕ → Option (List ℕ)
unfolding fill copy
emit_move_imm_to_mem imm addr =
    fill 11 (byte 0 0xc7 ++ byte 1 0x04 ++ byte 2 0x25 ++ copy 3 4 addr ++ copy 7 4 imm)

unfoldable pub emit_fx_save : ℕ → Option (List ℕ)
unfolding fill copy
emit_fx_save addr = fill 7 (byte 0 0x0f ++ byte 1 0xae ++ byte 2 0x05 ++ copy 3 4 addr)

unfoldable pub emit_fx_rstor : ℕ → Option (List ℕ)
unfolding fill copy
emit_fx_rstor addr = fill 7 (byte 0 0x0f ++ byte 1 0xae ++ byte 2 0x0d ++ copy 3 4 addr)

unfoldable pub emit_add_imm_to_mem : ℕ → ℕ → Option (List ℕ)
unfolding fill copy
emit_add_imm_to_mem imm addr =
    fill 12
      (byte 0 0x48 ++ byte 1 0x81 ++ byte 2 0x04 ++ byte 3 0x25 ++ copy 4 4 addr ++ copy 8 4 imm)

unfoldable pub emit_add_imm_byte_to_mem : ℕ → ℕ → Option (List ℕ)
unfolding fill copy
emit_add_imm_byte_to_mem imm addr =
    fill 9
      (byte 0 0x48 ++ byte 1 0x83 ++ byte 2 0x04 ++ byte 3 0x25 ++ copy 4 4 addr ++ copy 8 1 imm)

unfoldable pub emit_sub_imm_byte_to_mem : ℕ → ℕ → Option (List ℕ)
unfolding fill copy
emit_sub_imm_byte_to_mem imm addr =
    fill 9
      (byte 0 0x48 ++ byte 1 0x83 ++ byte 2 0x2c ++ byte 3 0x25 ++ copy 4 4 addr ++ copy 8 1 imm)

unfoldable pub emit_move_reg_to_mem : ℕ → ℕ → Option (List ℕ)
unfolding fill copy
emit_move_reg_to_mem idx addr = do
  ensure (ltb idx 16)
  ensure (fits addr)
  fill 8 (
      byte 0 (if ltb idx 8 then 0x48 else 0x4c)
      ++ byte 2 (if ltb idx 8 then 0x04 + 0x8 * idx else 0x04 + 0x8 * (idx - 8))
      ++ byte 1 0x89
      ++ byte 3 0x25
      ++ copy 4 4 addr)

unfoldable pub emit_move_mem_to_reg : ℕ → ℕ → Bool → Option (List ℕ)
unfolding fill copy
emit_move_mem_to_reg addr idx is64_bit = do
  ensure (ltb idx 16)
  ensure (is64_bit || ltb idx 8)
  ensure (fits addr)
  let baseidx = if is64_bit then 1 else 0
  fill (7 + baseidx) (
      byte 0 (if ltb idx 8 then 0x48 else 0x4c)
      ++ byte (baseidx + 1) (if ltb idx 8 then 0x04 + 0x8 * idx else 0x04 + 0x8 * (idx - 8))
      ++ byte baseidx 0x8b
      ++ byte (baseidx + 2) 0x25
      ++ copy (baseidx + 3) 4 addr)

-- `imm` is `tgt - addr - len` in 64 bits, and its low half is stored.
unfoldable pub emit_indirect_relative_jump : ℕ → ℕ → Option (List ℕ)
unfolding fill copy
emit_indirect_relative_jump addr tgt = do
  ensure (fits addr)
  ensure (fits tgt)
  fill 6 (byte 0 0xff ++ byte 1 0x25 ++ copy 2 4 ((tgt + 2 * 2 ^ 64 - addr - 6) % 2 ^ 64))
