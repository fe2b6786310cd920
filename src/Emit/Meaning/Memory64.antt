-- ===== src/Emit/Meaning/Memory64.antt =====
-- Operands at an absolute address, of X86InstructionFactory64.
use pebil.Common.{ℕ, ◌%◌, ◌^◌, ◌<◌, refl, true, false, tabulate}
use pebil.X86.Bytes.{le_bytes, le_value, le_value-bytes_four}
use pebil.X86.Decode.{decode}
use pebil.Emit.Buffer.{Disassembler, Measures, Emits, Emits_of_decode, Emits_of_table, fits_of_lt}
use pebil.Emit.Factory64.Memory.{
  emit_move_imm_to_mem, emit_add_imm_to_mem, emit_add_imm_byte_to_mem, emit_sub_imm_byte_to_mem,
  emit_move_reg_to_mem, emit_move_mem_to_reg,
}
use pebil.Emit.Meaning.Shapes.{wide_insn, insn, at_address}

module _ {size : Disassembler} (measures : Measures size) where
  move_imm_to_mem-Emits :
      (imm addr : ℕ)
      → Emits size true
          (emit_move_imm_to_mem imm addr)
          (insn 0xc7 0 (at_address (addr % 2 ^ 32)) (imm % 2 ^ 32))
  unfolding emit_move_imm_to_mem decode le_bytes le_value
  move_imm_to_mem-Emits imm addr =
      Emits_of_decode true (emit_move_imm_to_mem imm addr) _ measures
        (rw (← le_value-bytes_four imm, ← le_value-bytes_four addr) refl)

  add_imm_to_mem-Emits :
      (imm addr : ℕ)
      → Emits size true
          (emit_add_imm_to_mem imm addr)
          (wide_insn 0x81 0 (at_address (addr % 2 ^ 32)) (imm % 2 ^ 32))
  unfolding emit_add_imm_to_mem decode le_bytes le_value
  add_imm_to_mem-Emits imm addr =
      Emits_of_decode true (emit_add_imm_to_mem imm addr) _ measures
        (rw (← le_value-bytes_four imm, ← le_value-bytes_four addr) refl)

  add_imm_byte_to_mem-Emits :
      (imm addr : ℕ)
      → Emits size true
          (emit_add_imm_byte_to_mem imm addr)
          (wide_insn 0x83 0 (at_address (addr % 2 ^ 32)) (imm % 2 ^ 8))
  unfolding emit_add_imm_byte_to_mem decode le_bytes le_value
  add_imm_byte_to_mem-Emits imm addr =
      Emits_of_decode true (emit_add_imm_byte_to_mem imm addr) _ measures
        (rw (← le_value-bytes_four addr) refl)

  sub_imm_byte_to_mem-Emits :
      (imm addr : ℕ)
      → Emits size true
          (emit_sub_imm_byte_to_mem imm addr)
          (wide_insn 0x83 5 (at_address (addr % 2 ^ 32)) (imm % 2 ^ 8))
  unfolding emit_sub_imm_byte_to_mem decode le_bytes le_value
  sub_imm_byte_to_mem-Emits imm addr =
      Emits_of_decode true (emit_sub_imm_byte_to_mem imm addr) _ measures
        (rw (← le_value-bytes_four addr) refl)

  move_reg_to_mem-Emits :
      (addr : ℕ)
      → addr < 2 ^ 32
      → (r : ℕ) → r < 16
      → Emits size true
          (emit_move_reg_to_mem r addr)
          (wide_insn 0x89 r (at_address (addr % 2 ^ 32)) 0)
  unfolding emit_move_reg_to_mem tabulate decode le_bytes le_value
  move_reg_to_mem-Emits addr h =
      Emits_of_table true 16 _ _ measures (rw (fits_of_lt h, ← le_value-bytes_four addr) refl)

  move_mem_to_reg-Emits :
      (addr : ℕ)
      → addr < 2 ^ 32
      → (r : ℕ) → r < 16
      → Emits size true
          (emit_move_mem_to_reg addr r true)
          (wide_insn 0x8b r (at_address (addr % 2 ^ 32)) 0)
  unfolding emit_move_mem_to_reg tabulate decode le_bytes le_value
  move_mem_to_reg-Emits addr h =
      Emits_of_table true 16 _ _ measures (rw (fits_of_lt h, ← le_value-bytes_four addr) refl)

  move_mem_to_low_reg-Emits :
      (addr : ℕ)
      → addr < 2 ^ 32
      → (r : ℕ) → r < 8
      → Emits size true
          (emit_move_mem_to_reg addr r false)
          (insn 0x8b r (at_address (addr % 2 ^ 32)) 0)
  unfolding emit_move_mem_to_reg tabulate decode le_bytes le_value
  move_mem_to_low_reg-Emits addr h =
      Emits_of_table true 8 _ _ measures (rw (fits_of_lt h, ← le_value-bytes_four addr) refl)

  -- The instructions on a word in memory with an immediate: move, add, and the byte forms of add
  -- and subtract; the address and the immediate stand in them at their widths.
  immediate_to_memory :
      (imm addr : ℕ)
      → Emits size true
          (emit_move_imm_to_mem imm addr)
          (insn 0xc7 0 (at_address (addr % 2 ^ 32)) (imm % 2 ^ 32))
        × Emits size true
            (emit_add_imm_to_mem imm addr)
            (wide_insn 0x81 0 (at_address (addr % 2 ^ 32)) (imm % 2 ^ 32))
        × Emits size true
            (emit_add_imm_byte_to_mem imm addr)
            (wide_insn 0x83 0 (at_address (addr % 2 ^ 32)) (imm % 2 ^ 8))
        × Emits size true
            (emit_sub_imm_byte_to_mem imm addr)
            (wide_insn 0x83 5 (at_address (addr % 2 ^ 32)) (imm % 2 ^ 8))
  immediate_to_memory imm addr = (
    move_imm_to_mem-Emits imm addr,
    add_imm_to_mem-Emits imm addr,
    add_imm_byte_to_mem-Emits imm addr,
    sub_imm_byte_to_mem-Emits imm addr,
  )

  -- The store of a register to a 32-bit address and the load from it name the same register and the
  -- same address.
  load_and_store :
      (addr : ℕ)
      → addr < 2 ^ 32
      → (r : ℕ) → r < 16
      → Emits size true
          (emit_move_reg_to_mem r addr)
          (wide_insn 0x89 r (at_address (addr % 2 ^ 32)) 0)
        × Emits size true
            (emit_move_mem_to_reg addr r true)
            (wide_insn 0x8b r (at_address (addr % 2 ^ 32)) 0)
  load_and_store addr h r hr =
      (move_reg_to_mem-Emits addr h r hr, move_mem_to_reg-Emits addr h r hr)
