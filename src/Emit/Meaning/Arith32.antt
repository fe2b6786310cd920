-- ===== src/Emit/Meaning/Arith32.antt =====
-- Registers and the stack, of X86InstructionFactory32.
use pebil.Common.{ℕ, ◌%◌, ◌^◌, ◌<◌, ◌≡◌, refl, true, false, tabulate, not, ◌==◌}
use pebil.X86.Bytes.{le_bytes, le_value, le_value-bytes_four}
use pebil.X86.Format.{gpr, absent}
use pebil.X86.Decode.{decode}
use pebil.Emit.Buffer.{
  Disassembler, Measures, Emits, Emits_of_table, Emits_of_table₂, Emits_of_table_if, at_passing,
  fits_of_lt,
}
use pebil.Emit.Factory32.Moves.{
  emit_move_segment_reg_to_reg, emit_shift_right_logical, emit_shift_left_logical,
  emit_compare_imm_reg, emit_move_reg_to_reg, emit_reg_add_reg_2op_form,
  emit_reg_imm_1byte_mult_reg, emit_reg_add_imm, emit_reg_sub_imm, emit_xor_reg_reg,
  emit_stack_push, emit_stack_pop,
}
use pebil.Emit.Meaning.Shapes.{insn}

module _ {size : Disassembler} (measures : Measures size) where
  move_segment-Emits :
      (g r : ℕ)
      → g < 6
      → r < 8
      → Emits size false (emit_move_segment_reg_to_reg g r) (insn 0x8c g (gpr r) 0)
  unfolding emit_move_segment_reg_to_reg tabulate decode
  move_segment-Emits = Emits_of_table₂ false 6 8 _ _ measures refl

  move_reg-Emits :
      (r s : ℕ)
      → r < 8
      → s < 8
      → Emits size false (emit_move_reg_to_reg r s) (insn 0x89 r (gpr s) 0)
  unfolding emit_move_reg_to_reg tabulate decode
  move_reg-Emits = Emits_of_table₂ false 8 8 _ _ measures refl

  reg_add-Emits :
      (r s : ℕ)
      → r < 8
      → s < 8
      → Emits size false (emit_reg_add_reg_2op_form r s) (insn 0x01 r (gpr s) 0)
  unfolding emit_reg_add_reg_2op_form tabulate decode
  reg_add-Emits = Emits_of_table₂ false 8 8 _ _ measures refl

  reg_xor-Emits :
      (r s : ℕ) → r < 8 → s < 8 → Emits size false (emit_xor_reg_reg r s) (insn 0x31 r (gpr s) 0)
  unfolding emit_xor_reg_reg tabulate decode
  reg_xor-Emits = Emits_of_table₂ false 8 8 _ _ measures refl

  mult-Emits :
      (imm r s : ℕ)
      → r < 8
      → s < 8
      → Emits size false (emit_reg_imm_1byte_mult_reg r imm s) (insn 0x6b s (gpr r) (imm % 2 ^ 8))
  unfolding emit_reg_imm_1byte_mult_reg tabulate decode le_value
  mult-Emits imm = Emits_of_table₂ false 8 8 _ _ measures refl

  shift_right-Emits :
      (imm r : ℕ)
      → r < 8
      → Emits size false (emit_shift_right_logical imm r) (insn 0xc1 5 (gpr r) (imm % 2 ^ 8))
  unfolding emit_shift_right_logical tabulate decode le_value
  shift_right-Emits imm = Emits_of_table false 8 _ _ measures refl

  shift_left-Emits :
      (imm r : ℕ)
      → r < 8
      → Emits size false (emit_shift_left_logical imm r) (insn 0xc1 4 (gpr r) (imm % 2 ^ 8))
  unfolding emit_shift_left_logical tabulate decode le_value
  shift_left-Emits imm = Emits_of_table false 8 _ _ measures refl

  compare-Emits :
      (imm : ℕ)
      → imm < 2 ^ 32
      → (r : ℕ) → r < 8
      → Emits size false (emit_compare_imm_reg imm r) (insn 0x81 7 (gpr r) (imm % 2 ^ 32))
  unfolding emit_compare_imm_reg tabulate decode le_bytes le_value
  compare-Emits imm h =
      Emits_of_table false 8 _ _ measures (rw (fits_of_lt h, ← le_value-bytes_four imm) refl)

  add_imm-Emits :
      (imm r : ℕ)
      → r < 8
      → Emits size false (emit_reg_add_imm r imm) (insn 0x81 0 (gpr r) (imm % 2 ^ 32))
  unfolding emit_reg_add_imm tabulate decode le_bytes le_value
  add_imm-Emits imm = Emits_of_table false 8 _ _ measures (rw (← le_value-bytes_four imm) refl)

  sub_imm-Emits :
      (imm r : ℕ)
      → r < 8
      → (not (r == 0)) ≡ true
      → Emits size false (emit_reg_sub_imm r imm) (insn 0x81 5 (gpr r) (imm % 2 ^ 32))
  unfolding emit_reg_sub_imm tabulate decode le_bytes le_value at_passing
  sub_imm-Emits imm =
      Emits_of_table_if false 8 (λ r. not (r == 0)) _ _ measures
        (rw (← le_value-bytes_four imm) refl)

  push-Emits : (r : ℕ) → r < 8 → Emits size false (emit_stack_push r) (insn 0x50 r absent 0)
  unfolding emit_stack_push tabulate decode
  push-Emits = Emits_of_table false 8 _ _ measures refl

  pop-Emits : (r : ℕ) → r < 8 → Emits size false (emit_stack_pop r) (insn 0x58 r absent 0)
  unfolding emit_stack_pop tabulate decode
  pop-Emits = Emits_of_table false 8 _ _ measures refl

  -- In 32-bit mode, for two registers of eight: move, add, exclusive or and the multiplication by a
  -- byte, each with the operands in the order that the emitter's bytes give them.
  two_registers_32 :
      (imm r s : ℕ)
      → r < 8
      → s < 8
      → Emits size false (emit_move_reg_to_reg r s) (insn 0x89 r (gpr s) 0)
        × Emits size false (emit_reg_add_reg_2op_form r s) (insn 0x01 r (gpr s) 0)
        × Emits size false (emit_xor_reg_reg r s) (insn 0x31 r (gpr s) 0)
        × Emits size false (emit_reg_imm_1byte_mult_reg r imm s) (insn 0x6b s (gpr r) (imm % 2 ^ 8))
  two_registers_32 imm r s hr hs = (
    move_reg-Emits r s hr hs,
    reg_add-Emits r s hr hs,
    reg_xor-Emits r s hr hs,
    mult-Emits imm r s hr hs,
  )

  -- In 32-bit mode, for a register of eight: the shifts, the addition, the push and the pop.
  one_register_32 :
      (imm r : ℕ)
      → r < 8
      → Emits size false (emit_shift_right_logical imm r) (insn 0xc1 5 (gpr r) (imm % 2 ^ 8))
        × Emits size false (emit_shift_left_logical imm r) (insn 0xc1 4 (gpr r) (imm % 2 ^ 8))
        × Emits size false (emit_reg_add_imm r imm) (insn 0x81 0 (gpr r) (imm % 2 ^ 32))
        × Emits size false (emit_stack_push r) (insn 0x50 r absent 0)
        × Emits size false (emit_stack_pop r) (insn 0x58 r absent 0)
  one_register_32 imm r h = (
    shift_right-Emits imm r h,
    shift_left-Emits imm r h,
    add_imm-Emits imm r h,
    push-Emits r h,
    pop-Emits r h,
  )

  -- In 32-bit mode, for registers of eight: move, add, exclusive or and the multiplication by a
  -- byte, each with the operands in the order that the emitter's bytes give them; and the
  -- shifts, the addition of an immediate, the push and the pop.
  on_registers_32 :
      (imm r s : ℕ)
      → r < 8
      → s < 8
      → (Emits size false (emit_move_reg_to_reg r s) (insn 0x89 r (gpr s) 0)
          × Emits size false (emit_reg_add_reg_2op_form r s) (insn 0x01 r (gpr s) 0)
          × Emits size false (emit_xor_reg_reg r s) (insn 0x31 r (gpr s) 0)
          × Emits size false
              (emit_reg_imm_1byte_mult_reg r imm s)
              (insn 0x6b s (gpr r) (imm % 2 ^ 8)))
        × (Emits size false (emit_shift_right_logical imm r) (insn 0xc1 5 (gpr r) (imm % 2 ^ 8))
            × Emits size false (emit_shift_left_logical imm r) (insn 0xc1 4 (gpr r) (imm % 2 ^ 8))
            × Emits size false (emit_reg_add_imm r imm) (insn 0x81 0 (gpr r) (imm % 2 ^ 32))
            × Emits size false (emit_stack_push r) (insn 0x50 r absent 0)
            × Emits size false (emit_stack_pop r) (insn 0x58 r absent 0))
  on_registers_32 imm r s hr hs = (two_registers_32 imm r s hr hs, one_register_32 imm r hr)
