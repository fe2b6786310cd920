-- ===== src/Tests/Emit64.antt =====
-- The emitters of X86InstructionFactory64 at concrete registers and values.
use pebil.Common.{◌%◌, ◌^◌, refl, true, false, none, some, [], ◌∷◌, arith, ◌==◌, if◌then◌else◌}
use pebil.X86.Format.{gpr, mem}
use pebil.Emit.Buffer.{Emits}
use pebil.Emit.Factory64.Arith.{emit_reg_sub_imm_4byte, emit_reg_add_imm_4byte}
use pebil.Emit.Meaning.Shapes.{wide_insn, prefixed, at_reg, insn}
use pebil.Emit.Meaning.Arith64.{add_and_subtract}
use pebil.Emit.Factory64.Indirect.{
  emit_add_imm_to_regaddr_imm, emit_add_imm_byte_to_regaddr_imm, emit_move_imm_to_regaddr_imm,
  emit_move_regaddr_imm_to_reg, emit_move_reg_to_regaddr_imm, emit_move_reg_to_regaddr,
  emit_move_regaddr_to_reg,
}
use pebil.Emit.Meaning.Indirect64.{at_bare_reg, through_address_register}
use pebil.Emit.Factory64.Lea.{emit_load_effective_address}
use pebil.Emit.Meaning.Lea64.{with_index, at_base_index, lea_indexed-Emits}
use pebil.Tests.{reference, reference-Measures}

add_and_subtract_example :
    Emits reference true (emit_reg_add_imm_4byte 11 16) (wide_insn 0x81 0 (gpr 11) (16 % 2 ^ 32))
    × Emits reference true
        (emit_reg_sub_imm_4byte 11 16)
        (wide_insn 0x81 5 (gpr (11 % 8)) (16 % 2 ^ 32))
add_and_subtract_example = add_and_subtract reference-Measures 16 11 (omega arith) refl

lea_indexed-Emits_example :
    Emits reference true (emit_load_effective_address 86 (with_index 13 9 (2 ^ 2) true 0) 0) (
      wide_insn 0x8d 0
        (if true
          then (if 0 == 0
              then at_base_index 13 9 (2 ^ 2)
              else mem (some 13) (some (9, 2 ^ 2)) (0 % 2 ^ 32))
          else mem none (some (9, 2 ^ 2)) (0 % 2 ^ 32))
        0)
lea_indexed-Emits_example =
    lea_indexed-Emits reference-Measures 86 13 9 2 0 0 true (omega arith) (omega arith)
      (omega arith) refl (omega arith)

through_address_register_example :
    (Emits reference true
        (emit_move_regaddr_imm_to_reg 4 24 12)
        (wide_insn 0x8b 12 (at_reg 4 (24 % 2 ^ 32)) 0)
      × Emits reference true
          (emit_move_reg_to_regaddr_imm 4 12 24 false)
          (prefixed [] false 0x89 4 (at_reg 12 (24 % 2 ^ 32)) 0)
      × Emits reference true (emit_move_reg_to_regaddr 4 12) (wide_insn 0x89 4 (at_bare_reg 12) 0)
      × Emits reference true (emit_move_regaddr_to_reg 12 4) (wide_insn 0x8b 4 (at_bare_reg 12) 0))
    × (Emits reference true
          (emit_move_imm_to_regaddr_imm 7 4 24)
          (prefixed (0x67 ∷ []) true 0xc7 0 (at_reg 4 (24 % 2 ^ 32)) (7 % 2 ^ 32))
        × Emits reference true
            (emit_add_imm_to_regaddr_imm 7 4 24)
            (insn 0x81 0 (at_reg 4 (24 % 2 ^ 32)) (7 % 2 ^ 32))
        × Emits reference true
            (emit_add_imm_byte_to_regaddr_imm 7 4 24)
            (insn 0x83 0 (at_reg 4 (24 % 2 ^ 32)) (7 % 2 ^ 8)))
through_address_register_example =
    through_address_register reference-Measures 24 7 false 4 12 (omega arith) (omega arith)
