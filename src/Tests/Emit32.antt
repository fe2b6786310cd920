-- ===== src/Tests/Emit32.antt =====
-- The emitters of X86InstructionFactory32, and those that both modes share, at concrete registers
-- and values.
use pebil.Common.{ℕ, ◌+◌, ◌%◌, ◌^◌, ◌≡◌, false, arith}
use pebil.X86.Format.{absent}
use pebil.Emit.Buffer.{Emits, EmitsBoth}
use pebil.Emit.Meaning.Shapes.{insn, at_reg, at_address}
use pebil.Emit.Factory32.Memory.{
  emit_move_imm_to_mem, emit_fx_save, emit_fx_rstor, emit_add_imm_byte_to_mem,
  emit_sub_imm_byte_to_mem, emit_load_reg_imm_reg, emit_move_regaddr_imm_to_reg,
  emit_move_reg_to_regaddr_imm,
}
use pebil.Emit.Meaning.Memory32.{at_addresses_32}
use pebil.Emit.Factory.Control.{emit_call_relative, emit_jump_relative}
use pebil.Emit.Meaning.Shared.{call_and_jump}
use pebil.Emit.Factory.Nops.{emit_nop_series, emit_nop_series}
use pebil.Tests.{reference, reference-Measures}

call_and_jump_example :
    (d : ℕ) × EmitsBoth reference (emit_call_relative 0x400000 0x3ff000) (insn 0xe8 0 absent d)
    × EmitsBoth reference (emit_jump_relative 0x400000 0x3ff000) (insn 0xe9 0 absent d)
    × ((0x400000 + 5 + d) % 2 ^ 32 ≡ 0x3ff000)
call_and_jump_example =
    call_and_jump reference-Measures 0x400000 0x3ff000 (omega arith) (omega arith)

at_addresses_32_example :
    (Emits reference false
        (emit_move_imm_to_mem 8 0x8049000)
        (insn 0xc7 0 (at_address (0x8049000 % 2 ^ 32)) (8 % 2 ^ 32))
      × Emits reference false
          (emit_add_imm_byte_to_mem 8 0x8049000)
          (insn 0x83 0 (at_address (0x8049000 % 2 ^ 32)) (8 % 2 ^ 8))
      × Emits reference false
          (emit_sub_imm_byte_to_mem 8 0x8049000)
          (insn 0x83 5 (at_address (0x8049000 % 2 ^ 32)) (8 % 2 ^ 8))
      × Emits reference false
          (emit_fx_save 0x8049000)
          (insn 0x0fae 0 (at_address (0x8049000 % 2 ^ 32)) 0)
      × Emits reference false
          (emit_fx_rstor 0x8049000)
          (insn 0x0fae 1 (at_address (0x8049000 % 2 ^ 32)) 0))
    × (Emits reference false (emit_load_reg_imm_reg 4 8 4) (insn 0x8d 4 (at_reg 4 (8 % 2 ^ 32)) 0)
        × Emits reference false
            (emit_move_regaddr_imm_to_reg 4 8 4)
            (insn 0x8b 4 (at_reg 4 (8 % 2 ^ 32)) 0)
        × Emits reference false
            (emit_move_reg_to_regaddr_imm 4 4 8)
            (insn 0x89 4 (at_reg 4 (8 % 2 ^ 32)) 0))
at_addresses_32_example =
    at_addresses_32 reference-Measures 8 0x8049000 4 4 (omega arith) (omega arith)
