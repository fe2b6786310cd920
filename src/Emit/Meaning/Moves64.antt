-- ===== src/Emit/Meaning/Moves64.antt =====
-- Moves into registers, and the stack, of X86InstructionFactory64.
use pebil.Common.{ℕ, ◌+◌, ◌%◌, ◌^◌, ◌<◌, ◌≡◌, refl, true, false, [], ◌∷◌, tabulate, not, ◌==◌}
use pebil.X86.Bytes.{le_bytes, le_value, le_value-bytes_four, le_value-bytes_eight}
use pebil.X86.Format.{gpr, absent, rip}
use pebil.X86.Decode.{decode}
use pebil.Emit.Buffer.{
  Disassembler, Measures, Emits, Emits_of_table, Emits_of_table₂, Emits_of_table_if, at_passing,
  fits_of_lt,
}
use pebil.Emit.Factory64.Moves.{
  emit_move_tls_offset_to_reg, emit_move_segment_reg_to_reg, emit_move_reg_to_reg,
  emit_load_rip_imm_to_reg, emit_load_rip_imm_reg, emit_move_imm_to_reg, emit_move_imm64_to_reg,
  emit_stack_push_4byte, emit_stack_push, emit_stack_pop, emit_move_mem_to_xmm_reg,
}
use pebil.Emit.Meaning.Shapes.{wide_insn, insn, prefixed, at_address}

module _ {size : Disassembler} (measures : Measures size) where
  move_tls-Emits :
      (imm r : ℕ)
      → r < 16
      → Emits size true
          (emit_move_tls_offset_to_reg imm r)
          (prefixed (0x64 ∷ []) true 0x8b r (at_address (imm % 2 ^ 32)) 0)
  unfolding emit_move_tls_offset_to_reg tabulate decode le_bytes le_value
  move_tls-Emits imm = Emits_of_table true 16 _ _ measures (rw (← le_value-bytes_four imm) refl)

  move_segment-Emits :
      (g r : ℕ)
      → g < 6
      → r < 16
      → Emits size true (emit_move_segment_reg_to_reg g r) (wide_insn 0x8c g (gpr r) 0)
  unfolding emit_move_segment_reg_to_reg tabulate decode le_bytes le_value
  move_segment-Emits = Emits_of_table₂ true 6 16 _ _ measures refl

  move_reg-Emits :
      (r s : ℕ)
      → r < 16
      → s < 16
      → Emits size true (emit_move_reg_to_reg r s) (wide_insn 0x89 r (gpr s) 0)
  unfolding emit_move_reg_to_reg tabulate decode le_bytes le_value
  move_reg-Emits = Emits_of_table₂ true 16 16 _ _ measures refl

  load_rip-Emits :
      (imm r : ℕ)
      → r < 16
      → Emits size true (emit_load_rip_imm_to_reg imm r) (wide_insn 0x8d r (rip (imm % 2 ^ 32)) 0)
  unfolding emit_load_rip_imm_to_reg tabulate decode le_bytes le_value
  load_rip-Emits imm = Emits_of_table true 16 _ _ measures (rw (← le_value-bytes_four imm) refl)

  load_rip_imm-Emits :
      (imm r : ℕ)
      → r < 16
      → (not (r == 4)) ≡ true
      → Emits size true (emit_load_rip_imm_reg imm r) (wide_insn 0x8d r (rip (imm % 2 ^ 32)) 0)
  unfolding emit_load_rip_imm_reg tabulate decode le_bytes le_value at_passing
  load_rip_imm-Emits imm =
      Emits_of_table_if true 16 (λ r. not (r == 4)) _ _ measures
        (rw (← le_value-bytes_four imm) refl)

  move_imm-Emits :
      (imm : ℕ)
      → imm < 2 ^ 32
      → (r : ℕ) → r < 16
      → Emits size true (emit_move_imm_to_reg imm r) (wide_insn 0xc7 0 (gpr r) (imm % 2 ^ 32))
  unfolding emit_move_imm_to_reg tabulate decode le_bytes le_value
  move_imm-Emits imm h =
      Emits_of_table true 16 _ _ measures (rw (fits_of_lt h, ← le_value-bytes_four imm) refl)

  move_imm64-Emits :
      (imm r : ℕ)
      → r < 16
      → Emits size true (emit_move_imm64_to_reg imm r) (wide_insn 0xb8 r absent (imm % 2 ^ 64))
  unfolding emit_move_imm64_to_reg tabulate decode le_bytes le_value
  move_imm64-Emits imm = Emits_of_table true 16 _ _ measures (rw (← le_value-bytes_eight imm) refl)

  push_4byte-Emits :
      (r : ℕ)
      → r < 8
      → Emits size true (emit_stack_push_4byte r) (prefixed (0x66 ∷ []) false 0x50 r absent 0)
  unfolding emit_stack_push_4byte tabulate decode
  push_4byte-Emits = Emits_of_table true 8 _ _ measures refl

  push-Emits : (r : ℕ) → r < 16 → Emits size true (emit_stack_push r) (insn 0x50 r absent 0)
  unfolding emit_stack_push tabulate decode
  push-Emits = Emits_of_table true 16 _ _ measures refl

  pop-Emits : (r : ℕ) → r < 16 → Emits size true (emit_stack_pop r) (insn 0x58 r absent 0)
  unfolding emit_stack_pop tabulate decode
  pop-Emits = Emits_of_table true 16 _ _ measures refl

  -- The register number of an XMM register is 16 more than its number in the instruction.
  move_xmm-Emits :
      (addr : ℕ)
      → addr < 2 ^ 32
      → (r : ℕ) → r < 16
      → Emits size true
          (emit_move_mem_to_xmm_reg addr (16 + r))
          (prefixed (0xf2 ∷ []) false 0x0f10 r (at_address (addr % 2 ^ 32)) 0)
  unfolding emit_move_mem_to_xmm_reg tabulate decode le_bytes le_value
  move_xmm-Emits addr h =
      Emits_of_table true 16 _ _ measures (rw (fits_of_lt h, ← le_value-bytes_four addr) refl)

  -- For registers of sixteen, the moves between registers, the move from a segment register, the
  -- push and the pop are of exactly the registers given.
  moves_and_stack :
      (g r s : ℕ)
      → g < 6
      → r < 16
      → s < 16
      → Emits size true (emit_move_reg_to_reg r s) (wide_insn 0x89 r (gpr s) 0)
        × Emits size true (emit_move_segment_reg_to_reg g r) (wide_insn 0x8c g (gpr r) 0)
        × Emits size true (emit_stack_push r) (insn 0x50 r absent 0)
        × Emits size true (emit_stack_pop r) (insn 0x58 r absent 0)
  moves_and_stack g r s hg hr hs =
      (move_reg-Emits r s hr hs, move_segment-Emits g r hg hr, push-Emits r hr, pop-Emits r hr)

  -- Loads of a register from a thread-local offset, of an address relative to the instruction
  -- pointer, and of a 64-bit immediate hold the value given, cut to the width of the field.
  loads :
      (imm r : ℕ)
      → r < 16
      → Emits size true
          (emit_move_tls_offset_to_reg imm r)
          (prefixed (0x64 ∷ []) true 0x8b r (at_address (imm % 2 ^ 32)) 0)
        × Emits size true (emit_load_rip_imm_to_reg imm r) (wide_insn 0x8d r (rip (imm % 2 ^ 32)) 0)
        × Emits size true (emit_move_imm64_to_reg imm r) (wide_insn 0xb8 r absent (imm % 2 ^ 64))
  loads imm r h = (move_tls-Emits imm r h, load_rip-Emits imm r h, move_imm64-Emits imm r h)

  -- For registers of sixteen and a segment register of six, the move between registers, the move
  -- from a segment register, the push and the pop are of exactly the registers given; loads of a
  -- register from a thread-local offset, of an address relative to the instruction pointer, and
  -- of a 64-bit immediate hold the value given, cut to the width of the field.
  into_registers :
      (imm g r s : ℕ)
      → g < 6
      → r < 16
      → s < 16
      → (Emits size true (emit_move_reg_to_reg r s) (wide_insn 0x89 r (gpr s) 0)
          × Emits size true (emit_move_segment_reg_to_reg g r) (wide_insn 0x8c g (gpr r) 0)
          × Emits size true (emit_stack_push r) (insn 0x50 r absent 0)
          × Emits size true (emit_stack_pop r) (insn 0x58 r absent 0))
        × (Emits size true
              (emit_move_tls_offset_to_reg imm r)
              (prefixed (0x64 ∷ []) true 0x8b r (at_address (imm % 2 ^ 32)) 0)
            × Emits size true
                (emit_load_rip_imm_to_reg imm r)
                (wide_insn 0x8d r (rip (imm % 2 ^ 32)) 0)
            × Emits size true
                (emit_move_imm64_to_reg imm r)
                (wide_insn 0xb8 r absent (imm % 2 ^ 64)))
  into_registers imm g r s hg hr hs = (moves_and_stack g r s hg hr hs, loads imm r hr)
