-- ===== src/Emit/Meaning/Memory32.antt =====
-- Operands in memory, of X86InstructionFactory32.
use pebil.Common.{
  ℕ, ◌%◌, ◌^◌, ◌<◌, ◌≡◌, refl, true, false, tabulate, not, ◌==◌, if◌then◌else◌, ◌&&◌,
}
use pebil.X86.Bytes.{le_bytes, le_value, le_value-bytes_four}
use pebil.X86.Format.{absent}
use pebil.X86.Decode.{decode}
use pebil.Emit.Buffer.{
  Disassembler, Measures, Emits, Emits_of_decode, Emits_of_table, Emits_of_table₂,
  Emits_of_table₂_if, at_passing, fits_of_lt,
}
use pebil.Emit.Factory32.Memory.{
  emit_move_imm_to_mem, emit_fx_save, emit_fx_rstor, emit_exchange_mem_reg,
  emit_add_imm_byte_to_mem, emit_sub_imm_byte_to_mem, emit_move_reg_to_mem, emit_move_mem_to_reg,
  emit_load_reg_imm_reg, emit_move_regaddr_imm_to_reg, emit_move_regaddr_to_reg,
  emit_move_reg_to_regaddr_imm, emit_jump_indirect,
}
use pebil.Emit.Meaning.Shapes.{insn, at_reg, at_address}

module _ {size : Disassembler} (measures : Measures size) where
  move_imm_to_mem-Emits :
      (imm addr : ℕ)
      → Emits size false
          (emit_move_imm_to_mem imm addr)
          (insn 0xc7 0 (at_address (addr % 2 ^ 32)) (imm % 2 ^ 32))
  unfolding emit_move_imm_to_mem decode le_bytes le_value
  move_imm_to_mem-Emits imm addr =
      Emits_of_decode false (emit_move_imm_to_mem imm addr) _ measures
        (rw (← le_value-bytes_four imm, ← le_value-bytes_four addr) refl)

  fx_save-Emits :
      (addr : ℕ)
      → Emits size false (emit_fx_save addr) (insn 0x0fae 0 (at_address (addr % 2 ^ 32)) 0)
  unfolding emit_fx_save decode le_bytes le_value
  fx_save-Emits addr =
      Emits_of_decode false (emit_fx_save addr) _ measures (rw (← le_value-bytes_four addr) refl)

  fx_rstor-Emits :
      (addr : ℕ)
      → Emits size false (emit_fx_rstor addr) (insn 0x0fae 1 (at_address (addr % 2 ^ 32)) 0)
  unfolding emit_fx_rstor decode le_bytes le_value
  fx_rstor-Emits addr =
      Emits_of_decode false (emit_fx_rstor addr) _ measures (rw (← le_value-bytes_four addr) refl)

  add_imm_byte_to_mem-Emits :
      (imm addr : ℕ)
      → Emits size false
          (emit_add_imm_byte_to_mem imm addr)
          (insn 0x83 0 (at_address (addr % 2 ^ 32)) (imm % 2 ^ 8))
  unfolding emit_add_imm_byte_to_mem decode le_bytes le_value
  add_imm_byte_to_mem-Emits imm addr =
      Emits_of_decode false (emit_add_imm_byte_to_mem imm addr) _ measures
        (rw (← le_value-bytes_four addr) refl)

  sub_imm_byte_to_mem-Emits :
      (imm addr : ℕ)
      → Emits size false
          (emit_sub_imm_byte_to_mem imm addr)
          (insn 0x83 5 (at_address (addr % 2 ^ 32)) (imm % 2 ^ 8))
  unfolding emit_sub_imm_byte_to_mem decode le_bytes le_value
  sub_imm_byte_to_mem-Emits imm addr =
      Emits_of_decode false (emit_sub_imm_byte_to_mem imm addr) _ measures
        (rw (← le_value-bytes_four addr) refl)

  exchange-Emits :
      (addr r : ℕ)
      → r < 8
      → Emits size false (emit_exchange_mem_reg addr r) (insn 0x87 r (at_address (addr % 2 ^ 32)) 0)
  unfolding emit_exchange_mem_reg tabulate decode le_bytes le_value
  exchange-Emits addr = Emits_of_table false 8 _ _ measures (rw (← le_value-bytes_four addr) refl)

  -- EAX has opcodes of its own, with the address for immediate.
  move_reg_to_mem-Emits :
      (addr : ℕ)
      → addr < 2 ^ 32
      → (r : ℕ) → r < 8
      → Emits size false (emit_move_reg_to_mem r addr) (
          if r == 0
          then insn 0xa3 0 absent (addr % 2 ^ 32)
          else insn 0x89 r (at_address (addr % 2 ^ 32)) 0)
  unfolding emit_move_reg_to_mem tabulate decode le_bytes le_value
  move_reg_to_mem-Emits addr h =
      Emits_of_table false 8 _ _ measures (rw (fits_of_lt h, ← le_value-bytes_four addr) refl)

  move_mem_to_reg-Emits :
      (addr : ℕ)
      → addr < 2 ^ 32
      → (r : ℕ) → r < 8
      → Emits size false (emit_move_mem_to_reg addr r) (
          if r == 0
          then insn 0xa1 0 absent (addr % 2 ^ 32)
          else insn 0x8b r (at_address (addr % 2 ^ 32)) 0)
  unfolding emit_move_mem_to_reg tabulate decode le_bytes le_value
  move_mem_to_reg-Emits addr h =
      Emits_of_table false 8 _ _ measures (rw (fits_of_lt h, ← le_value-bytes_four addr) refl)

  load_reg_imm-Emits :
      (imm r s : ℕ)
      → r < 8
      → s < 8
      → Emits size false (emit_load_reg_imm_reg r imm s) (insn 0x8d r (at_reg s (imm % 2 ^ 32)) 0)
  unfolding emit_load_reg_imm_reg tabulate decode le_bytes le_value
  load_reg_imm-Emits imm =
      Emits_of_table₂ false 8 8 _ _ measures (rw (← le_value-bytes_four imm) refl)

  move_to_reg-Emits :
      (imm r s : ℕ)
      → r < 8
      → s < 8
      → Emits size false
          (emit_move_regaddr_imm_to_reg r imm s)
          (insn 0x8b s (at_reg r (imm % 2 ^ 32)) 0)
  unfolding emit_move_regaddr_imm_to_reg tabulate decode le_bytes le_value
  move_to_reg-Emits imm =
      Emits_of_table₂ false 8 8 _ _ measures (rw (← le_value-bytes_four imm) refl)

  move_from_reg-Emits :
      (imm r s : ℕ)
      → r < 8
      → s < 8
      → Emits size false
          (emit_move_reg_to_regaddr_imm r s imm)
          (insn 0x89 r (at_reg s (imm % 2 ^ 32)) 0)
  unfolding emit_move_reg_to_regaddr_imm tabulate decode le_bytes le_value
  move_from_reg-Emits imm =
      Emits_of_table₂ false 8 8 _ _ measures (rw (← le_value-bytes_four imm) refl)

  -- ESP would need a SIB byte, and EBP a displacement; the emitter has neither.
  move_regaddr-Emits :
      (s r : ℕ)
      → s < 8
      → r < 8
      → (not (s == 4) && not (s == 5)) ≡ true
      → Emits size false (emit_move_regaddr_to_reg s r) (insn 0x8b r (at_reg s 0) 0)
  unfolding emit_move_regaddr_to_reg tabulate decode at_passing
  move_regaddr-Emits =
      Emits_of_table₂_if false 8 8 (λ s r. not (s == 4) && not (s == 5)) _ _ measures refl

  jump_indirect-Emits :
      (tgt : ℕ)
      → tgt < 2 ^ 32
      → Emits size false (emit_jump_indirect tgt) (insn 0xff 4 (at_address (tgt % 2 ^ 32)) 0)
  unfolding emit_jump_indirect decode le_bytes le_value
  jump_indirect-Emits tgt h =
      Emits_of_decode false (emit_jump_indirect tgt) _ measures
        (rw (fits_of_lt h, ← le_value-bytes_four tgt) refl)

  -- In 32-bit mode, the instructions on an absolute address: the move of an immediate, the byte
  -- forms of add and subtract, and the save and the restore of the floating-point state.
  at_absolute_address_32 :
      (imm addr : ℕ)
      → Emits size false
          (emit_move_imm_to_mem imm addr)
          (insn 0xc7 0 (at_address (addr % 2 ^ 32)) (imm % 2 ^ 32))
        × Emits size false
            (emit_add_imm_byte_to_mem imm addr)
            (insn 0x83 0 (at_address (addr % 2 ^ 32)) (imm % 2 ^ 8))
        × Emits size false
            (emit_sub_imm_byte_to_mem imm addr)
            (insn 0x83 5 (at_address (addr % 2 ^ 32)) (imm % 2 ^ 8))
        × Emits size false (emit_fx_save addr) (insn 0x0fae 0 (at_address (addr % 2 ^ 32)) 0)
        × Emits size false (emit_fx_rstor addr) (insn 0x0fae 1 (at_address (addr % 2 ^ 32)) 0)
  at_absolute_address_32 imm addr = (
    move_imm_to_mem-Emits imm addr,
    add_imm_byte_to_mem-Emits imm addr,
    sub_imm_byte_to_mem-Emits imm addr,
    fx_save-Emits addr,
    fx_rstor-Emits addr,
  )

  -- In 32-bit mode, the load and the store of a register at an address; EAX takes the short opcodes
  -- of its own, whose immediate is the address.
  load_and_store_32 :
      (addr : ℕ)
      → addr < 2 ^ 32
      → (r : ℕ) → r < 8
      → Emits size false (emit_move_reg_to_mem r addr) (
          if r == 0
          then insn 0xa3 0 absent (addr % 2 ^ 32)
          else insn 0x89 r (at_address (addr % 2 ^ 32)) 0)
        × Emits size false (emit_move_mem_to_reg addr r) (
            if r == 0
            then insn 0xa1 0 absent (addr % 2 ^ 32)
            else insn 0x8b r (at_address (addr % 2 ^ 32)) 0)
  load_and_store_32 addr h r hr =
      (move_reg_to_mem-Emits addr h r hr, move_mem_to_reg-Emits addr h r hr)

  -- In 32-bit mode, through an address register and a displacement, for any two registers of eight:
  -- the load of the address, the load and the store.
  through_register_32 :
      (imm r s : ℕ)
      → r < 8
      → s < 8
      → Emits size false (emit_load_reg_imm_reg r imm s) (insn 0x8d r (at_reg s (imm % 2 ^ 32)) 0)
        × Emits size false
            (emit_move_regaddr_imm_to_reg r imm s)
            (insn 0x8b s (at_reg r (imm % 2 ^ 32)) 0)
        × Emits size false
            (emit_move_reg_to_regaddr_imm r s imm)
            (insn 0x89 r (at_reg s (imm % 2 ^ 32)) 0)
  through_register_32 imm r s hr hs = (
    load_reg_imm-Emits imm r s hr hs,
    move_to_reg-Emits imm r s hr hs,
    move_from_reg-Emits imm r s hr hs,
  )

  -- In 32-bit mode, the load through a register with no displacement, for every address register
  -- but ESP and EBP.
  load_bare_32 :
      (s r : ℕ)
      → s < 8
      → r < 8
      → (not (s == 4) && not (s == 5)) ≡ true
      → Emits size false (emit_move_regaddr_to_reg s r) (insn 0x8b r (at_reg s 0) 0)
  load_bare_32 = move_regaddr-Emits

  -- For a disassembler that measures instructions, in 32-bit mode: at an absolute address: the move of an immediate, the byte forms of add and
  -- subtract, the save and the restore of the floating-point state; and through an address
  -- register and a displacement, for any two registers of eight: the load of the address, the
  -- load and the store. The registers are those given; of the address
  -- and of the immediate the instruction holds the low 32 bits, or 8 in the byte forms.
  pub at_addresses_32 :
      (imm addr r s : ℕ)
      → r < 8
      → s < 8
      → (Emits size false
            (emit_move_imm_to_mem imm addr)
            (insn 0xc7 0 (at_address (addr % 2 ^ 32)) (imm % 2 ^ 32))
          × Emits size false
              (emit_add_imm_byte_to_mem imm addr)
              (insn 0x83 0 (at_address (addr % 2 ^ 32)) (imm % 2 ^ 8))
          × Emits size false
              (emit_sub_imm_byte_to_mem imm addr)
              (insn 0x83 5 (at_address (addr % 2 ^ 32)) (imm % 2 ^ 8))
          × Emits size false (emit_fx_save addr) (insn 0x0fae 0 (at_address (addr % 2 ^ 32)) 0)
          × Emits size false (emit_fx_rstor addr) (insn 0x0fae 1 (at_address (addr % 2 ^ 32)) 0))
        × (Emits size false
              (emit_load_reg_imm_reg r imm s)
              (insn 0x8d r (at_reg s (imm % 2 ^ 32)) 0)
            × Emits size false
                (emit_move_regaddr_imm_to_reg r imm s)
                (insn 0x8b s (at_reg r (imm % 2 ^ 32)) 0)
            × Emits size false
                (emit_move_reg_to_regaddr_imm r s imm)
                (insn 0x89 r (at_reg s (imm % 2 ^ 32)) 0))
  at_addresses_32 imm addr r s hr hs =
      (at_absolute_address_32 imm addr, through_register_32 imm r s hr hs)
