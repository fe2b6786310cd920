-- ===== src/Emit/Meaning/Indirect64.antt =====
-- Operands at an address in a register, of X86InstructionFactory64.
use pebil.Common.{
  ℕ, ◌%◌, ◌^◌, ◌<◌, ◌≡◌, refl, Bool, true, false, some, none, [], ◌∷◌, tabulate, not, ◌==◌,
  if◌then◌else◌,
}
use pebil.X86.Bytes.{le_bytes, le_value, le_value-bytes_four}
use pebil.X86.Format.{Operand, mem_byte}
use pebil.X86.Decode.{decode}
use pebil.Emit.Buffer.{
  Disassembler, Measures, Emits, Emits_of_table, Emits_of_table₂, Emits_of_table_if,
  Emits_of_table₂_if, at_passing,
}
use pebil.Emit.Factory64.Indirect.{
  emit_add_imm_to_regaddr_imm, emit_add_imm_byte_to_regaddr_imm, emit_fx_save_reg,
  emit_fx_rstor_reg, emit_load_reg_imm_reg, emit_move_imm_to_regaddr_imm,
  emit_move_regaddr_imm_to_reg, emit_move_reg_to_regaddr_imm, emit_move_reg_to_regaddr_imm_1byte,
  emit_move_reg_to_regaddr_imm_4byte, emit_move_reg_to_regaddr, emit_move_regaddr_to_reg,
}
use pebil.Emit.Meaning.Shapes.{wide_insn, insn, prefixed, at_reg}

-- An address with no displacement. Behind RBP and R13 the format has no such form, and a
-- displacement byte of 0 stands there.
abbrev pub at_bare_reg : ℕ → Operand
at_bare_reg r = if r % 8 == 5 then mem_byte (some r) none 0 else at_reg r 0

module _ {size : Disassembler} (measures : Measures size) where
  add_imm-Emits :
      (b imm r : ℕ)
      → r < 16
      → Emits size true
          (emit_add_imm_to_regaddr_imm b r imm)
          (insn 0x81 0 (at_reg r (imm % 2 ^ 32)) (b % 2 ^ 32))
  unfolding emit_add_imm_to_regaddr_imm tabulate decode le_bytes le_value
  add_imm-Emits b imm =
      Emits_of_table true 16 _ _ measures
        (rw (← le_value-bytes_four imm, ← le_value-bytes_four b) refl)

  add_imm_byte-Emits :
      (b imm r : ℕ)
      → r < 16
      → Emits size true
          (emit_add_imm_byte_to_regaddr_imm b r imm)
          (insn 0x83 0 (at_reg r (imm % 2 ^ 32)) (b % 2 ^ 8))
  unfolding emit_add_imm_byte_to_regaddr_imm tabulate decode le_bytes le_value
  add_imm_byte-Emits b imm =
      Emits_of_table true 16 _ _ measures (rw (← le_value-bytes_four imm) refl)

  fx_save-Emits :
      (r : ℕ)
      → r < 16
      → (not (r % 8 == 5)) ≡ true
      → Emits size true (emit_fx_save_reg r) (insn 0x0fae 0 (at_reg r 0) 0)
  unfolding emit_fx_save_reg tabulate decode at_passing
  fx_save-Emits = Emits_of_table_if true 16 (λ r. not (r % 8 == 5)) _ _ measures refl

  fx_rstor-Emits :
      (r : ℕ)
      → r < 16
      → (not (r % 8 == 5)) ≡ true
      → Emits size true (emit_fx_rstor_reg r) (insn 0x0fae 1 (at_reg r 0) 0)
  unfolding emit_fx_rstor_reg tabulate decode at_passing
  fx_rstor-Emits = Emits_of_table_if true 16 (λ r. not (r % 8 == 5)) _ _ measures refl

  load_reg_imm-Emits :
      (imm r s : ℕ)
      → r < 16
      → s < 16
      → (not (s == 12)) ≡ true
      → Emits size true
          (emit_load_reg_imm_reg r imm s)
          (wide_insn 0x8d r (at_reg s (imm % 2 ^ 32)) 0)
  unfolding emit_load_reg_imm_reg tabulate decode le_bytes le_value at_passing
  load_reg_imm-Emits imm =
      Emits_of_table₂_if true 16 16 (λ r s. not (s == 12)) _ _ measures
        (rw (← le_value-bytes_four imm) refl)

  move_imm-Emits :
      (val off r : ℕ)
      → r < 16
      → Emits size true
          (emit_move_imm_to_regaddr_imm val r off)
          (prefixed (0x67 ∷ []) true 0xc7 0 (at_reg r (off % 2 ^ 32)) (val % 2 ^ 32))
  unfolding emit_move_imm_to_regaddr_imm tabulate decode le_bytes le_value
  move_imm-Emits val off =
      Emits_of_table true 16 _ _ measures
        (rw (← le_value-bytes_four val, ← le_value-bytes_four off) refl)

  move_to_reg-Emits :
      (imm r s : ℕ)
      → r < 16
      → s < 16
      → Emits size true
          (emit_move_regaddr_imm_to_reg r imm s)
          (wide_insn 0x8b s (at_reg r (imm % 2 ^ 32)) 0)
  unfolding emit_move_regaddr_imm_to_reg tabulate decode le_bytes le_value
  move_to_reg-Emits imm =
      Emits_of_table₂ true 16 16 _ _ measures (rw (← le_value-bytes_four imm) refl)

  move_from_reg-Emits :
      (imm : ℕ) (full : Bool) (r s : ℕ)
      → r < 16
      → s < 16
      → Emits size true
          (emit_move_reg_to_regaddr_imm r s imm full)
          (prefixed [] full 0x89 r (at_reg s (imm % 2 ^ 32)) 0)
  unfolding emit_move_reg_to_regaddr_imm tabulate decode le_bytes le_value
  move_from_reg-Emits imm true =
      Emits_of_table₂ true 16 16 _ _ measures (rw (← le_value-bytes_four imm) refl)
  move_from_reg-Emits imm false =
      Emits_of_table₂ true 16 16 _ _ measures (rw (← le_value-bytes_four imm) refl)

  move_1byte-Emits :
      (imm r s : ℕ)
      → r < 8
      → s < 8
      → Emits size true
          (emit_move_reg_to_regaddr_imm_1byte r s imm)
          (wide_insn 0x89 r (mem_byte (some s) none (imm % 2 ^ 8)) 0)
  unfolding emit_move_reg_to_regaddr_imm_1byte tabulate decode le_bytes le_value
  move_1byte-Emits imm = Emits_of_table₂ true 8 8 _ _ measures refl

  move_4byte-Emits :
      (imm r s : ℕ)
      → r < 8
      → s < 8
      → Emits size true
          (emit_move_reg_to_regaddr_imm_4byte r s imm)
          (wide_insn 0x89 r (at_reg s (imm % 2 ^ 32)) 0)
  unfolding emit_move_reg_to_regaddr_imm_4byte tabulate decode le_bytes le_value
  move_4byte-Emits imm = Emits_of_table₂ true 8 8 _ _ measures (rw (← le_value-bytes_four imm) refl)

  move_to_regaddr-Emits :
      (r s : ℕ)
      → r < 16
      → s < 16
      → Emits size true (emit_move_reg_to_regaddr r s) (wide_insn 0x89 r (at_bare_reg s) 0)
  unfolding emit_move_reg_to_regaddr tabulate decode
  move_to_regaddr-Emits = Emits_of_table₂ true 16 16 _ _ measures refl

  move_from_regaddr-Emits :
      (s r : ℕ)
      → s < 16
      → r < 16
      → Emits size true (emit_move_regaddr_to_reg s r) (wide_insn 0x8b r (at_bare_reg s) 0)
  unfolding emit_move_regaddr_to_reg tabulate decode
  move_from_regaddr-Emits = Emits_of_table₂ true 16 16 _ _ measures refl

  -- Stores and loads through an address register and a 32-bit displacement, for any two registers
  -- of sixteen; RSP and R12 get the extra byte that they need as an address.
  through_register :
      (imm : ℕ) (full : Bool) (r s : ℕ)
      → r < 16
      → s < 16
      → Emits size true
          (emit_move_regaddr_imm_to_reg r imm s)
          (wide_insn 0x8b s (at_reg r (imm % 2 ^ 32)) 0)
        × Emits size true
            (emit_move_reg_to_regaddr_imm r s imm full)
            (prefixed [] full 0x89 r (at_reg s (imm % 2 ^ 32)) 0)
        × Emits size true (emit_move_reg_to_regaddr r s) (wide_insn 0x89 r (at_bare_reg s) 0)
        × Emits size true (emit_move_regaddr_to_reg s r) (wide_insn 0x8b r (at_bare_reg s) 0)
  through_register imm full r s hr hs = (
    move_to_reg-Emits imm r s hr hs,
    move_from_reg-Emits imm full r s hr hs,
    move_to_regaddr-Emits r s hr hs,
    move_from_regaddr-Emits s r hs hr,
  )

  -- Moves and additions of an immediate to the place that a register and a displacement name.
  immediate_through_register :
      (val off r : ℕ)
      → r < 16
      → Emits size true
          (emit_move_imm_to_regaddr_imm val r off)
          (prefixed (0x67 ∷ []) true 0xc7 0 (at_reg r (off % 2 ^ 32)) (val % 2 ^ 32))
        × Emits size true
            (emit_add_imm_to_regaddr_imm val r off)
            (insn 0x81 0 (at_reg r (off % 2 ^ 32)) (val % 2 ^ 32))
        × Emits size true
            (emit_add_imm_byte_to_regaddr_imm val r off)
            (insn 0x83 0 (at_reg r (off % 2 ^ 32)) (val % 2 ^ 8))
  immediate_through_register val off r h =
      (move_imm-Emits val off r h, add_imm-Emits val off r h, add_imm_byte-Emits val off r h)

  -- The save and the restore of the floating-point state at an address in a register, for every
  -- register but RBP and R13.
  fx_state :
      (r : ℕ)
      → r < 16
      → (not (r % 8 == 5)) ≡ true
      → Emits size true (emit_fx_save_reg r) (insn 0x0fae 0 (at_reg r 0) 0)
        × Emits size true (emit_fx_rstor_reg r) (insn 0x0fae 1 (at_reg r 0) 0)
  fx_state r h n = (fx_save-Emits r h n, fx_rstor-Emits r h n)

  -- The load of a register's value plus a displacement, for every address register but R12.
  load_address :
      (imm r s : ℕ)
      → r < 16
      → s < 16
      → (not (s == 12)) ≡ true
      → Emits size true
          (emit_load_reg_imm_reg r imm s)
          (wide_insn 0x8d r (at_reg s (imm % 2 ^ 32)) 0)
  load_address = load_reg_imm-Emits

  -- For a disassembler that measures instructions: loads and stores through an address register, with
  -- the low 32 bits of a displacement or with none, for any two registers of sixteen, where RSP and R12
  -- get the extra byte that they need as an address; additions of an immediate to the place that a
  -- register and a displacement name; and the move of an immediate to such a place, which has the
  -- address-size prefix 0x67, so that its address is cut to 32 bits. Immediates are cut to the 32 or 8
  -- bits that the instruction holds.
  pub through_address_register :
      (imm val : ℕ) (full : Bool) (r s : ℕ)
      → r < 16
      → s < 16
      → (Emits size true
            (emit_move_regaddr_imm_to_reg r imm s)
            (wide_insn 0x8b s (at_reg r (imm % 2 ^ 32)) 0)
          × Emits size true
              (emit_move_reg_to_regaddr_imm r s imm full)
              (prefixed [] full 0x89 r (at_reg s (imm % 2 ^ 32)) 0)
          × Emits size true (emit_move_reg_to_regaddr r s) (wide_insn 0x89 r (at_bare_reg s) 0)
          × Emits size true (emit_move_regaddr_to_reg s r) (wide_insn 0x8b r (at_bare_reg s) 0))
        × (Emits size true
              (emit_move_imm_to_regaddr_imm val r imm)
              (prefixed (0x67 ∷ []) true 0xc7 0 (at_reg r (imm % 2 ^ 32)) (val % 2 ^ 32))
            × Emits size true
                (emit_add_imm_to_regaddr_imm val r imm)
                (insn 0x81 0 (at_reg r (imm % 2 ^ 32)) (val % 2 ^ 32))
            × Emits size true
                (emit_add_imm_byte_to_regaddr_imm val r imm)
                (insn 0x83 0 (at_reg r (imm % 2 ^ 32)) (val % 2 ^ 8)))
  through_address_register imm val full r s hr hs =
      (through_register imm full r s hr hs, immediate_through_register val imm r hr)
