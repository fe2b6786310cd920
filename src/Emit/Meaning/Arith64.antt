-- ===== src/Emit/Meaning/Arith64.antt =====
-- The arithmetic of X86InstructionFactory64.
use pebil.Common.{
  ℕ, ◌%◌, ◌^◌, ◌<◌, ◌≡◌, refl, Bool, true, false, [], ◌∷◌, tabulate, not, ◌==◌, if◌then◌else◌,
}
use pebil.X86.Bytes.{le_bytes, le_value, le_value-bytes_four}
use pebil.X86.Format.{gpr}
use pebil.X86.Decode.{decode}
use pebil.Emit.Buffer.{
  Disassembler, Measures, Emits, Emits_of_table, Emits_of_table₂, Emits_of_table_if,
  Emits_of_table₂_if, at_passing, fits_of_lt,
}
use pebil.Emit.Factory64.Arith.{
  emit_exchange_add, emit_compare_imm_reg, emit_xor_reg_reg, emit_reg_sub_imm_4byte,
  emit_reg_add_imm_4byte,
}
use pebil.Emit.Meaning.Shapes.{wide_insn, prefixed, at_reg}

module _ {size : Disassembler} (measures : Measures size) where
  reg_xor-Emits :
      (r s : ℕ)
      → r < 8
      → s < 8
      → Emits size true (emit_xor_reg_reg r s) (wide_insn 0x31 r (gpr s) 0)
  unfolding emit_xor_reg_reg tabulate decode le_bytes le_value
  reg_xor-Emits = Emits_of_table₂ true 8 8 _ _ measures refl

  compare-Emits :
      (imm : ℕ)
      → imm < 2 ^ 32
      → (r : ℕ) → r < 16
      → Emits size true (emit_compare_imm_reg imm r) (wide_insn 0x81 7 (gpr r) (imm % 2 ^ 32))
  unfolding emit_compare_imm_reg tabulate decode le_bytes le_value
  compare-Emits imm h =
      Emits_of_table true 16 _ _ measures (rw (fits_of_lt h, ← le_value-bytes_four imm) refl)

  sub_imm-Emits :
      (imm r : ℕ)
      → r < 16
      → (not (r == 0)) ≡ true
      → Emits size true
          (emit_reg_sub_imm_4byte r imm)
          (wide_insn 0x81 5 (gpr (r % 8)) (imm % 2 ^ 32))
  unfolding emit_reg_sub_imm_4byte tabulate decode le_bytes le_value at_passing
  sub_imm-Emits imm =
      Emits_of_table_if true 16 (λ r. not (r == 0)) _ _ measures
        (rw (← le_value-bytes_four imm) refl)

  exchange_add-Emits :
      (lock : Bool) (r s : ℕ)
      → r < 16
      → s < 16
      → (not (s % 8 == 5)) ≡ true
      → Emits size true
          (emit_exchange_add r s lock)
          (prefixed (if lock then 0xf0 ∷ [] else []) true 0x0fc1 r (at_reg s 0) 0)
  unfolding emit_exchange_add tabulate decode le_bytes le_value at_passing
  exchange_add-Emits true =
      Emits_of_table₂_if true 16 16 (λ r s. not (s % 8 == 5)) _ _ measures refl
  exchange_add-Emits false =
      Emits_of_table₂_if true 16 16 (λ r s. not (s % 8 == 5)) _ _ measures refl

  -- With a zero immediate the result is a one-byte nop.
  add_imm-Emits :
      (imm r : ℕ)
      → r < 16
      → (not (r == 0)) ≡ true
      → Emits size true (emit_reg_add_imm_4byte r imm) (wide_insn 0x81 0 (gpr r) (imm % 2 ^ 32))
  unfolding emit_reg_add_imm_4byte tabulate decode le_bytes le_value at_passing
  add_imm-Emits imm =
      Emits_of_table_if true 16 (λ r. not (r == 0)) _ _ measures
        (rw (← le_value-bytes_four imm) refl)

  -- For a disassembler that measures instructions: for a register other than RAX, of sixteen, the
  -- four-byte forms of add and subtract with an immediate are accepted, and hold its low 32 bits. The add is on that register; the subtraction is on the register of the same number
  -- modulo 8, since it has no REX.B.
  pub add_and_subtract :
      (imm r : ℕ)
      → r < 16
      → (not (r == 0)) ≡ true
      → Emits size true (emit_reg_add_imm_4byte r imm) (wide_insn 0x81 0 (gpr r) (imm % 2 ^ 32))
        × Emits size true
            (emit_reg_sub_imm_4byte r imm)
            (wide_insn 0x81 5 (gpr (r % 8)) (imm % 2 ^ 32))
  add_and_subtract imm r h n = (add_imm-Emits imm r h n, sub_imm-Emits imm r h n)

  -- The exchange-and-add, with its lock prefix or without, works on the address in any register but
  -- RBP and R13.
  exchange_add :
      (lock : Bool) (r s : ℕ)
      → r < 16
      → s < 16
      → (not (s % 8 == 5)) ≡ true
      → Emits size true
          (emit_exchange_add r s lock)
          (prefixed (if lock then 0xf0 ∷ [] else []) true 0x0fc1 r (at_reg s 0) 0)
  exchange_add = exchange_add-Emits
