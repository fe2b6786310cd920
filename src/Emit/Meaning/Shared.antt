-- ===== src/Emit/Meaning/Shared.antt =====
-- The emitters that both modes share (X86InstructionFactory), which each mode reads alike.
use pebil.Common.{
  some, [], ◌>>=◌, ℕ, ◌+◌, ◌%◌, ◌^◌, ◌<◌, ◌≡◌, refl, Bool, true, false, tabulate, arith,
}
use pebil.X86.Bytes.{le_bytes, le_value, le_value-bytes_four}
use pebil.X86.Format.{absent}
use pebil.X86.Decode.{decode}
use pebil.Emit.Buffer.{
  EmitsBoth, EmitsBoth-of_decode, Disassembler, Measures, Emits, Emits_of_table, fits_of_lt,
}
use pebil.Emit.Factory.Control.{
  emit_branch_jne, emit_branch_je, emit_branch_jl, relative, emit_call_relative, fits_signed,
  emit_jump_relative,
}
use pebil.Emit.Factory.Moves.{
  emit_move_imm_to_reg, emit_stack_push_imm, emit_move_imm_to_regaddr_imm,
}
use pebil.Emit.Meaning.Shapes.{insn, at_reg}

fits_signed_of_lt : {v : ℕ} → v < 2 ^ 31 → fits_signed v ≡ true
unfolding fits_signed
fits_signed_of_lt h = ground arith

-- The processor adds the stored displacement to the address behind the instruction.
relative_target :
    (addr tgt : ℕ)
    → addr < 2 ^ 32
    → tgt < 2 ^ 32
    → (addr + 5 + relative addr tgt 5 % 2 ^ 32) % 2 ^ 32 ≡ tgt
unfolding relative
relative_target addr tgt h k = omega arith

jne-decode :
    (off : ℕ)
    → off < 2 ^ 32
    → (is64 : Bool)
    → (emit_branch_jne off >>= decode is64) ≡ some (insn 0x0f85 0 absent (off % 2 ^ 32), [])
unfolding emit_branch_jne decode le_bytes le_value
jne-decode off h true = rw (fits_of_lt h, ← le_value-bytes_four off) refl
jne-decode off h false = rw (fits_of_lt h, ← le_value-bytes_four off) refl

je-decode :
    (off : ℕ)
    → off < 2 ^ 32
    → (is64 : Bool)
    → (emit_branch_je off >>= decode is64) ≡ some (insn 0x0f84 0 absent (off % 2 ^ 32), [])
unfolding emit_branch_je decode le_bytes le_value
je-decode off h true = rw (fits_of_lt h, ← le_value-bytes_four off) refl
je-decode off h false = rw (fits_of_lt h, ← le_value-bytes_four off) refl

jl-decode :
    (off : ℕ)
    → off < 2 ^ 32
    → (is64 : Bool)
    → (emit_branch_jl off >>= decode is64) ≡ some (insn 0x0f8c 0 absent (off % 2 ^ 32), [])
unfolding emit_branch_jl decode le_bytes le_value
jl-decode off h true = rw (fits_of_lt h, ← le_value-bytes_four off) refl
jl-decode off h false = rw (fits_of_lt h, ← le_value-bytes_four off) refl

call-decode :
    (addr tgt : ℕ)
    → addr < 2 ^ 32
    → tgt < 2 ^ 32
    → (is64 : Bool)
    → (emit_call_relative addr tgt >>= decode is64)
      ≡ some (insn 0xe8 0 absent (relative addr tgt 5 % 2 ^ 32), [])
unfolding emit_call_relative decode le_bytes le_value
call-decode addr tgt h k true =
    rw (fits_of_lt h, fits_of_lt k, ← le_value-bytes_four (relative addr tgt 5)) refl
call-decode addr tgt h k false =
    rw (fits_of_lt h, fits_of_lt k, ← le_value-bytes_four (relative addr tgt 5)) refl

jump-decode :
    (addr tgt : ℕ)
    → addr < 2 ^ 31
    → tgt < 2 ^ 31
    → (is64 : Bool)
    → (emit_jump_relative addr tgt >>= decode is64)
      ≡ some (insn 0xe9 0 absent (relative addr tgt 5 % 2 ^ 32), [])
unfolding emit_jump_relative decode le_bytes le_value
jump-decode addr tgt h k true =
    rw (fits_signed_of_lt h, fits_signed_of_lt k, ← le_value-bytes_four (relative addr tgt 5)) refl
jump-decode addr tgt h k false =
    rw (fits_signed_of_lt h, fits_signed_of_lt k, ← le_value-bytes_four (relative addr tgt 5)) refl

push_imm-decode :
    (imm : ℕ)
    → imm < 2 ^ 32
    → (is64 : Bool)
    → (emit_stack_push_imm imm >>= decode is64) ≡ some (insn 0x68 0 absent (imm % 2 ^ 32), [])
unfolding emit_stack_push_imm decode le_bytes le_value
push_imm-decode imm h true = rw (fits_of_lt h, ← le_value-bytes_four imm) refl
push_imm-decode imm h false = rw (fits_of_lt h, ← le_value-bytes_four imm) refl

module _ {size : Disassembler} (measures : Measures size) where
  move_imm-Emits :
      (imm : ℕ)
      → imm < 2 ^ 32
      → (r : ℕ) → r < 8
      → Emits size false (emit_move_imm_to_reg imm r) (insn 0xb8 r absent (imm % 2 ^ 32))
  unfolding emit_move_imm_to_reg tabulate decode le_bytes le_value
  move_imm-Emits imm h =
      Emits_of_table false 8 _ _ measures (rw (fits_of_lt h, ← le_value-bytes_four imm) refl)

  move_imm_to_regaddr-Emits :
      (val off r : ℕ)
      → r < 8
      → Emits size false
          (emit_move_imm_to_regaddr_imm val r off)
          (insn 0xc7 0 (at_reg r (off % 2 ^ 32)) (val % 2 ^ 32))
  unfolding emit_move_imm_to_regaddr_imm tabulate decode le_bytes le_value
  move_imm_to_regaddr-Emits val off =
      Emits_of_table false 8 _ _ measures
        (rw (← le_value-bytes_four val, ← le_value-bytes_four off) refl)

  -- For an offset of 32 bits, the conditional branches are jne, je and jl with that offset. Each is
  -- accepted by the 32-bit check of the base class, and reads the same in 64-bit mode.
  branches :
      (off : ℕ)
      → off < 2 ^ 32
      → EmitsBoth size (emit_branch_jne off) (insn 0x0f85 0 absent (off % 2 ^ 32))
        × EmitsBoth size (emit_branch_je off) (insn 0x0f84 0 absent (off % 2 ^ 32))
        × EmitsBoth size (emit_branch_jl off) (insn 0x0f8c 0 absent (off % 2 ^ 32))
  branches off h = (
    EmitsBoth-of_decode (emit_branch_jne off) _ measures (jne-decode off h),
    EmitsBoth-of_decode (emit_branch_je off) _ measures (je-decode off h),
    EmitsBoth-of_decode (emit_branch_jl off) _ measures (jl-decode off h),
  )

  -- For a disassembler that measures instructions: the call and the jump from `addr` to `tgt`, both
  -- below 2 ^ 31, are accepted, read the same in either
  -- mode, and hold a displacement which, added to the address behind the five bytes, gives `tgt`
  -- modulo 2 ^ 32.
  pub call_and_jump :
      (addr tgt : ℕ)
      → addr < 2 ^ 31
      → tgt < 2 ^ 31
      → (d : ℕ) × EmitsBoth size (emit_call_relative addr tgt) (insn 0xe8 0 absent d)
        × EmitsBoth size (emit_jump_relative addr tgt) (insn 0xe9 0 absent d)
        × ((addr + 5 + d) % 2 ^ 32 ≡ tgt)
  call_and_jump addr tgt h k = (
    relative addr tgt 5 % 2 ^ 32,
    EmitsBoth-of_decode (emit_call_relative addr tgt) _ measures
        (call-decode addr tgt (omega arith) (omega arith)),
    EmitsBoth-of_decode (emit_jump_relative addr tgt) _ measures (jump-decode addr tgt h k),
    relative_target addr tgt (omega arith) (omega arith),
  )

  -- An immediate of 32 bits, pushed, moved to a register of eight, and moved to the place that a
  -- register and a displacement name, in 32-bit mode: the immediate, the register and the
  -- displacement are those given.
  immediates_32 :
      (imm off r : ℕ)
      → imm < 2 ^ 32
      → r < 8
      → EmitsBoth size (emit_stack_push_imm imm) (insn 0x68 0 absent (imm % 2 ^ 32))
        × Emits size false (emit_move_imm_to_reg imm r) (insn 0xb8 r absent (imm % 2 ^ 32))
        × Emits size false
            (emit_move_imm_to_regaddr_imm imm r off)
            (insn 0xc7 0 (at_reg r (off % 2 ^ 32)) (imm % 2 ^ 32))
  immediates_32 imm off r h hr = (
    EmitsBoth-of_decode (emit_stack_push_imm imm) _ measures (push_imm-decode imm h),
    move_imm-Emits imm h r hr,
    move_imm_to_regaddr-Emits imm off r hr,
  )

  -- For an offset and an immediate of 32 bits: the conditional branches are jne, je and jl with
  -- that offset, which the 32-bit check of the base class accepts and which read the same in
  -- 64-bit mode; and the immediate, pushed, moved to a register of eight, and in 32-bit mode
  -- moved to the place that a register and a displacement name, is the one given, with that
  -- register and that displacement.
  branches_and_immediates :
      (imm off r : ℕ)
      → imm < 2 ^ 32
      → off < 2 ^ 32
      → r < 8
      → (EmitsBoth size (emit_branch_jne off) (insn 0x0f85 0 absent (off % 2 ^ 32))
          × EmitsBoth size (emit_branch_je off) (insn 0x0f84 0 absent (off % 2 ^ 32))
          × EmitsBoth size (emit_branch_jl off) (insn 0x0f8c 0 absent (off % 2 ^ 32)))
        × (EmitsBoth size (emit_stack_push_imm imm) (insn 0x68 0 absent (imm % 2 ^ 32))
            × Emits size false (emit_move_imm_to_reg imm r) (insn 0xb8 r absent (imm % 2 ^ 32))
            × Emits size false
                (emit_move_imm_to_regaddr_imm imm r off)
                (insn 0xc7 0 (at_reg r (off % 2 ^ 32)) (imm % 2 ^ 32)))
  branches_and_immediates imm off r hi ho hr = (branches off ho, immediates_32 imm off r hi hr)
