-- ===== src/Emit/Factory/Control.antt =====
-- src/X86InstructionFactory.C: class X86InstructionFactory, jumps, calls and traps.
use pebil.Common.{
  ℕ, ◌+◌, ◌*◌, ◌%◌, ◌^◌, ◌-◌, ◌++◌, Option, List, ltb, ◌==◌, not, if◌then◌else◌, ◌>>◌, ensure, Bool,
  ◌&&◌,
}
use pebil.Emit.Buffer.{byte, copy, fill, fits}

unfoldable pub emit_branch_generic : ℕ → ℕ → Option (List ℕ)
unfolding fill copy
emit_branch_generic off code = do
  ensure (fits off)
  fill 6 (byte 0 0x0f ++ byte 1 code ++ copy 2 4 off)

unfoldable pub emit_branch_jne : ℕ → Option (List ℕ)
unfolding emit_branch_generic
emit_branch_jne off = emit_branch_generic off 0x85

unfoldable pub emit_branch_je : ℕ → Option (List ℕ)
unfolding emit_branch_generic
emit_branch_je off = emit_branch_generic off 0x84

unfoldable pub emit_branch_jl : ℕ → Option (List ℕ)
unfolding emit_branch_generic
emit_branch_jl off = emit_branch_generic off 0x8c

-- uint64_t tgt - addr - len
unfoldable pub relative : ℕ → ℕ → ℕ → ℕ
relative addr tgt len = (tgt + 2 * 2 ^ 64 - addr - len) % 2 ^ 64

unfoldable pub emit_call_relative : ℕ → ℕ → Option (List ℕ)
unfolding fill copy
emit_call_relative addr tgt = do
  ensure (fits addr)
  ensure (fits tgt)
  fill 5 (byte 0 0xe8 ++ copy 1 4 (relative addr tgt 5))

-- ASSERT(addr == (int32_t)addr) on a uint64_t: the low 32 bits, extended by their sign.
unfoldable pub fits_signed : ℕ → Bool
fits_signed v =
    (if ltb (v % 2 ^ 32) (2 ^ 31) then v % 2 ^ 32 else 2 ^ 64 - 2 ^ 32 + v % 2 ^ 32) == v

unfoldable pub emit_jump_relative : ℕ → ℕ → Option (List ℕ)
unfolding fill copy
emit_jump_relative addr tgt = do
  ensure (fits_signed addr)
  ensure (fits_signed tgt)
  fill 5 (byte 0 0xe9 ++ copy 1 4 (relative addr tgt 5))

unfoldable pub emit_return : Option (List ℕ)
unfolding fill
emit_return = fill 1 (byte 0 0xc3)

-- X86TRAPCODE_BREAKPOINT is 3, X86TRAPCODE_OVERFLOW is 4.
unfoldable pub emit_interrupt : ℕ → Option (List ℕ)
unfolding fill
emit_interrupt idx =
    fill (1 + (if not (idx == 3) && not (idx == 4) then 1 else 0)) (
      if idx == 3 then byte 0 0xcc else if idx == 4 then byte 0 0xce else byte 0 0xcd ++ byte 1 idx)
