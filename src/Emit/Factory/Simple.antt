-- ===== src/Emit/Factory/Simple.antt =====
-- src/X86InstructionFactory.C: class X86InstructionFactory, instructions with no memory operand.
use pebil.Common.{
  ◌*◌, ℕ, zero, suc, ◌++◌, Option, none, some, List, leb, ◌>>=◌, ◌>>◌, ensure, ltb, Bool, ◌+◌, not,
  if◌then◌else◌, ◌==◌, ◌-◌, ◌||◌,
}
use pebil.Emit.Buffer.{Write, byte, fill, when}

-- The `switch` of `emitNop`; the default case is the failing ASSERT of __SHOULD_NOT_ARRIVE.
nop_writes : ℕ → Option (List Write)
nop_writes (suc zero) = some (byte 0 0x90)
nop_writes (suc (suc zero)) = some (byte 0 0x66 ++ byte 1 0x90)
nop_writes (suc (suc (suc zero))) = some (byte 0 0x0f ++ byte 1 0x1f ++ byte 2 0x00)
nop_writes (suc (suc (suc (suc zero)))) =
    some (byte 0 0x0f ++ byte 1 0x1f ++ byte 2 0x40 ++ byte 3 0x00)
nop_writes (suc (suc (suc (suc (suc zero))))) =
    some (byte 0 0x0f ++ byte 1 0x1f ++ byte 2 0x44 ++ byte 3 0x00 ++ byte 4 0x00)
nop_writes (suc (suc (suc (suc (suc (suc zero)))))) =
    some (byte 0 0x66 ++ byte 1 0x0f ++ byte 2 0x1f ++ byte 3 0x44 ++ byte 4 0x00 ++ byte 5 0x00)
nop_writes (suc (suc (suc (suc (suc (suc (suc zero))))))) = some (
    byte 0 0x0f
    ++ byte 1 0x1f
    ++ byte 2 0x80
    ++ byte 3 0x00
    ++ byte 4 0x00
    ++ byte 5 0x00
    ++ byte 6 0x00)
nop_writes (suc (suc (suc (suc (suc (suc (suc (suc zero)))))))) = some (
    byte 0 0x0f
    ++ byte 1 0x1f
    ++ byte 2 0x84
    ++ byte 3 0x00
    ++ byte 4 0x00
    ++ byte 5 0x00
    ++ byte 6 0x00
    ++ byte 7 0x00)
nop_writes _ = none

-- MAX_NOP_LENGTH is 8.
unfoldable pub emit_nop : ℕ → Option (List ℕ)
unfolding nop_writes fill
emit_nop len = do ensure (leb len 8); ws ← nop_writes len; fill len ws

unfoldable pub emit_load_ah_from_flags : Option (List ℕ)
unfolding fill
emit_load_ah_from_flags = fill 1 (byte 0 0x9f)

unfoldable pub emit_store_ah_to_flags : Option (List ℕ)
unfolding fill
emit_store_ah_to_flags = fill 1 (byte 0 0x9e)

unfoldable pub emit_push_eflags : Option (List ℕ)
unfolding fill
emit_push_eflags = fill 1 (byte 0 0x9c)

unfoldable pub emit_pop_eflags : Option (List ℕ)
unfolding fill
emit_pop_eflags = fill 1 (byte 0 0x9d)

unfoldable pub emit_reg_increment : ℕ → Option (List ℕ)
unfolding fill
emit_reg_increment idx = do ensure (ltb idx 8); fill 1 (byte 0 (0x40 + idx))

unfoldable pub emit_set_direction_flag : Bool → Option (List ℕ)
unfolding fill
emit_set_direction_flag backward = fill 1 (byte 0 (0xfc + (if backward then 1 else 0)))

-- `len` is 1, or 2 with the repeat prefix: the opcode stands in the last byte.
unfoldable pub emit_stos_byte : Bool → Option (List ℕ)
unfolding fill
emit_stos_byte repeat =
    let len = 1 + (if repeat then 1 else 0) in fill len (byte 0 0xf3 ++ byte (len - 1) 0xaa)

unfoldable pub emit_stos_word : Bool → Option (List ℕ)
unfolding fill
emit_stos_word repeat =
    let len = 1 + (if repeat then 1 else 0) in fill len (byte 0 0xf3 ++ byte (len - 1) 0xab)

unfoldable pub emit_move_string : Bool → Option (List ℕ)
unfolding fill
emit_move_string repeat =
    let len = 1 + (if repeat then 1 else 0) in fill len (byte 0 0xf3 ++ byte (len - 1) 0xa5)

-- Segment registers: X86_SEGREG_CS is 1, FS is 4, GS is 5.
unfoldable pub emit_push_segment_reg : ℕ → Option (List ℕ)
unfolding fill
emit_push_segment_reg idx = do
  ensure (ltb idx 6)
  ensure (not (idx == 1))
  let far = idx == 4 || idx == 5
  fill (1 + (if far then 1 else 0))
      (byte 0 (0x06 + 8 * idx) ++ when far (byte 0 0x0f ++ byte 1 (0x80 + idx)))

unfoldable pub emit_pop_segment_reg : ℕ → Option (List ℕ)
unfolding fill
emit_pop_segment_reg idx = do
  ensure (ltb idx 6)
  ensure (not (idx == 1))
  let far = idx == 4 || idx == 5
  fill (1 + (if far then 1 else 0))
      (byte 0 (0x07 + 8 * idx) ++ when far (byte 0 0x0f ++ byte 1 (0x81 + idx)))
