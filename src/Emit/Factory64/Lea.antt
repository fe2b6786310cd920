-- ===== src/Emit/Factory64/Lea.antt =====
-- src/X86InstructionFactory.C: class X86InstructionFactory64, `emitLoadEffectiveAddress`.
use pebil.Common.{
  ℕ, ◌+◌, ◌*◌, ◌%◌, ◌^◌, ◌++◌, Option, some, List, ltb, leb, ◌==◌, if◌then◌else◌, ◌>>=◌, ◌>>◌,
  ensure, Bool, ◌||◌, ◌&&◌, true,
}
use pebil.Numeric.Power.{log_base2, is_power_of_two}
use pebil.Emit.Buffer.{byte, copy, when, fill}

-- The arguments of the emitter. A register number of `rip_reg` for the base is the instruction
-- pointer: UD_R_RIP - UD_R_RAX in the numbering of the disassembler.
pub record Address : Type 0 where
  pub base_reg : ℕ
  pub index_reg : ℕ
  pub scale : ℕ
  pub value : ℕ
  pub has_base : Bool
  pub has_index : Bool

-- if (scale) sa = logBase2(scale) << 6, a uint8_t
unfoldable pub scale_bits : ℕ → Option ℕ
unfolding log_base2
scale_bits scale = if scale == 0 then some 0 else (log_base2 scale >>= λ l. some (l * 2 ^ 6 % 256))

-- REX for a SIB form: the base counts where the form has one.
unfoldable pub lea_rex : Bool → Address → ℕ → ℕ
lea_rex base a dest =
    0x48
    + (if base && leb 8 a.base_reg then 1 else 0)
    + (if leb 8 a.index_reg then 2 else 0)
    + (if leb 8 dest then 4 else 0)

-- hasIndex, hasBase and no value
unfoldable pub lea_sib_base : Address → ℕ → ℕ → Option (List ℕ)
unfolding fill lea_rex
lea_sib_base a sa dest =
    let bp = if a.base_reg % 8 == 5 then 1 else 0 in
    fill (4 + bp) (
      byte 0 (lea_rex true a dest)
      ++ byte 1 0x8d
      ++ byte 2 (0x04 + 8 * (dest % 8) + (if a.base_reg % 8 == 5 then 0x40 else 0))
      ++ when (a.base_reg % 8 == 5) (byte 4 0x00)
      ++ byte 3 (0x00 + 8 * (a.index_reg % 8) + a.base_reg % 8 + sa))

-- hasIndex, and a value or no base
unfoldable pub lea_sib_value : Address → ℕ → ℕ → Option (List ℕ)
unfolding fill copy lea_rex
lea_sib_value a sa dest = fill 8 (
    byte 0 (lea_rex a.has_base a dest)
    ++ byte 1 0x8d
    ++ byte 2 (0x04 + 8 * (dest % 8) + (if a.has_base then 0x80 else 0))
    ++ byte 3 (0x00 + 8 * (a.index_reg % 8) + (if a.has_base then a.base_reg % 8 else 0x05) + sa)
    ++ copy 4 4 a.value)

-- a base and an offset
unfoldable pub lea_base : ℕ → Address → ℕ → Option (List ℕ)
unfolding fill copy
lea_base rip_reg a dest =
    let sib = if a.base_reg % 8 == 4 then 1 else 0 in
    fill (7 + sib) (
      byte 0 ((if ltb dest 8 then 0x48 else 0x4c) + (if ltb a.base_reg 8 then 0 else 1))
      ++ byte 1 0x8d
      ++ byte 2 ((if a.base_reg == rip_reg then 0x05 else 0x80 + a.base_reg % 8) + 8 * (dest % 8))
      ++ when (a.base_reg % 8 == 4) (byte 3 0x24)
      ++ copy (3 + sib) 4 a.value)

-- a constant
unfoldable pub lea_constant : Address → ℕ → Option (List ℕ)
unfolding fill copy
lea_constant a dest = fill 8 (
    byte 0 (if ltb dest 8 then 0x48 else 0x4c)
    ++ byte 1 0x8d
    ++ byte 2 (0x04 + 8 * (dest % 8))
    ++ byte 3 0x25
    ++ copy 4 4 a.value)

unfoldable pub emit_load_effective_address : ℕ → Address → ℕ → Option (List ℕ)
emit_load_effective_address rip_reg a dest = do
  ensure (ltb dest 16)
  ensure (ltb a.base_reg 16 || a.base_reg == rip_reg)
  ensure (ltb a.index_reg 16)
  ensure (a.scale == 0 || is_power_of_two a.scale && leb a.scale 8)
  if a.has_index
      then (scale_bits a.scale >>= λ sa.
          if a.has_base && a.value == 0 then lea_sib_base a sa dest else lea_sib_value a sa dest)
      else if a.has_base
      then lea_base rip_reg a dest
      else lea_constant a dest
