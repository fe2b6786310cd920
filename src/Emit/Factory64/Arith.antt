-- ===== src/Emit/Factory64/Arith.antt =====
-- src/X86InstructionFactory.C: class X86InstructionFactory64, arithmetic and logic on registers.
use pebil.Common.{
  ℕ, ◌+◌, ◌*◌, ◌%◌, ◌-◌, ◌++◌, Option, List, ltb, leb, ◌==◌, if◌then◌else◌, ◌>>◌, ensure, Bool,
  ◌&&◌,
}
use pebil.Emit.Buffer.{byte, copy, when, fill, fits}
use pebil.Emit.Factory.Simple.{emit_nop}

unfoldable pub emit_exchange_add : ℕ → ℕ → Bool → Option (List ℕ)
unfolding fill copy
emit_exchange_add src dest lock = do
  ensure (ltb src 16)
  ensure (ltb dest 16)
  let st = if lock then 1 else 0
  let sib = if dest % 8 == 4 then 1 else 0
  fill (4 + st + sib) (
      byte 0 0xf0
      ++ byte (st + 0) (0x48 + (if leb 8 src then 0x04 else 0) + (if leb 8 dest then 0x01 else 0))
      ++ byte (st + 1) 0x0f
      ++ byte (st + 2) 0xc1
      ++ byte (st + 3) (0x00 + dest % 8 + 8 * (src % 8))
      ++ when (dest % 8 == 4) (byte (st + 4) 0x24))

unfoldable pub emit_imm_and_reg : ℕ → ℕ → Option (List ℕ)
unfolding fill copy
emit_imm_and_reg imm dest = do
  ensure (ltb dest 16)
  fill 7 (
      byte 0 (0x48 + (if leb 8 dest then 0x01 else 0))
      ++ byte 1 0x81
      ++ byte 2 (0xe0 + 0x01 * (dest % 8))
      ++ copy 3 4 imm)

unfoldable pub emit_imm_or_reg : ℕ → ℕ → Option (List ℕ)
unfolding fill copy
emit_imm_or_reg imm dest = do
  ensure (ltb dest 16)
  fill 7 (
      byte 0 (0x48 + (if leb 8 dest then 0x01 else 0))
      ++ byte 1 0x81
      ++ byte 2 (0xc8 + 0x01 * (dest % 8))
      ++ copy 3 4 imm)

unfoldable pub emit_shift_right_logical : ℕ → ℕ → Option (List ℕ)
unfolding fill copy
emit_shift_right_logical imm reg = do
  ensure (ltb reg 16)
  fill 4 (
      byte 0 (if ltb reg 8 then 0x48 else 0x49)
      ++ byte 1 0xc1
      ++ byte 2 (0xe8 + reg % 8)
      ++ byte 3 imm)

unfoldable pub emit_shift_left_logical : ℕ → ℕ → Option (List ℕ)
unfolding fill copy
emit_shift_left_logical imm reg = do
  ensure (ltb reg 16)
  fill 4 (
      byte 0 (if ltb reg 8 then 0x48 else 0x49)
      ++ byte 1 0xc1
      ++ byte 2 (0xe0 + reg % 8)
      ++ byte 3 imm)

unfoldable pub emit_compare_imm_reg : ℕ → ℕ → Option (List ℕ)
unfolding fill copy
emit_compare_imm_reg imm reg = do
  ensure (ltb reg 16)
  ensure (fits imm)
  fill 7 (
      byte 0 (if ltb reg 8 then 0x48 else 0x49)
      ++ byte 1 0x81
      ++ byte 2 (0xf8 + reg % 8)
      ++ copy 3 4 imm)

unfoldable pub emit_reg_add_reg_2op_form : ℕ → ℕ → Option (List ℕ)
unfolding fill copy
emit_reg_add_reg_2op_form srcdestreg srcreg = do
  ensure (ltb srcdestreg 16)
  ensure (ltb srcreg 16)
  fill 3 (
      byte 0 ((if ltb srcdestreg 8 then 0x48 else 0x4c) + (if ltb srcreg 8 then 0 else 1))
      ++ byte 2 (
          if ltb srcdestreg 8
          then 0xc0 + 8 * srcdestreg + srcreg % 8
          else 0xc0 + 8 * (srcdestreg - 8) + srcreg % 8)
      ++ byte 1 0x01)

unfoldable pub emit_reg_imm_mult_reg : ℕ → ℕ → ℕ → Option (List ℕ)
unfolding fill copy
emit_reg_imm_mult_reg src imm dest = do
  ensure (ltb src 16)
  ensure (ltb dest 16)
  ensure (src == dest)
  fill 7 (
      byte 0 ((if ltb dest 8 then 0x48 else 0x4c) + (if ltb src 8 then 0 else 1))
      ++ byte 2 (if ltb dest 8 then 0xc0 + 8 * dest + src % 8 else 0xc0 + 8 * (dest - 8) + src % 8)
      ++ byte 1 0x69
      ++ copy 3 4 imm)

unfoldable pub emit_xor_reg_reg : ℕ → ℕ → Option (List ℕ)
unfolding fill copy
emit_xor_reg_reg src tgt = do
  ensure (ltb src 8)
  ensure (ltb tgt 8)
  fill 3 (byte 0 0x48 ++ byte 1 0x31 ++ byte 2 (0xc0 + tgt + 8 * src))

unfoldable pub emit_reg_and_reg : ℕ → ℕ → Option (List ℕ)
unfolding fill copy
emit_reg_and_reg src srcdest = do
  ensure (ltb src 16)
  ensure (ltb srcdest 16)
  fill 3 (
      byte 0 ((if ltb srcdest 8 then 0x48 else 0x4c) + (if ltb src 8 then 0 else 1))
      ++ byte 1 0x21
      ++ byte 2 (0xc0 + 8 * (srcdest % 8) + src % 8))

unfoldable pub emit_reg_or_reg : ℕ → ℕ → Option (List ℕ)
unfolding fill copy
emit_reg_or_reg src srcdest = do
  ensure (ltb src 16)
  ensure (ltb srcdest 16)
  fill 3 (
      byte 0 ((if ltb srcdest 8 then 0x48 else 0x4c) + (if ltb src 8 then 0 else 1))
      ++ byte 1 0x09
      ++ byte 2 (0xc0 + 8 * (srcdest % 8) + src % 8))

-- `imm` is a uint32_t, so the ASSERT that it fits in 32 bits holds.
unfoldable pub emit_reg_sub_imm_4byte : ℕ → ℕ → Option (List ℕ)
unfolding fill copy
emit_reg_sub_imm_4byte idx imm = do
  ensure (ltb 0 idx && ltb idx 16)
  let short = if idx == 0 then 1 else 0
  fill (7 - short) (
      byte 0 0x48
      ++ byte 1 0x81
      ++ byte 2 (0xe8 + idx % 8)
      ++ when (idx == 0) (byte 1 0x2d)
      ++ copy (3 - short) 4 imm)

unfoldable pub emit_reg_sub_imm : ℕ → ℕ → Option (List ℕ)
unfolding emit_reg_sub_imm_4byte emit_nop
emit_reg_sub_imm idx imm = do
  ensure (ltb 0 idx && ltb idx 16)
  if imm == 0 then emit_nop 1 else emit_reg_sub_imm_4byte idx imm

unfoldable pub emit_reg_add_imm_4byte : ℕ → ℕ → Option (List ℕ)
unfolding fill copy
emit_reg_add_imm_4byte idx imm = do
  ensure (ltb idx 16)
  let short = if idx == 0 then 1 else 0
  fill (7 - short) (
      byte 0 (if ltb idx 8 then 0x48 else 0x49)
      ++ byte 1 0x81
      ++ byte 2 (0xc0 + idx % 8)
      ++ copy (3 - short) 4 imm)

unfoldable pub emit_reg_add_imm : ℕ → ℕ → Option (List ℕ)
unfolding emit_reg_add_imm_4byte emit_nop
emit_reg_add_imm idx imm = do
  ensure (ltb idx 16)
  if imm == 0 then emit_nop 1 else emit_reg_add_imm_4byte idx imm
