-- ===== src/Dwarf/LineProgram/Refines.antt =====
-- The machine does to the bytes of an instruction what the instruction says.
use native.Mathlib.Nat.{mul_comm, pow-le-pow_right}
use pebil.Common.{
  ℕ, suc, ◌+◌, ◌-◌, ◌*◌, ◌/◌, ◌%◌, ◌^◌, ◌≤◌, ◌<◌, ◌≡◌, ◌≢◌, refl, ap, ◌∙◌, true, false, some, List,
  [], ◌∷◌, ◌++◌, ◌==◌, if◌then◌else◌, get_elem?, length, ltb, leb, ◌||◌, lt→ltb, arith,
}
use pebil.X86.Bytes.{le_bytes}
use pebil.Dwarf.Leb128.Laws.{leb_bytes, get_leb128_signed-backward}
use pebil.Dwarf.LineProgram.{
  Header, Machine, LineNumberOp, LineNumberXOp, line_number_ops, line_number_x_ops,
  execute_standard, execute_extended, execute_special_opcode, execute_instruction, from_int8,
  from_int16,
}
use pebil.Dwarf.LineProgram.Instructions.{
  Instruction, encode, IsEncodable, IsHandled, step, Operand, IsOperand, operand_bytes, Knows,
  file_bytes, extended, special, copy, advance_pc, forward_line, back_line, set_file, set_column,
  set_isa, negate_stmt, set_basic_block, const_add_pc, fixed_advance_pc, set_prologue_end,
  set_epilogue_begin, end_sequence, set_address, define_file, set_discriminator, emit_row,
  move_line, move_address, change,
}
use pebil.Dwarf.LineProgram.Operands.{
  get_signed-operand, runs_standard, runs_extended, get_leb128-operand, get_operand-operand,
  length-operand, length-leb_bytes, length-le_bytes, get_uint-le_bytes, get_file_name-file_bytes,
}

-- What the machine does with an instruction, whatever stands behind it.
abbrev pub Does : Header → Instruction → List ℕ → Machine → Type 0
Does h i rest m =
    execute_instruction h (encode h i ++ rest) m ≡ some (length (encode h i), step h i m)

line_lem :
    (l b n : ℕ)
    → b < 256
    → (l + (from_int8 b + n)) % 2 ^ 32
      ≡ (if b / 128 == 0 then (l + b + n) % 2 ^ 32 else (l + n + (2 ^ 32 - (256 - b))) % 2 ^ 32)
line_lem l b n h = ground arith

address_lem : (n p : ℕ) → n * p < 2 ^ 15 → from_int16 (n * p) ≡ p * n
address_lem n p h =
    let same : n * p % 2 ^ 16 ≡ n * p = omega arith in
    rw (same, lt→ltb (n * p) (2 ^ 15) h) (mul_comm n p)

module _ (h : Header) (m : Machine) (rest : List ℕ) where
  Does-special :
      (adjusted : ℕ) → IsEncodable h (special adjusted) → Does h (special adjusted) rest m
  unfolding execute_instruction execute_special_opcode encode step emit_row move_line move_address
      IsEncodable
  Does-special adjusted ok =
      let (base, byte, signed, range, small) = ok in
      let behind : ltb (h.opcode_base + adjusted) (h.opcode_base - 1) ≡ false = ground arith in
      let same : (h.opcode_base + adjusted + 256 - h.opcode_base) % 256 ≡ adjusted = omega arith in
      let divides : (h.line_range == 0) ≡ false = ground arith in
      rw
        (
          behind,
          same,
          divides,
          address_lem (adjusted / h.line_range) h.min_insn_length small,
          line_lem m.registers.line h.line_base (adjusted % h.line_range) signed,
        )
        refl

  -- The instructions that set a register and have no operand.
  Does-plain :
      (i : Instruction) (opcode : ℕ) (op : LineNumberOp)
      → encode h i ≡ opcode ∷ []
      → Knows h opcode 0
      → suc opcode ≢ h.opcode_base
      → 0 < opcode
      → opcode < 128
      → get_elem? line_number_ops opcode ≡ some op
      → execute_standard h op 0 rest m ≡ some (1, step h i m)
      → Does h i rest m
  Does-plain i opcode op bytes k other pos small found run =
      rw bytes (runs_standard h m opcode 0 op rest k other pos small found ∙ run)

  Does-operand :
      (i : Instruction) (o : Operand) (opcode : ℕ) (op : LineNumberOp)
      → encode h i ≡ opcode ∷ operand_bytes o
      → Knows h opcode 1
      → suc opcode ≢ h.opcode_base
      → 0 < opcode
      → opcode < 128
      → get_elem? line_number_ops opcode ≡ some op
      → execute_standard h op 1 (operand_bytes o ++ rest) m ≡ some (1 + (o.more + 1), step h i m)
      → Does h i rest m
  Does-operand i o opcode op bytes k other pos small found run =
      rw (bytes, length-operand o)
        (runs_standard h m opcode 1 op (operand_bytes o ++ rest) k other pos small found
          ∙ run
          ∙ ap (λ n. some (n, step h i m)) (omega arith))

  Does-back_line :
      (o : Operand) → IsEncodable h (back_line o) → 4 ≢ h.opcode_base → Does h (back_line o) rest m
  unfolding encode step change IsEncodable execute_standard
  Does-back_line o ok other =
      let (k, few, pos, small) = ok in
      let n = 128 ^ suc o.more - o.value in
      let read = get_leb128_signed-backward o.more o.value rest few pos small in
      let bound : 64 * 128 ^ o.more ≤ 64 * 128 ^ 3 =
        omega
          (arith, pow-le-pow_right {n = 128} (omega arith) {i = o.more} {j = 3} (omega arith)) in
      let fits : (ltb (2 ^ 64 - o.value) (2 ^ 31) || leb (2 ^ 64 - 2 ^ 31) (2 ^ 64 - o.value))
          ≡ true =
        ground arith in
      let low : (2 ^ 64 - o.value) % 2 ^ 32 ≡ 2 ^ 32 - o.value = omega arith in
      let run : execute_standard h LineNumberOp.advance_line 1 (leb_bytes o.more n ++ rest) m
          ≡ some (1 + (o.more + 1), step h (back_line o) m) =
        rw (read, fits, low) refl in
      rw (length-leb_bytes o.more n) (
        runs_standard h m 3 1 LineNumberOp.advance_line (leb_bytes o.more n ++ rest) k other
          (omega arith) (omega arith) refl
        ∙ run
        ∙ ap (λ n. some (n, step h (back_line o) m)) (omega arith))

  Does-extended :
      (i : Instruction) (opcode : ℕ) (op : LineNumberXOp) (operands : List ℕ)
      → encode h i ≡ extended opcode operands
      → 1 < h.opcode_base
      → suc (length operands) < 128
      → 0 < opcode
      → get_elem? line_number_x_ops (opcode - 1) ≡ some op
      → execute_extended h op (operands ++ rest) m ≡ some (step h i m)
      → Does h i rest m
  unfolding extended
  Does-extended i opcode op operands bytes base small pos found run = rw bytes (
      runs_extended h m (suc (length operands)) opcode op (operands ++ rest) (step h i m) base small
        pos found run
      ∙ ap (λ n. some (n, step h i m)) (omega arith))

  forward_runs :
      (o : Operand)
      → IsOperand o
      → o.value < 64 * 128 ^ o.more
      → execute_standard h LineNumberOp.advance_line 1 (operand_bytes o ++ rest) m
        ≡ some (1 + (o.more + 1), step h (forward_line o) m)
  unfolding execute_standard step change
  forward_runs o ok low =
      let fits : (ltb o.value (2 ^ 31) || leb (2 ^ 64 - 2 ^ 31) o.value) ≡ true = ground arith in
      let same : o.value % 2 ^ 32 ≡ o.value = omega (arith, ok.small) in
      rw (get_signed-operand o rest ok low, fits, same) refl

  const_runs :
      0 < h.line_range
      → (255 - h.opcode_base) / h.line_range * h.min_insn_length < 2 ^ 16
      → execute_standard h LineNumberOp.const_add_pc 0 rest m ≡ some (1, step h const_add_pc m)
  unfolding execute_standard step change move_address
  const_runs range small =
      let n = (255 - h.opcode_base) / h.line_range in
      let divides : (h.line_range == 0) ≡ false = ground arith in
      let same : n * h.min_insn_length % 2 ^ 16 ≡ h.min_insn_length * n =
        omega (arith, mul_comm n h.min_insn_length) in
      rw (divides, same) refl

  discriminator_runs :
      (o : Operand)
      → IsOperand o
      → execute_extended h LineNumberXOp.set_discriminator_op (operand_bytes o ++ rest) m
        ≡ some (step h (set_discriminator o) m)
  unfolding execute_extended step change
  discriminator_runs o ok =
      let same : o.value % 2 ^ 32 ≡ o.value = omega (arith, ok.small) in
      rw (get_leb128-operand o rest ok, same) refl

above : {n : ℕ} → 0 < n → 1 ≢ n → 1 < n
above pos other = omega (arith, pos, other)

-- On the bytes of an encodable and handled instruction, whatever follows them, the machine does what the
-- instruction says and goes on behind them.
pub execute_instruction-encode :
    (h : Header) (i : Instruction) (rest : List ℕ) (m : Machine)
    → IsEncodable h i
    → IsHandled h i
    → Does h i rest m
unfolding IsEncodable IsHandled step change encode execute_standard execute_extended emit_row
    move_address
execute_instruction-encode h (special adjusted) rest m ok d = Does-special h m rest adjusted ok
execute_instruction-encode h copy rest m ok d =
    Does-plain h m rest copy 1 LineNumberOp.copy refl ok (d 1 refl) (omega arith) (omega arith) refl
      refl
execute_instruction-encode h (advance_pc o) rest m (k, ok) d =
    Does-operand h m rest (advance_pc o) o 2 LineNumberOp.advance_pc refl k (d 2 refl) (omega arith)
      (omega arith) refl (rw (get_leb128-operand o rest ok) refl)
execute_instruction-encode h (forward_line o) rest m (k, ok, low) d =
    Does-operand h m rest (forward_line o) o 3 LineNumberOp.advance_line refl k (d 3 refl)
      (omega arith) (omega arith) refl (forward_runs h m rest o ok low)
execute_instruction-encode h (back_line o) rest m ok d = Does-back_line h m rest o ok (d 3 refl)
execute_instruction-encode h (set_file o) rest m (k, ok) d =
    Does-operand h m rest (set_file o) o 4 LineNumberOp.set_file refl k (d 4 refl) (omega arith)
      (omega arith) refl (rw (get_operand-operand o rest ok) refl)
execute_instruction-encode h (set_column o) rest m (k, ok) d =
    Does-operand h m rest (set_column o) o 5 LineNumberOp.set_column refl k (d 5 refl) (omega arith)
      (omega arith) refl (rw (get_operand-operand o rest ok) refl)
execute_instruction-encode h (set_isa o) rest m (k, ok) d =
    Does-operand h m rest (set_isa o) o 12 LineNumberOp.set_isa refl k (d 12 refl) (omega arith)
      (omega arith) refl (rw (get_operand-operand o rest ok) refl)
execute_instruction-encode h negate_stmt rest m ok d =
    Does-plain h m rest negate_stmt 6 LineNumberOp.negate_stmt refl ok (d 6 refl) (omega arith)
      (omega arith) refl refl
execute_instruction-encode h set_basic_block rest m ok d =
    Does-plain h m rest set_basic_block 7 LineNumberOp.set_basic_block refl ok (d 7 refl)
      (omega arith) (omega arith) refl refl
execute_instruction-encode h const_add_pc rest m (k, range, small) d =
    Does-plain h m rest const_add_pc 8 LineNumberOp.const_add_pc refl k (d 8 refl) (omega arith)
      (omega arith) refl (const_runs h m rest range small)
execute_instruction-encode h (fixed_advance_pc n) rest m (k, small) d = rw (length-le_bytes 2 n) (
    runs_standard h m 9 1 LineNumberOp.fixed_advance_pc (le_bytes 2 n ++ rest) k (d 9 refl)
      (omega arith) (omega arith) refl
    ∙ (rw (get_uint-le_bytes 2 n rest small) refl))
execute_instruction-encode h set_prologue_end rest m ok d =
    Does-plain h m rest set_prologue_end 10 LineNumberOp.set_prologue_end refl ok (d 10 refl)
      (omega arith) (omega arith) refl refl
execute_instruction-encode h set_epilogue_begin rest m ok d =
    Does-plain h m rest set_epilogue_begin 11 LineNumberOp.set_epilogue_begin refl ok (d 11 refl)
      (omega arith) (omega arith) refl refl
execute_instruction-encode h end_sequence rest m ok d =
    Does-extended h m rest end_sequence 1 LineNumberXOp.end_sequence_op [] refl
      (above ok (d 0 refl)) (omega arith) (omega arith) refl refl
execute_instruction-encode h (set_address n) rest m (base, size, small) d =
    let valid : (h.address_size == 4 || h.address_size == 8) ≡ true = ground arith in
    let short : h.address_size ≤ 8 = ground arith in
    Does-extended h m rest (set_address n) 2 LineNumberXOp.set_address_op
      (le_bytes h.address_size n) refl (above base (d 0 refl))
      (omega (arith, length-le_bytes h.address_size n)) (omega arith) refl
      (rw (valid, get_uint-le_bytes h.address_size n rest small) refl)
execute_instruction-encode h (define_file name dir time size) rest m (base, hn, hd, ht, hs, small)
      d =
    Does-extended h m rest (define_file name dir time size) 3 LineNumberXOp.define_file_op
      (file_bytes name dir time size) refl (above base (d 0 refl)) (omega arith) (omega arith) refl
      (rw (get_file_name-file_bytes name dir time size rest hn hd ht hs) refl)
execute_instruction-encode h (set_discriminator o) rest m (base, ok) d =
    Does-extended h m rest (set_discriminator o) 4 LineNumberXOp.set_discriminator_op
      (operand_bytes o) refl (above base (d 0 refl)) (omega (arith, length-operand o, ok.short))
      (omega arith) refl (discriminator_runs h m rest o ok)
