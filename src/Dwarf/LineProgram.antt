-- ===== src/Dwarf/LineProgram.antt =====
-- src/LineInformation.C, `LineInfoTable`: the machine that runs a line number program. `none` is a
-- failed ASSERT, a PRINT_ERROR, a read behind the section, or arithmetic that C++ does not define.
pub mod Instructions
pub mod Operands
pub mod Refines
pub mod Progress
pub mod Programs
use pebil.Common.{
  ℕ, zero, suc, ◌+◌, ◌-◌, ◌*◌, ◌/◌, ◌%◌, ◌^◌, Bool, true, false, not, ◌&&◌, ◌||◌, Option, none,
  some, List, [], ◌∷◌, ◌++◌, ltb, leb, ◌==◌, if◌then◌else◌, ensure, ◌>>=◌, ◌>>◌, get_elem?, drop,
  length,
}
use pebil.Dwarf.Leb128.{get_leb128_unsigned, get_leb128_signed}

-- The fields of the table's header that the machine reads, `opcodes`, and getAddressSize. li_line_base,
-- an int8_t, is its byte.
pub record Header : Type 0 where
  pub min_insn_length : ℕ
  pub default_is_stmt : ℕ
  pub line_base : ℕ
  pub line_range : ℕ
  pub opcode_base : ℕ
  pub opcodes : List ℕ
  pub address_size : ℕ

-- DWARF4_LineInfo_Registers
pub record Registers : Type 0 where
  pub address : ℕ
  pub op_index : ℕ
  pub file : ℕ
  pub line : ℕ
  pub column : ℕ
  pub isa : ℕ
  pub discriminator : ℕ
  pub is_stmt : ℕ
  pub basic_block : ℕ
  pub end_sequence : ℕ
  pub prologue_end : ℕ
  pub epilogue_begin : ℕ

-- DWARF4_FileName; a name is the string that fn_name points to.
pub record FileName : Type 0 where
  pub name : List ℕ
  pub dir_index : ℕ
  pub mod_time : ℕ
  pub size : ℕ

-- registers, lineInformations and fileNames
pub record Machine : Type 0 where
  pub registers : Registers
  pub rows : List Registers
  pub file_names : List FileName

-- initializeWithDefaults
abbrev pub defaults : Header → Registers
defaults h = record {
  address = 0;
  op_index = 0;
  file = 1;
  line = 1;
  column = 0;
  isa = 0;
  discriminator = 0;
  is_stmt = h.default_is_stmt;
  basic_block = 0;
  end_sequence = 0;
  prologue_end = 0;
  epilogue_begin = 0;
}

-- The row keeps the registers; the machine goes on with a copy.
abbrev pub append_row_to_matrix : Machine → Machine
append_row_to_matrix m = record m { rows = m.rows ++ (m.registers ∷ []) }

abbrev pub set_registers : (Registers → Registers) → Machine → Machine
set_registers f m = record m { registers = f m.registers }

abbrev pub clear_flags : Registers → Registers
clear_flags r = record r {
  basic_block = 0;
  prologue_end = 0;
  epilogue_begin = 0;
  discriminator = 0;
}

abbrev pub increment_address : ℕ → Registers → Registers
increment_address n r = record r { address = (r.address + n) % 2 ^ 64 }

abbrev pub increment_line : ℕ → Registers → Registers
increment_line n r = record r { line = (r.line + n) % 2 ^ 32 }

-- int8_t as an addend of a uint32_t, and int16_t as an addend of a uint64_t.
abbrev pub from_int8 : ℕ → ℕ
from_int8 b = if ltb b (2 ^ 7) then b else b + 2 ^ 32 - 2 ^ 8

abbrev pub from_int16 : ℕ → ℕ
from_int16 n = if ltb (n % 2 ^ 16) (2 ^ 15) then n % 2 ^ 16 else n % 2 ^ 16 + 2 ^ 64 - 2 ^ 16

-- Each function returns the size of the instruction too.
unfoldable pub execute_special_opcode : Header → ℕ → Machine → Option (ℕ × Machine)
execute_special_opcode h opcode m = do
  let adjusted_opcode = (opcode + 256 - h.opcode_base) % 256
  ensure (not (h.line_range == 0))
  let addr_inc = from_int16 (adjusted_opcode / h.line_range * h.min_insn_length)
  let line_inc = from_int8 h.line_base + adjusted_opcode % h.line_range
  let r = increment_line line_inc (increment_address addr_inc m.registers)
  some (1, set_registers clear_flags (append_row_to_matrix (set_registers (λ _. r) m)))

-- dwarf_line_number_ops, in the order of its numbers.
pub data LineNumberOp : Type 0 where
  extended_op copy advance_pc advance_line set_file set_column negate_stmt set_basic_block
        const_add_pc fixed_advance_pc set_prologue_end set_epilogue_begin set_isa :
      LineNumberOp

abbrev pub line_number_ops : List LineNumberOp
line_number_ops =
    extended_op ∷ copy ∷ advance_pc ∷ advance_line ∷ set_file ∷ set_column ∷ negate_stmt
    ∷ set_basic_block ∷ const_add_pc ∷ fixed_advance_pc ∷ set_prologue_end ∷ set_epilogue_begin
    ∷ set_isa ∷ []

-- getUInt16, getUInt32 and getUInt64, on a little-endian machine.
unfoldable pub get_uint : ℕ → List ℕ → Option ℕ
get_uint zero ptr = some 0
get_uint (suc n) [] = none
get_uint (suc n) (b ∷ ptr) = get_uint n ptr >>= λ high. some (b + 256 * high)

-- An operand that has to fit in 32 bits.
unfoldable pub get_operand : List ℕ → Option (ℕ × ℕ)
get_operand ptr = do r ← get_leb128_unsigned ptr; ensure (ltb r.0 (2 ^ 32)); some r

-- The `switch`. `number` is numberOfOperands, `ptr` is instruction + 1.
unfoldable pub execute_standard :
    Header → LineNumberOp → ℕ → List ℕ → Machine → Option (ℕ × Machine)
unfolding get_uint get_operand
execute_standard h extended_op number ptr m = none
execute_standard h copy number ptr m = do
  ensure (number == 0)
  some (1, set_registers clear_flags (append_row_to_matrix m))
execute_standard h advance_pc number ptr m = do
  ensure (number == 1)
  r ← get_leb128_unsigned ptr
  some (1 + r.1, set_registers (increment_address (h.min_insn_length * r.0)) m)
execute_standard h advance_line number ptr m = do
  ensure (number == 1)
  r ← get_leb128_signed ptr
  ensure (ltb r.0 (2 ^ 31) || leb (2 ^ 64 - 2 ^ 31) r.0)
  some (1 + r.1, set_registers (increment_line (r.0 % 2 ^ 32)) m)
execute_standard h set_file number ptr m = do
  ensure (number == 1)
  r ← get_operand ptr
  some (1 + r.1, set_registers (λ s. record s { file = r.0 }) m)
execute_standard h set_column number ptr m = do
  ensure (number == 1)
  r ← get_operand ptr
  some (1 + r.1, set_registers (λ s. record s { column = r.0 }) m)
execute_standard h negate_stmt number ptr m = do
  ensure (number == 0)
  some (1, set_registers (λ s. record s { is_stmt = if s.is_stmt == 0 then 1 else 0 }) m)
execute_standard h set_basic_block number ptr m = do
  ensure (number == 0)
  some (1, set_registers (λ s. record s { basic_block = 1 }) m)
execute_standard h const_add_pc number ptr m = do
  ensure (number == 0)
  ensure (not (h.line_range == 0))
  let addr16 = (255 - h.opcode_base) / h.line_range * h.min_insn_length % 2 ^ 16
  some (1, set_registers (increment_address addr16) m)
execute_standard h fixed_advance_pc number ptr m = do
  ensure (number == 1)
  addr16 ← get_uint 2 ptr
  some (3, set_registers (increment_address addr16) m)
execute_standard h set_prologue_end number ptr m = do
  ensure (number == 0)
  some (1, set_registers (λ s. record s { prologue_end = 1 }) m)
execute_standard h set_epilogue_begin number ptr m = do
  ensure (number == 0)
  some (1, set_registers (λ s. record s { epilogue_begin = 1 }) m)
execute_standard h set_isa number ptr m = do
  ensure (number == 1)
  r ← get_operand ptr
  some (1 + r.1, set_registers (λ s. record s { isa = r.0 }) m)

-- The instruction is a char, so `instruction[0] - 1` is no index where it is negative.
unfoldable pub execute_standard_opcode : Header → ℕ → List ℕ → Machine → Option (ℕ × Machine)
execute_standard_opcode h opcode ptr m = do
  ensure (ltb opcode 128)
  number ← get_elem? h.opcodes (opcode - 1)
  op ← get_elem? line_number_ops opcode
  execute_standard h op number ptr m

-- A string, and what stands behind its end.
unfoldable pub get_string : List ℕ → Option (List ℕ × List ℕ)
get_string [] = none
get_string (c ∷ ptr) =
    let rest = get_string ptr in
    if c == 0 then some ([], ptr) else rest >>= λ r. some (c ∷ r.0, r.1)

-- A name and its three numbers, and what stands behind them.
unfoldable pub get_file_name : List ℕ → Option (FileName × List ℕ)
unfolding get_string
get_file_name ptr = do
  s ← get_string ptr
  dir ← get_leb128_unsigned s.1
  let time_ptr = drop dir.1 s.1
  time ← get_leb128_unsigned time_ptr
  let size_ptr = drop time.1 time_ptr
  size ← get_leb128_unsigned size_ptr
  let file : FileName = record { name = s.0; dir_index = dir.0; mod_time = time.0; size = size.0 }
  some (file, drop size.1 size_ptr)

-- dwarf_line_number_x_ops
pub data LineNumberXOp : Type 0 where
  end_sequence_op set_address_op define_file_op set_discriminator_op : LineNumberXOp

abbrev pub line_number_x_ops : List LineNumberXOp
line_number_x_ops = end_sequence_op ∷ set_address_op ∷ define_file_op ∷ set_discriminator_op ∷ []

-- The `switch` of executeExtendedOpcode; `ptr` is instruction + nextOperand.
unfoldable pub execute_extended : Header → LineNumberXOp → List ℕ → Machine → Option Machine
unfolding get_uint get_file_name
execute_extended h end_sequence_op ptr m =
    let ended = set_registers (λ s. record s { end_sequence = 1 }) m in
    some (set_registers (λ _. defaults h) (append_row_to_matrix ended))
execute_extended h set_address_op ptr m = do
  ensure (h.address_size == 4 || h.address_size == 8)
  addr ← get_uint h.address_size ptr
  some (set_registers (λ s. record s { address = addr }) m)
execute_extended h define_file_op ptr m = do
  file ← get_file_name ptr
  some (record m { file_names = m.file_names ++ (file.0 ∷ []) })
execute_extended h set_discriminator_op ptr m = do
  r ← get_leb128_unsigned ptr
  some (set_registers (λ s. record s { discriminator = r.0 % 2 ^ 32 }) m)

-- `ptr` is instruction + 1.
unfoldable pub execute_extended_opcode : Header → List ℕ → Machine → Option (ℕ × Machine)
execute_extended_opcode h (size ∷ opcode ∷ ptr) m = do
  ensure (ltb size 128)
  ensure (ltb 0 opcode)
  op ← get_elem? line_number_x_ops (opcode - 1)
  r ← execute_extended h op ptr m
  some (2 + size, r)
execute_extended_opcode h ptr m = none

unfoldable pub execute_instruction : Header → List ℕ → Machine → Option (ℕ × Machine)
execute_instruction h [] m = none
execute_instruction h (opcode ∷ ptr) m =
    if ltb opcode (h.opcode_base - 1)
    then (if opcode == 0
        then execute_extended_opcode h ptr m
        else execute_standard_opcode h opcode ptr m)
    else execute_special_opcode h opcode m

-- The last loop of `read`: `left` is sizeInBytes - currByte, which has to reach 0 exactly. `ptr` is
-- the rest of the section. On fuel; each instruction has a byte, so `left + 1` is enough.
unfoldable pub run : ℕ → Header → ℕ → List ℕ → Machine → Option Machine
run zero h left ptr m = none
run (suc fuel) h left ptr m = elim (left == 0) [
  | true ↦ some m
  | false ↦ execute_instruction h ptr m >>= λ r.
      ensure (leb r.0 left) >> run fuel h (left - r.0) (drop r.0 ptr) r.1
]

-- `names` is the table of file names that stands in front of the program.
unfoldable pub run_program : Header → List FileName → ℕ → List ℕ → Option Machine
run_program h names left ptr =
    run (left + 1) h left ptr (record { registers = defaults h; rows = []; file_names = names })
