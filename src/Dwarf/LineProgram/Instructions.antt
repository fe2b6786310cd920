-- ===== src/Dwarf/LineProgram/Instructions.antt =====
-- The instructions of a line number program as DWARF describes them: how each is encoded, what it may
-- hold, and what it does to the line table.
use pebil.Common.{
  ℕ, suc, ◌+◌, ◌-◌, ◌*◌, ◌/◌, ◌%◌, ◌^◌, ◌≤◌, ◌<◌, ◌≡◌, ◌≢◌, ◌⊎◌, Option, none, some, List, [], ◌∷◌,
  ◌++◌, ◌==◌, if◌then◌else◌, get_elem?, length,
}
use pebil.X86.Bytes.{le_bytes}
use pebil.Dwarf.Leb128.Laws.{leb_bytes}
use pebil.Dwarf.LineProgram.{Header, Registers, Machine, defaults}

-- An unsigned LEB128 operand: its value, and how many bytes it has beside the last.
pub record Operand : Type 0 where
  pub value : ℕ
  pub more : ℕ

unfoldable pub operand_bytes : Operand → List ℕ
operand_bytes o = leb_bytes o.more o.value

-- The operands that `dwarf4_get_leb128_unsigned` reads.
pub record IsOperand (o : Operand) : Type 0 where
  pub short : o.more ≤ 4
  pub fits : o.value < 128 ^ suc o.more
  pub small : o.value < 2 ^ 31

pub data Instruction : Type 0 where
  special : ℕ → Instruction
  copy : Instruction
  advance_pc : Operand → Instruction
  forward_line back_line : Operand → Instruction
  set_file set_column set_isa : Operand → Instruction
  negate_stmt set_basic_block const_add_pc : Instruction
  fixed_advance_pc : ℕ → Instruction
  set_prologue_end set_epilogue_begin : Instruction
  end_sequence : Instruction
  set_address : ℕ → Instruction
  define_file : (name : List ℕ) (dir time size : Operand) → Instruction
  set_discriminator : Operand → Instruction

-- An extended instruction: 0, the size, the opcode and the operands.
unfoldable pub extended : ℕ → List ℕ → List ℕ
extended opcode operands = 0 ∷ suc (length operands) ∷ opcode ∷ operands

unfoldable pub file_bytes : List ℕ → Operand → Operand → Operand → List ℕ
file_bytes name dir time size =
    name ++ (0 ∷ operand_bytes dir ++ (operand_bytes time ++ operand_bytes size))

-- A special instruction is named by its adjusted opcode.
unfoldable pub encode : Header → Instruction → List ℕ
encode h (special adjusted) = (h.opcode_base + adjusted) ∷ []
encode h copy = 1 ∷ []
encode h (advance_pc o) = 2 ∷ operand_bytes o
encode h (forward_line o) = 3 ∷ operand_bytes o
encode h (back_line o) = 3 ∷ leb_bytes o.more (128 ^ suc o.more - o.value)
encode h (set_file o) = 4 ∷ operand_bytes o
encode h (set_column o) = 5 ∷ operand_bytes o
encode h negate_stmt = 6 ∷ []
encode h set_basic_block = 7 ∷ []
encode h const_add_pc = 8 ∷ []
encode h (fixed_advance_pc n) = 9 ∷ le_bytes 2 n
encode h set_prologue_end = 10 ∷ []
encode h set_epilogue_begin = 11 ∷ []
encode h (set_isa o) = 12 ∷ operand_bytes o
encode h end_sequence = extended 1 []
encode h (set_address n) = extended 2 (le_bytes h.address_size n)
encode h (define_file name dir time size) = extended 3 (file_bytes name dir time size)
encode h (set_discriminator o) = extended 4 (operand_bytes o)

-- The header gives the standard opcode, with as many operands as DWARF gives it: by DWARF, the standard
-- opcodes are those below opcode_base.
pub record Knows (h : Header) (opcode operands : ℕ) : Type 0 where
  pub below : opcode < h.opcode_base
  pub known : get_elem? h.opcodes (opcode - 1) ≡ some operands

pub data AllNonzero : List ℕ → Type 0 where
  no_chars : AllNonzero []
  one_char : (c : ℕ) (cs : List ℕ) → AllNonzero cs → AllNonzero (suc c ∷ cs)

-- What an instruction may hold.
unfoldable pub IsEncodable : Header → Instruction → Type 0
IsEncodable h (special adjusted) =
    (0 < h.opcode_base)
    × (h.opcode_base + adjusted < 256)
    × (h.line_base < 256)
    × (0 < h.line_range)
    × (adjusted / h.line_range * h.min_insn_length < 2 ^ 15)
IsEncodable h copy = Knows h 1 0
IsEncodable h (advance_pc o) = Knows h 2 1 × IsOperand o
IsEncodable h (forward_line o) = Knows h 3 1 × IsOperand o × (o.value < 64 * 128 ^ o.more)
IsEncodable h (back_line o) =
    Knows h 3 1 × (o.more < 4) × (0 < o.value) × (o.value ≤ 64 * 128 ^ o.more)
IsEncodable h (set_file o) = Knows h 4 1 × IsOperand o
IsEncodable h (set_column o) = Knows h 5 1 × IsOperand o
IsEncodable h negate_stmt = Knows h 6 0
IsEncodable h set_basic_block = Knows h 7 0
IsEncodable h const_add_pc =
    Knows h 8 0
    × (0 < h.line_range)
    × ((255 - h.opcode_base) / h.line_range * h.min_insn_length < 2 ^ 16)
IsEncodable h (fixed_advance_pc n) = Knows h 9 1 × (n < 2 ^ 16)
IsEncodable h set_prologue_end = Knows h 10 0
IsEncodable h set_epilogue_begin = Knows h 11 0
IsEncodable h (set_isa o) = Knows h 12 1 × IsOperand o
IsEncodable h end_sequence = 0 < h.opcode_base
IsEncodable h (set_address n) =
    (0 < h.opcode_base) × ((h.address_size ≡ 4) ⊎ (h.address_size ≡ 8)) × (n < 256 ^ h.address_size)
IsEncodable h (define_file name dir time size) =
    (0 < h.opcode_base)
    × AllNonzero name
    × IsOperand dir
    × IsOperand time
    × IsOperand size
    × (length (file_bytes name dir time size) < 127)
IsEncodable h (set_discriminator o) = (0 < h.opcode_base) × IsOperand o

-- The opcode of a standard instruction, and 0 for an extended one.
unfoldable pub opcode_number : Instruction → Option ℕ
opcode_number (special adjusted) = none
opcode_number copy = some 1
opcode_number (advance_pc o) = some 2
opcode_number (forward_line o) = some 3
opcode_number (back_line o) = some 3
opcode_number (set_file o) = some 4
opcode_number (set_column o) = some 5
opcode_number negate_stmt = some 6
opcode_number set_basic_block = some 7
opcode_number const_add_pc = some 8
opcode_number (fixed_advance_pc n) = some 9
opcode_number set_prologue_end = some 10
opcode_number set_epilogue_begin = some 11
opcode_number (set_isa o) = some 12
opcode_number end_sequence = some 0
opcode_number (set_address n) = some 0
opcode_number (define_file name dir time size) = some 0
opcode_number (set_discriminator o) = some 0

-- The instruction does not have the last opcode before opcode_base, which the machine takes for a special
-- one although DWARF does not.
unfoldable pub IsHandled : Header → Instruction → Type 0
unfolding opcode_number
IsHandled h i = (n : ℕ) → opcode_number i ≡ some n → suc n ≢ h.opcode_base

-- A row is the registers; the flags of one row do not last to the next.
unfoldable pub emit_row : Registers → Machine → Machine
emit_row r m = record {
  registers = record {
    address = r.address;
    op_index = r.op_index;
    file = r.file;
    line = r.line;
    column = r.column;
    isa = r.isa;
    discriminator = 0;
    is_stmt = r.is_stmt;
    basic_block = 0;
    end_sequence = r.end_sequence;
    prologue_end = 0;
    epilogue_begin = 0;
  };
  rows = m.rows ++ (r ∷ []);
  file_names = m.file_names;
}

unfoldable pub move_address : ℕ → Registers → Registers
move_address n r = record r { address = (r.address + n) % 2 ^ 64 }

-- li_line_base is signed: from 128 on, the byte stands for itself less 256.
unfoldable pub move_line : Header → ℕ → Registers → Registers
move_line h n r = record r {
  line =
      if h.line_base / 128 == 0
      then (r.line + h.line_base + n) % 2 ^ 32
      else (r.line + n + (2 ^ 32 - (256 - h.line_base))) % 2 ^ 32;
}

unfoldable pub change : (Registers → Registers) → Machine → Machine
change f m = record m { registers = f m.registers }

unfoldable pub step : Header → Instruction → Machine → Machine
unfolding emit_row move_address move_line change
step h (special adjusted) m =
    emit_row
      (move_line h (adjusted % h.line_range)
        (move_address (h.min_insn_length * (adjusted / h.line_range)) m.registers))
      m
step h copy m = emit_row m.registers m
step h (advance_pc o) m = change (move_address (h.min_insn_length * o.value)) m
step h (forward_line o) m = change (λ r. record r { line = (r.line + o.value) % 2 ^ 32 }) m
step h (back_line o) m = change (λ r. record r { line = (r.line + (2 ^ 32 - o.value)) % 2 ^ 32 }) m
step h (set_file o) m = change (λ r. record r { file = o.value }) m
step h (set_column o) m = change (λ r. record r { column = o.value }) m
step h negate_stmt m = change (λ r. record r { is_stmt = if r.is_stmt == 0 then 1 else 0 }) m
step h set_basic_block m = change (λ r. record r { basic_block = 1 }) m
step h const_add_pc m =
    change (move_address (h.min_insn_length * ((255 - h.opcode_base) / h.line_range))) m
step h (fixed_advance_pc n) m = change (move_address n) m
step h set_prologue_end m = change (λ r. record r { prologue_end = 1 }) m
step h set_epilogue_begin m = change (λ r. record r { epilogue_begin = 1 }) m
step h (set_isa o) m = change (λ r. record r { isa = o.value }) m
step h end_sequence m = record m {
  registers = defaults h;
  rows = m.rows ++ (record m.registers { end_sequence = 1 } ∷ []);
}
step h (set_address n) m = change (λ r. record r { address = n }) m
step h (define_file name dir time size) m = record m {
  file_names =
      m.file_names
      ++ (record { name = name; dir_index = dir.value; mod_time = time.value; size = size.value }
          ∷ []);
}
step h (set_discriminator o) m = change (λ r. record r { discriminator = o.value }) m
