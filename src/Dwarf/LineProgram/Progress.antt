-- ===== src/Dwarf/LineProgram/Progress.antt =====
-- On any bytes: each instruction has a byte at least, and takes back no row and no file name.
use mathlib.Core.List.{append-nil, append_assoc}
use pebil.Common.{
  Allows, fails, gives, Allows-bind, Allows-map, Allows-if, ℕ, ◌+◌, ◌-◌, ◌≤◌, ◌≡◌, refl, sym, ap,
  ◌∙◌, List, [], ◌∷◌, ◌++◌, ◌==◌, get_elem?, ltb, ensure, arith, not,
}
use pebil.Dwarf.Leb128.{get_leb128_unsigned, get_leb128_signed}
use pebil.Dwarf.LineProgram.{
  get_operand, get_uint, get_file_name, line_number_ops, line_number_x_ops, Header, Registers,
  FileName, Machine, LineNumberOp, LineNumberXOp, execute_standard, execute_standard_opcode,
  execute_extended, execute_extended_opcode, execute_special_opcode, execute_instruction,
}
use pebil.Dwarf.LineProgram.{
  extended_op, copy, advance_pc, advance_line, set_file, set_column, negate_stmt, set_basic_block,
  const_add_pc, fixed_advance_pc, set_prologue_end, set_epilogue_begin, set_isa, end_sequence_op,
  set_address_op, define_file_op, set_discriminator_op,
}

-- `n` has the rows and file names of `m`, in their order, and then perhaps more.
pub record Extends (m n : Machine) : Type 0 where
  pub new_rows : List Registers
  pub rows_kept : n.rows ≡ m.rows ++ new_rows
  pub new_names : List FileName
  pub names_kept : n.file_names ≡ m.file_names ++ new_names

pub unchanged : {m n : Machine} → n.rows ≡ m.rows → n.file_names ≡ m.file_names → Extends m n
unchanged {m} e f = record {
  new_rows = [];
  rows_kept = e ∙ sym (append-nil m.rows);
  new_names = [];
  names_kept = f ∙ sym (append-nil m.file_names);
}

one_row :
    {m n : Machine} (r : Registers)
    → n.rows ≡ m.rows ++ (r ∷ [])
    → n.file_names ≡ m.file_names
    → Extends m n
one_row {m} r e f = record {
  new_rows = r ∷ [];
  rows_kept = e;
  new_names = [];
  names_kept = f ∙ sym (append-nil m.file_names);
}

one_name :
    {m n : Machine} (f : FileName)
    → n.rows ≡ m.rows
    → n.file_names ≡ m.file_names ++ (f ∷ [])
    → Extends m n
one_name {m} f e g = record {
  new_rows = [];
  rows_kept = e ∙ sym (append-nil m.rows);
  new_names = f ∷ [];
  names_kept = g;
}

pub Extends-trans : {m n o : Machine} → Extends m n → Extends n o → Extends m o
Extends-trans {m} a b = record {
  new_rows = a.new_rows ++ b.new_rows;
  rows_kept =
      b.rows_kept
      ∙ ap (λ t. t ++ b.new_rows) a.rows_kept
      ∙ append_assoc m.rows a.new_rows b.new_rows;
  new_names = a.new_names ++ b.new_names;
  names_kept =
      b.names_kept
      ∙ ap (λ t. t ++ b.new_names) a.names_kept
      ∙ append_assoc m.file_names a.new_names b.new_names;
}

-- A step of the machine.
abbrev pub Goes : Machine → ℕ × Machine → Type 0
Goes m r = (1 ≤ r.0) × Extends m r.1

module _ (h : Header) (m : Machine) where
  execute_special_opcode-Goes : (opcode : ℕ) → Allows (Goes m) (execute_special_opcode h opcode m)
  unfolding execute_special_opcode
  execute_special_opcode-Goes opcode =
      Allows-bind (ensure _) (λ _. gives _ (omega arith, one_row _ refl refl))

  execute_standard-Goes :
      (op : LineNumberOp) (number : ℕ) (ptr : List ℕ)
      → Allows (Goes m) (execute_standard h op number ptr m)
  unfolding execute_standard
  execute_standard-Goes extended_op number ptr = fails
  execute_standard-Goes copy number ptr =
      Allows-bind (ensure _) (λ _. gives _ (omega arith, one_row _ refl refl))
  execute_standard-Goes advance_pc number ptr =
      Allows-bind (ensure _) (λ _.
        Allows-bind (get_leb128_unsigned ptr) (λ r. gives _ (omega arith, unchanged refl refl)))
  execute_standard-Goes advance_line number ptr = Allows-bind (ensure _) (λ _.
      Allows-bind (get_leb128_signed ptr)
        (λ r. Allows-bind (ensure _) (λ _. gives _ (omega arith, unchanged refl refl))))
  execute_standard-Goes set_file number ptr =
      Allows-bind (ensure _)
        (λ _. Allows-bind (get_operand ptr) (λ r. gives _ (omega arith, unchanged refl refl)))
  execute_standard-Goes set_column number ptr =
      Allows-bind (ensure _)
        (λ _. Allows-bind (get_operand ptr) (λ r. gives _ (omega arith, unchanged refl refl)))
  execute_standard-Goes negate_stmt number ptr =
      Allows-bind (ensure _) (λ _. gives _ (omega arith, unchanged refl refl))
  execute_standard-Goes set_basic_block number ptr =
      Allows-bind (ensure _) (λ _. gives _ (omega arith, unchanged refl refl))
  execute_standard-Goes const_add_pc number ptr = Allows-bind (ensure _) (λ _.
      Allows-bind (ensure (not (h.line_range == 0)))
        (λ _. gives _ (omega arith, unchanged refl refl)))
  execute_standard-Goes fixed_advance_pc number ptr =
      Allows-bind (ensure _)
        (λ _. Allows-bind (get_uint 2 ptr) (λ r. gives _ (omega arith, unchanged refl refl)))
  execute_standard-Goes set_prologue_end number ptr =
      Allows-bind (ensure _) (λ _. gives _ (omega arith, unchanged refl refl))
  execute_standard-Goes set_epilogue_begin number ptr =
      Allows-bind (ensure _) (λ _. gives _ (omega arith, unchanged refl refl))
  execute_standard-Goes set_isa number ptr =
      Allows-bind (ensure _)
        (λ _. Allows-bind (get_operand ptr) (λ r. gives _ (omega arith, unchanged refl refl)))

  execute_standard_opcode-Goes :
      (opcode : ℕ) (ptr : List ℕ) → Allows (Goes m) (execute_standard_opcode h opcode ptr m)
  unfolding execute_standard_opcode
  execute_standard_opcode-Goes opcode ptr = Allows-bind (ensure _) (λ _.
      Allows-bind (get_elem? h.opcodes (opcode - 1)) (λ number.
        Allows-bind (get_elem? line_number_ops opcode) (λ op. execute_standard-Goes op number ptr)))

  execute_extended-Extends :
      (op : LineNumberXOp) (ptr : List ℕ) → Allows (Extends m) (execute_extended h op ptr m)
  unfolding execute_extended
  execute_extended-Extends end_sequence_op ptr = gives _ (one_row _ refl refl)
  execute_extended-Extends set_address_op ptr =
      Allows-bind (ensure _)
        (λ _. Allows-bind (get_uint h.address_size ptr) (λ a. gives _ (unchanged refl refl)))
  execute_extended-Extends define_file_op ptr =
      Allows-bind (get_file_name ptr) (λ file. gives _ (one_name file.0 refl refl))
  execute_extended-Extends set_discriminator_op ptr =
      Allows-bind (get_leb128_unsigned ptr) (λ r. gives _ (unchanged refl refl))

  execute_extended_opcode-Goes : (ptr : List ℕ) → Allows (Goes m) (execute_extended_opcode h ptr m)
  unfolding execute_extended_opcode
  execute_extended_opcode-Goes [] = fails
  execute_extended_opcode-Goes (size ∷ []) = fails
  execute_extended_opcode-Goes (size ∷ opcode ∷ ptr) = Allows-bind (ensure (ltb size 128)) (λ _.
      Allows-bind (ensure (ltb 0 opcode)) (λ _.
        Allows-bind (get_elem? line_number_x_ops (opcode - 1)) (λ op.
          Allows-map (λ x. (2 + size, x)) (execute_extended-Extends op ptr)
            (λ r e. (omega arith, e)))))

  pub execute_instruction-Goes : (ptr : List ℕ) → Allows (Goes m) (execute_instruction h ptr m)
  unfolding execute_instruction
  execute_instruction-Goes [] = fails
  execute_instruction-Goes (opcode ∷ ptr) =
      Allows-if (ltb opcode (h.opcode_base - 1))
        (Allows-if (opcode == 0) (execute_extended_opcode-Goes ptr)
          (execute_standard_opcode-Goes opcode ptr))
        (execute_special_opcode-Goes opcode)
