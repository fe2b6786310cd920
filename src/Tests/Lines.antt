-- ===== src/Tests/Lines.antt =====
-- LEB128 numbers and a line number program.
use pebil.Common.{
  ℕ, false, suc, ◌+◌, ◌-◌, ◌^◌, ◌<◌, ◌≡◌, refl, some, inr, List, [], ◌∷◌, ◌++◌, length, arith,
}
use pebil.Dwarf.Leb128.{get_leb128_unsigned, get_leb128_signed}
use pebil.Dwarf.Leb128.Laws.{leb_bytes, get_leb128_unsigned-leb_bytes, get_leb128_signed-leb_bytes}
use pebil.Dwarf.LineProgram.{Header, run_program}
use pebil.Dwarf.LineProgram.Instructions.{
  Instruction, Operand, IsOperand, IsEncodable, IsHandled, opcode_number, special, advance_pc,
  set_address, end_sequence,
}
use pebil.Dwarf.LineTable.{read_table, verify, indexes_below}
use pebil.Dwarf.LineTable.Encoded.{
  LineTable, encode_table, meaning, IsTable, all_none, all_more, entries,
}
use pebil.Dwarf.LineTable.Whole.{read_table-encode_table}
use pebil.Dwarf.LineProgram.Instructions.{
  encode, step, change, emit_row, no_chars, one_char, file_bytes, operand_bytes, extended,
}
use pebil.X86.Bytes.{le_bytes}
use pebil.Dwarf.LineProgram.Progress.{Extends}
use pebil.Dwarf.LineProgram.Programs.{
  AllEncodable, AllHandled, none_handled, more_handled, Ends, run_program-Ends, no_more, one_more,
  encode_all, steps, start, run_program-encode_all, run_keeps,
}

get_leb128_unsigned-leb_bytes_example :
    get_leb128_unsigned (leb_bytes 2 624485 ++ (7 ∷ [])) ≡ some (624485, 2 + 1)
get_leb128_unsigned-leb_bytes_example =
    get_leb128_unsigned-leb_bytes 2 624485 (7 ∷ []) (omega arith) (omega arith) (omega arith)

get_leb128_signed-leb_bytes_example :
    (get_leb128_signed (leb_bytes 1 126 ++ (7 ∷ [])) ≡ some (126, 1 + 1))
    × (get_leb128_signed (leb_bytes 1 (128 ^ suc 1 - (126 + 1)) ++ (7 ∷ []))
        ≡ some (2 ^ 64 - (126 + 1), 1 + 1))
get_leb128_signed-leb_bytes_example =
    get_leb128_signed-leb_bytes 1 126 (7 ∷ []) (omega arith) (omega arith)

-- A header with the line base -5.
abbrev header : Header
header = record {
  min_insn_length = 1;
  default_is_stmt = 1;
  line_base = 251;
  line_range = 14;
  opcode_base = 13;
  opcodes = 0 ∷ 1 ∷ 1 ∷ 1 ∷ 1 ∷ 0 ∷ 0 ∷ 0 ∷ 1 ∷ 0 ∷ 0 ∷ 1 ∷ [];
  address_size = 8;
}

abbrev one : Operand
one = record { value = 1; more = 0 }

abbrev five : Operand
five = record { value = 5; more = 0 }

five-IsOperand : IsOperand five
five-IsOperand = record { short = omega arith; fits = omega arith; small = omega arith }

abbrev program : List Instruction
program = set_address 0x400000 ∷ special 75 ∷ advance_pc five ∷ end_sequence ∷ []

special-IsEncodable : IsEncodable header (special 75)
unfolding IsEncodable
special-IsEncodable = (omega arith, omega arith, omega arith, omega arith, omega arith)

program-AllEncodable : AllEncodable header program
unfolding IsEncodable
program-AllEncodable =
    one_more _ _ (omega arith, inr refl, omega arith)
      (one_more _ _ special-IsEncodable (
        one_more _ _ (record { below = omega arith; known = refl }, five-IsOperand)
          (one_more _ _ (omega arith) no_more)))

program-AllHandled : AllHandled header program
unfolding IsHandled opcode_number
program-AllHandled =
    more_handled _ _ (λ n e q. distinct 0 n e q (omega arith))
      (more_handled _ _ (λ n e q. absurd (cc))
        (more_handled _ _ (λ n e q. distinct 2 n e q (omega arith))
          (more_handled _ _ (λ n e q. distinct 0 n e q (omega arith)) none_handled)))
  where
    distinct : (k n : ℕ) → some k ≡ some n → suc n ≡ 13 → k < 12 → ⊥
    distinct k n e q h = let same : k ≡ n = cc in omega arith

run_program-encode_all_example :
    run_program header [] (length (encode_all header program)) (encode_all header program ++ [])
    ≡ some (steps header program (start header []))
run_program-encode_all_example =
    run_program-encode_all header [] program [] program-AllEncodable program-AllHandled

run_program-Ends_example :
    Ends header 3 (1 ∷ 1 ∷ 99 ∷ []) (start header []) (run_program header [] 3 (1 ∷ 1 ∷ 99 ∷ []))
run_program-Ends_example = run_program-Ends header [] 3 (1 ∷ 1 ∷ 99 ∷ [])

run_keeps_example : Extends (start header []) (steps header program (start header []))
unfolding run_program
run_keeps_example =
    run_keeps (length (encode_all header program) + 1) header (length (encode_all header program))
      (encode_all header program ++ []) (start header []) (steps header program (start header []))
      (run_program-encode_all header [] program [] program-AllEncodable program-AllHandled)

-- The whole table: version 4, one directory, one file, and the program.
abbrev table : LineTable
table = record {
  is64 = false;
  version = 4;
  header_length = 40;
  max_ops = 1;
  header = header;
  include_paths = (115 ∷ 114 ∷ 99 ∷ []) ∷ [];
  files = record { name = 97 ∷ 46 ∷ 99 ∷ []; dir = one; time = five; size = five } ∷ [];
  program = program;
}

table-IsTable : IsTable table
unfolding entries file_bytes operand_bytes leb_bytes encode_all encode extended le_bytes verify
    indexes_below steps step change emit_row
table-IsTable = record {
  fits = omega arith;
  version = omega arith;
  header_length = omega arith;
  max_ops = omega arith;
  min_insn_length = omega arith;
  default_is_stmt = omega arith;
  line_base = omega arith;
  line_range = omega arith;
  opcode_base = omega arith;
  opcodes = refl;
  include_paths =
      all_more _ _
        (record {
          chars = one_char _ _ (one_char _ _ (one_char _ _ no_chars));
          not_empty = omega arith;
        })
        all_none;
  files =
      all_more _ _
        (record {
          path = record {
            chars = one_char _ _ (one_char _ _ (one_char _ _ no_chars));
            not_empty = omega arith;
          };
          dir = record { short = omega arith; fits = omega arith; small = omega arith };
          time = five-IsOperand;
          size = five-IsOperand;
        })
        all_none;
  program = program-AllEncodable;
  handled = program-AllHandled;
}

read_table-encode_table_example : read_table 8 (encode_table table (7 ∷ [])) ≡ some (meaning table)
unfolding verify meaning steps step
read_table-encode_table_example = read_table-encode_table table (7 ∷ []) table-IsTable
