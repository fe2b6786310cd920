-- ===== src/Dwarf/LineTable.antt =====
-- src/LineInformation.C, `LineInfoTable::read`: the header of a line table, its two lists, and then
-- the line number program. `raw` is the memory from rawDataPtr on, to the end of the file; currByte is
-- how much of it has been passed. `none` is as in Dwarf/LineProgram.
pub mod Encoded
pub mod Laws
pub mod Whole
use pebil.Common.{
  ℕ, zero, suc, ◌+◌, ◌-◌, ◌%◌, ◌^◌, Bool, true, false, not, ◌&&◌, Option, none, some, List, [], ◌∷◌,
  ltb, leb, ◌==◌, if◌then◌else◌, ensure, ◌>>=◌, ◌>>◌, drop, length,
}
use pebil.Dwarf.LineProgram.{
  Header, FileName, Machine, get_uint, get_string, get_file_name, run_program,
}

-- copyBytesIterate into a field of `n` bytes.
unfoldable pub read_field : ℕ → List ℕ → Option (ℕ × List ℕ)
read_field n raw = get_uint n raw >>= λ v. some (v, drop n raw)

-- The loop that reads the opcode table.
unfoldable pub read_opcodes : ℕ → List ℕ → Option (List ℕ × List ℕ)
read_opcodes zero raw = some ([], raw)
read_opcodes (suc n) [] = none
read_opcodes (suc n) (tmp ∷ raw) = read_opcodes n raw >>= λ r. some (tmp ∷ r.0, r.1)

-- `while (rawDataPtr[currByte])`, with the entry that is read in each round, and the `currByte++`
-- behind it. On fuel; an entry has a byte, so the length of `raw` is enough.
module _ {A : Type 0} (entry : List ℕ → Option (A × List ℕ)) where
  unfoldable pub read_entries : ℕ → List ℕ → Option (List A × List ℕ)
  read_entries fuel [] = none
  read_entries zero (c ∷ raw) = none
  read_entries (suc fuel) (c ∷ raw) = elim (c == 0) [
    | true ↦ some ([], raw)
    | false ↦ entry (c ∷ raw) >>= λ r. read_entries fuel r.1 >>= λ rest. some (r.0 ∷ rest.0, rest.1)
  ]

-- The format by the first word: the 64-bit format, its li_length, and the bytes behind it. The 64-bit
-- format reads eight bytes into li_length, which has four: the low half stays in it, and the high half
-- falls on li_version, which is read next.
pub record Format : Type 0 where
  pub is64 : Bool
  pub li_length : ℕ

unfoldable pub read_format : List ℕ → Option (Format × List ℕ)
unfolding read_field
read_format raw = do
  first_word ← read_field 4 raw
  if ltb first_word.0 0xfffffff0
      then some (record { is64 = false; li_length = first_word.0 }, first_word.1)
      else do
        ensure (first_word.0 == 0xffffffff)
        length64 ← read_field 8 first_word.1
        some (record { is64 = true; li_length = length64.0 % 2 ^ 32 }, length64.1)

-- li_version, li_header_length and li_max_ops_per_insn, which the program does not use.
pub record Preface : Type 0 where
  pub version : ℕ
  pub header_length : ℕ
  pub max_ops_per_insn : Option ℕ

-- The field is there in version 4 only.
unfoldable pub read_max_ops : ℕ → List ℕ → Option (Option ℕ × List ℕ)
unfolding read_field
read_max_ops version raw =
    if version == 4 then (read_field 1 raw >>= λ r. some (some r.0, r.1)) else some (none, raw)

unfoldable pub read_header : ℕ → Bool → List ℕ → Option ((Preface × Header) × List ℕ)
unfolding read_field read_opcodes read_max_ops
read_header address_size is64 raw = do
  version ← read_field 2 raw
  header_length ← read_field (if is64 then 8 else 4) version.1
  min_insn_length ← read_field 1 header_length.1
  max_ops ← read_max_ops version.0 min_insn_length.1
  default_is_stmt ← read_field 1 max_ops.1
  line_base ← read_field 1 default_is_stmt.1
  line_range ← read_field 1 line_base.1
  opcode_base ← read_field 1 line_range.1
  ensure (not (opcode_base.0 == 0))
  opcodes ← read_opcodes (opcode_base.0 - 1) opcode_base.1
  let preface : Preface = record {
    version = version.0;
    header_length = header_length.0;
    max_ops_per_insn = max_ops.0;
  }
  let header : Header = record {
    min_insn_length = min_insn_length.0;
    default_is_stmt = default_is_stmt.0;
    line_base = line_base.0;
    line_range = line_range.0;
    opcode_base = opcode_base.0;
    opcodes = opcodes.0;
    address_size = address_size;
  }
  some ((preface, header), opcodes.1)

-- `verify`: each directory index is compared with the number of file names. Its comparisons of
-- addresses with the bounds of the section are left out.
unfoldable pub indexes_below : ℕ → List FileName → Bool
indexes_below n [] = true
indexes_below n (f ∷ names) = leb f.dir_index n && indexes_below n names

unfoldable pub verify : List FileName → Bool
unfolding indexes_below
verify names = indexes_below (length names) names

-- The table that is read, with sizeInBytes.
pub record Table : Type 0 where
  pub preface : Preface
  pub header : Header
  pub include_paths : List (List ℕ)
  pub machine : Machine
  pub size_in_bytes : ℕ

unfoldable pub read_table : ℕ → List ℕ → Option Table
unfolding read_entries verify
read_table address_size raw = do
  format ← read_format raw
  header ← read_header address_size format.0.is64 format.1
  include_paths ← read_entries get_string (length header.1) header.1
  file_names ← read_entries get_file_name (length include_paths.1) include_paths.1
  let size_in_bytes = (format.0.li_length + (if format.0.is64 then 12 else 4)) % 2 ^ 32
  let curr_byte = length raw - length file_names.1
  ensure (leb curr_byte size_in_bytes)
  machine ← run_program header.0.1 file_names.0 (size_in_bytes - curr_byte) file_names.1
  ensure (verify machine.file_names)
  some (record {
    preface = header.0.0;
    header = header.0.1;
    include_paths = include_paths.0;
    machine = machine;
    size_in_bytes = size_in_bytes;
  })
