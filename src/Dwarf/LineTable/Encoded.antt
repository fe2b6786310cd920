-- ===== src/Dwarf/LineTable/Encoded.antt =====
-- A line table as DWARF lays it out: the unit's length, the header, the two lists and the program.
use pebil.Common.{
  ℕ, ◌+◌, ◌^◌, ◌<◌, ◌≡◌, Bool, true, false, none, some, List, [], ◌∷◌, ◌++◌, map, ◌==◌,
  if◌then◌else◌, length,
}
use pebil.X86.Bytes.{le_bytes}
use pebil.Dwarf.LineProgram.{Header, FileName}
use pebil.Dwarf.LineProgram.Instructions.{Operand, IsOperand, Instruction, AllNonzero, file_bytes}
use pebil.Dwarf.LineProgram.Programs.{encode_all, AllEncodable, AllHandled, steps, start}
use pebil.Dwarf.LineTable.{Table}

pub record FileEntry : Type 0 where
  pub name : List ℕ
  pub dir : Operand
  pub time : Operand
  pub size : Operand

pub record LineTable : Type 0 where
  pub is64 : Bool
  pub version : ℕ
  pub header_length : ℕ
  pub max_ops : ℕ
  pub header : Header
  pub include_paths : List (List ℕ)
  pub files : List FileEntry
  pub program : List Instruction

-- Pieces of a file, one behind the other, and what follows them.
abbrev pub join : List (List ℕ) → List ℕ → List ℕ
join [] rest = rest
join (c ∷ cs) rest = c ++ join cs rest

-- A list of entries, and the zero byte that ends it.
module _ {A : Type 0} (bytes : A → List ℕ) where
  unfoldable pub entries : List A → List ℕ
  entries [] = 0 ∷ []
  entries (a ∷ rest) = bytes a ++ entries rest

abbrev pub path_bytes : List ℕ → List ℕ
path_bytes path = path ++ (0 ∷ [])

abbrev pub entry_bytes : FileEntry → List ℕ
entry_bytes f = file_bytes f.name f.dir f.time f.size

abbrev pub file_name : FileEntry → FileName
file_name f = record {
  name = f.name;
  dir_index = f.dir.value;
  mod_time = f.time.value;
  size = f.size.value;
}

-- Behind the unit's length and in front of the program.
abbrev pub header_pieces : LineTable → List (List ℕ)
header_pieces t =
    le_bytes 2 t.version
    ∷ le_bytes (if t.is64 then 8 else 4) t.header_length
    ∷ le_bytes 1 t.header.min_insn_length
    ∷ (if t.version == 4 then le_bytes 1 t.max_ops else [])
    ∷ le_bytes 1 t.header.default_is_stmt
    ∷ le_bytes 1 t.header.line_base
    ∷ le_bytes 1 t.header.line_range
    ∷ le_bytes 1 t.header.opcode_base
    ∷ t.header.opcodes
    ∷ []

abbrev pub list_pieces : LineTable → List (List ℕ)
list_pieces t = entries path_bytes t.include_paths ∷ entries entry_bytes t.files ∷ []

abbrev pub body : LineTable → List ℕ → List ℕ
body t rest = join (header_pieces t) (join (list_pieces t) rest)

abbrev pub unit_length : LineTable → ℕ
unit_length t = length (body t (encode_all t.header t.program))

abbrev pub format_bytes : Bool → ℕ → List ℕ
format_bytes true n = le_bytes 4 0xffffffff ++ le_bytes 8 n
format_bytes false n = le_bytes 4 n

-- The table, and what follows it in the section.
unfoldable pub encode_table : LineTable → List ℕ → List ℕ
encode_table t rest =
    format_bytes t.is64 (unit_length t) ++ body t (encode_all t.header t.program ++ rest)

pub record IsPath (path : List ℕ) : Type 0 where
  pub chars : AllNonzero path
  pub not_empty : 0 < length path

pub record IsFile (f : FileEntry) : Type 0 where
  pub path : IsPath f.name
  pub dir : IsOperand f.dir
  pub time : IsOperand f.time
  pub size : IsOperand f.size

pub data All {A : Type 0} (P : A → Type 0) : List A → Type 0 where
  all_none : All P []
  all_more : (a : A) (rest : List A) → P a → All P rest → All P (a ∷ rest)

pub record IsTable (t : LineTable) : Type 0 where
  pub fits : unit_length t < 0xfffffff0
  pub version : t.version < 2 ^ 16
  pub header_length : t.header_length < 2 ^ 32
  pub max_ops : t.max_ops < 256
  pub min_insn_length : t.header.min_insn_length < 256
  pub default_is_stmt : t.header.default_is_stmt < 256
  pub line_base : t.header.line_base < 256
  pub line_range : t.header.line_range < 256
  pub opcode_base : t.header.opcode_base < 256
  pub opcodes : length t.header.opcodes + 1 ≡ t.header.opcode_base
  pub include_paths : All IsPath t.include_paths
  pub files : All IsFile t.files
  pub program : AllEncodable t.header t.program
  pub handled : AllHandled t.header t.program

-- What reading it has to give.
unfoldable pub meaning : LineTable → Table
meaning t = record {
  preface = record {
    version = t.version;
    header_length = t.header_length;
    max_ops_per_insn = if t.version == 4 then some t.max_ops else none;
  };
  header = t.header;
  include_paths = t.include_paths;
  machine = steps t.header t.program (start t.header (map file_name t.files));
  size_in_bytes = length (encode_table t []);
}
