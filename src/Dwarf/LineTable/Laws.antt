-- ===== src/Dwarf/LineTable/Laws.antt =====
-- The parts of a line table that is laid out as DWARF says are read.
use mathlib.Core.List.{append_assoc}
use pebil.Common.{
  ℕ, zero, suc, ◌+◌, ◌-◌, ◌%◌, ◌^◌, ◌≤◌, ◌<◌, ◌≡◌, refl, ap, ◌∙◌, subst, Bool, true, false, Option,
  none, some, List, [], ◌∷◌, ◌++◌, map, ◌==◌, if◌then◌else◌, length, length-append, drop,
  drop-append, arith, inl, inr, Bool-cases, lt→ltb,
}
use pebil.X86.Bytes.{le_bytes}
use pebil.Dwarf.LineProgram.{get_string, get_file_name}
use pebil.Dwarf.LineProgram.Instructions.{AllNonzero, file_bytes, no_chars, one_char}
use pebil.Dwarf.LineProgram.Operands.{
  length-le_bytes, get_uint-le_bytes, get_string-append, get_file_name-file_bytes,
}
use pebil.Dwarf.LineTable.{
  read_field, read_opcodes, read_entries, read_format, read_max_ops, read_header,
}
use pebil.Dwarf.LineTable.Encoded.{
  FileEntry, LineTable, join, entries, path_bytes, entry_bytes, file_name, header_pieces,
  format_bytes, IsPath, IsFile, All, all_none, all_more, IsTable,
}

read_field-le_bytes :
    (n v : ℕ) (rest : List ℕ) → v < 256 ^ n → read_field n (le_bytes n v ++ rest) ≡ some (v, rest)
unfolding read_field
read_field-le_bytes n v rest h =
    let behind : drop n (le_bytes n v ++ rest) ≡ rest =
      subst (λ k. drop k (le_bytes n v ++ rest) ≡ rest) (length-le_bytes n v)
        (drop-append (le_bytes n v) rest) in
    rw (get_uint-le_bytes n v rest h, behind) refl

read_opcodes-append :
    (ops rest : List ℕ) → read_opcodes (length ops) (ops ++ rest) ≡ some (ops, rest)
unfolding read_opcodes
read_opcodes-append [] rest = refl
read_opcodes-append (o ∷ ops) rest = rw (read_opcodes-append ops rest) refl

-- An entry has a first byte that is not 0, and is read back.
pub record IsRead {A B : Type 0} (entry : List ℕ → Option (B × List ℕ)) (bytes : A → List ℕ)
    (value : A → B) (a : A) : Type 0 where
  pub first : ℕ
  pub others : List ℕ
  pub starts : bytes a ≡ suc first ∷ others
  pub reads : (rest : List ℕ) → entry (bytes a ++ rest) ≡ some (value a, rest)

module _ {A B : Type 0} (entry : List ℕ → Option (B × List ℕ)) (bytes : A → List ℕ)
    (value : A → B) where
  one_round :
      (fuel c : ℕ) (raw : List ℕ) (b : B) (tail : List ℕ) (bs : List B) (rest : List ℕ)
      → (c == 0) ≡ false
      → entry (c ∷ raw) ≡ some (b, tail)
      → read_entries entry fuel tail ≡ some (bs, rest)
      → read_entries entry (suc fuel) (c ∷ raw) ≡ some (b ∷ bs, rest)
  unfolding read_entries
  one_round fuel c raw b tail bs rest more now later = rw (more, now, later, read_entries) refl

  lengths :
      (a : A) (xs : List A) (rest : List ℕ)
      → IsRead entry bytes value a
      → length (entries bytes xs ++ rest) + 1 ≤ length (entries bytes (a ∷ xs) ++ rest)
  unfolding entries
  lengths a xs rest r =
      let one : 1 ≤ length (bytes a) = rw r.starts (omega arith) in
      omega (
        arith,
        one,
        ap length (append_assoc (bytes a) (entries bytes xs) rest),
        length-append (bytes a) (entries bytes xs ++ rest),
      )

  pub read_entries-entries :
      (fuel : ℕ) (xs : List A) (rest : List ℕ)
      → All (IsRead entry bytes value) xs
      → length (entries bytes xs ++ rest) ≤ fuel
      → read_entries entry fuel (entries bytes xs ++ rest) ≡ some (map value xs, rest)
  unfolding read_entries entries
  read_entries-entries zero [] rest ok h = absurd (omega arith)
  read_entries-entries (suc fuel) [] rest ok h = refl
  read_entries-entries zero (a ∷ xs) rest (all_more _ _ r ok) h =
      absurd (omega (arith, lengths a xs rest r))
  read_entries-entries (suc fuel) (a ∷ xs) rest (all_more _ _ r ok) h =
      let tail = entries bytes xs ++ rest in
      let shape : (bytes a ++ entries bytes xs) ++ rest ≡ suc r.first ∷ (r.others ++ tail) =
        append_assoc (bytes a) (entries bytes xs) rest ∙ ap (λ b. b ++ tail) r.starts in
      let again : entry (suc r.first ∷ (r.others ++ tail)) ≡ some (value a, tail) =
        subst (λ b. entry (b ++ tail) ≡ some (value a, tail)) r.starts (r.reads tail) in
      let more : (suc r.first == 0) ≡ false = ground arith in
      let inside : length tail ≤ fuel = omega (arith, lengths a xs rest r) in
      rw shape (
        one_round fuel (suc r.first) (r.others ++ tail) (value a) tail (map value xs) rest more
          again (read_entries-entries fuel xs rest ok inside))

first_char :
    (path : List ℕ)
    → AllNonzero path
    → 0 < length path
    → (c : ℕ) × (tail : List ℕ) × (path ≡ suc c ∷ tail)
first_char [] no_chars pos = absurd (omega arith)
first_char (suc c ∷ tail) (one_char _ _ _) pos = (c, tail, refl)
first_char (zero ∷ tail) h pos = elim h [ ]

pub path-IsRead : (path : List ℕ) → IsPath path → IsRead get_string path_bytes (λ p. p) path
path-IsRead path p =
    let (c, tail, e) = first_char path p.chars p.not_empty in
    record {
      first = c;
      others = tail ++ (0 ∷ []);
      starts = ap path_bytes e;
      reads = λ rest. rw (append_assoc path (0 ∷ []) rest) (get_string-append path rest p.chars);
    }

pub file-IsRead : (f : FileEntry) → IsFile f → IsRead get_file_name entry_bytes file_name f
unfolding file_bytes
file-IsRead f p =
    let (c, tail, e) = first_char f.name p.path.chars p.path.not_empty in
    record {
      first = c;
      others = tail ++ _;
      starts = ap (λ n. file_bytes n f.dir f.time f.size) e;
      reads = λ rest.
          get_file_name-file_bytes f.name f.dir f.time f.size rest p.path.chars p.dir p.time p.size;
    }

pub All-map :
    {A : Type 0} {P Q : A → Type 0} → ((a : A) → P a → Q a) → (xs : List A) → All P xs → All Q xs
All-map h [] all_none = all_none
All-map h (x ∷ xs) (all_more _ _ p ok) = all_more x xs (h x p) (All-map h xs ok)

pub read_format-format_bytes :
    (is64 : Bool) (n : ℕ) (rest : List ℕ)
    → n < 0xfffffff0
    → read_format (format_bytes is64 n ++ rest) ≡ some (record { is64 = is64; li_length = n }, rest)
unfolding read_format
read_format-format_bytes false n rest h =
    rw (read_field-le_bytes 4 n rest (omega arith), lt→ltb n 0xfffffff0 h) refl
read_format-format_bytes true n rest h =
    let same : n % 2 ^ 32 ≡ n = omega arith in
    rw
      (
        append_assoc (le_bytes 4 0xffffffff) (le_bytes 8 n) rest,
        read_field-le_bytes 4 0xffffffff (le_bytes 8 n ++ rest) (omega arith),
        read_field-le_bytes 8 n rest (omega arith),
        same,
      )
      refl

read_max_ops-bytes :
    (version n : ℕ) (rest : List ℕ)
    → n < 256
    → read_max_ops version ((if version == 4 then le_bytes 1 n else []) ++ rest)
      ≡ some (if version == 4 then some n else none, rest)
unfolding read_max_ops
read_max_ops-bytes version n rest h = elim (Bool-cases (version == 4)) [
  | inl four ↦ rw (four, read_field-le_bytes 1 n rest (omega arith)) refl
  | inr other ↦ rw other refl
]

wide_enough : (b : Bool) (n : ℕ) → n < 2 ^ 32 → n < 256 ^ (if b then 8 else 4)
wide_enough true n h = omega arith
wide_enough false n h = omega arith

pub read_header-pieces :
    (t : LineTable) (rest : List ℕ)
    → IsTable t
    → read_header t.header.address_size t.is64 (join (header_pieces t) rest)
      ≡ some (
        (
          record {
            version = t.version;
            header_length = t.header_length;
            max_ops_per_insn = if t.version == 4 then some t.max_ops else none;
          },
          t.header,
        ),
        rest,
      )
unfolding read_header
read_header-pieces t rest ok =
    let h = t.header in
    let ops = h.opcodes ++ rest in
    let base = le_bytes 1 h.opcode_base ++ ops in
    let range = le_bytes 1 h.line_range ++ base in
    let line = le_bytes 1 h.line_base ++ range in
    let stmt = le_bytes 1 h.default_is_stmt ++ line in
    let max = (if t.version == 4 then le_bytes 1 t.max_ops else []) ++ stmt in
    let least = le_bytes 1 h.min_insn_length ++ max in
    let width : ℕ = if t.is64 then 8 else 4 in
    let len = le_bytes width t.header_length ++ least in
    let positive : (h.opcode_base == 0) ≡ false = ground (arith, ok.opcodes) in
    let count : h.opcode_base - 1 ≡ length h.opcodes = omega (arith, ok.opcodes) in
    rw
      (
        read_field-le_bytes 2 t.version len (omega (arith, ok.version)),
        read_field-le_bytes width t.header_length least
            (wide_enough t.is64 t.header_length ok.header_length),
        read_field-le_bytes 1 h.min_insn_length max (omega (arith, ok.min_insn_length)),
        read_max_ops-bytes t.version t.max_ops stmt ok.max_ops,
        read_field-le_bytes 1 h.default_is_stmt line (omega (arith, ok.default_is_stmt)),
        read_field-le_bytes 1 h.line_base range (omega (arith, ok.line_base)),
        read_field-le_bytes 1 h.line_range base (omega (arith, ok.line_range)),
        read_field-le_bytes 1 h.opcode_base ops (omega (arith, ok.opcode_base)),
        positive,
        count,
        read_opcodes-append h.opcodes rest,
      )
      refl
