-- ===== src/Dwarf/LineTable/Whole.antt =====
-- A line table that is laid out as DWARF says is read, and its program is run.
use pebil.Common.{
  ◌>>◌, ℕ, ◌+◌, ◌-◌, ◌%◌, ◌^◌, ◌≤◌, ◌≡◌, refl, ap, Bool, true, false, some, List, [], ◌∷◌, ◌++◌,
  map, if◌then◌else◌, length, length-append, leb, arith, Option, ensure, none,
}
use pebil.X86.Bytes.{le_bytes}
use pebil.Dwarf.LineProgram.Operands.{length-le_bytes}
use pebil.Dwarf.LineProgram.{get_string, get_file_name}
use pebil.Dwarf.LineProgram.Programs.{encode_all, run_program-encode_all}
use pebil.Dwarf.LineTable.{read_table, verify}
use pebil.Dwarf.LineTable.Encoded.{
  LineTable, join, entries, path_bytes, entry_bytes, file_name, header_pieces, list_pieces, body,
  unit_length, format_bytes, encode_table, IsTable, meaning,
}
use pebil.Dwarf.LineTable.Laws.{
  read_entries-entries, path-IsRead, file-IsRead, All-map, read_format-format_bytes,
  read_header-pieces,
}

map_same : (xs : List (List ℕ)) → map (λ x. x) xs ≡ xs
map_same [] = refl
map_same (x ∷ xs) = ap (λ t. x ∷ t) (map_same xs)

length-join :
    (cs : List (List ℕ)) (rest : List ℕ) → length (join cs rest) ≡ length (join cs []) + length rest
length-join [] rest = omega arith
length-join (c ∷ cs) rest =
    omega (arith, length-join cs rest, length-append c (join cs rest), length-append c (join cs []))

length-format_bytes :
    (is64 : Bool) (n : ℕ) → length (format_bytes is64 n) ≡ (if is64 then 12 else 4)
length-format_bytes true n = omega (
  arith,
  length-append (le_bytes 4 0xffffffff) (le_bytes 8 n),
  length-le_bytes 8 n,
  length-le_bytes 4 0xffffffff,
)
length-format_bytes false n = length-le_bytes 4 n

at_most : (b : Bool) → (if b then 12 else 4) ≤ 12
at_most true = omega arith
at_most false = omega arith

module _ (t : LineTable) where
  length-body : (rest : List ℕ) → length (body t rest) ≡ length (body t []) + length rest
  length-body rest = omega (
    arith,
    length-join (header_pieces t) (join (list_pieces t) rest),
    length-join (header_pieces t) (join (list_pieces t) []),
    length-join (list_pieces t) rest,
  )

-- The answer where an ASSERT stands before it.
checked {ℓ} : {A : Type ℓ} (b : Bool) (x : Option A) → (ensure b >> x) ≡ (if b then x else none)
checked true x = refl
checked false x = refl

-- A line table of either format that is laid out as DWARF says, whose fields and operands hold what the
-- code can hold, and whose program has no instruction with the last opcode before opcode_base (see
-- AllHandled), is read to its end, whatever follows it in the section. If `verify` accepts the file
-- names, `read` gives the header, the include paths, the size of the table, and the rows and file names
-- that the program says; if `verify` refuses them, which it does for a directory index above the number
-- of files, `read` ends in an error.
pub read_table-encode_table :
    (t : LineTable) (rest : List ℕ)
    → IsTable t
    → read_table t.header.address_size (encode_table t rest)
      ≡ (if verify (meaning t).machine.file_names then some (meaning t) else none)
unfolding read_table encode_table meaning
read_table-encode_table t rest ok =
    let prog = encode_all t.header t.program in
    let behind = prog ++ rest in
    let files = entries entry_bytes t.files ++ behind in
    let paths = entries path_bytes t.include_paths ++ files in
    let k : ℕ = if t.is64 then 12 else 4 in
    let small : k ≤ 12 = at_most t.is64 in
    let fmt = length-format_bytes t.is64 (unit_length t) in
    let size : (unit_length t + k) % 2 ^ 32 ≡ length (encode_table t []) = omega (
      arith,
      small,
      ok.fits,
      fmt,
      length-append (format_bytes t.is64 (unit_length t)) (body t (prog ++ [])),
      length-body t prog,
      length-body t (prog ++ []),
      length-append prog [],
    ) in
    let curr = length (encode_table t rest) - length behind in
    let passed : curr ≡ k + length (body t []) = omega (
      arith,
      fmt,
      length-append (format_bytes t.is64 (unit_length t)) (body t behind),
      length-body t behind,
    ) in
    let whole : length (encode_table t []) ≡ k + length (body t []) + length prog =
      omega (arith, small, ok.fits, size, length-body t prog) in
    let fits : leb curr (length (encode_table t [])) ≡ true = ground arith in
    let left : length (encode_table t []) - curr ≡ length prog = omega (arith, passed, whole) in
    rw
      (
        read_format-format_bytes t.is64 (unit_length t) (body t behind) ok.fits,
        read_header-pieces t (join (list_pieces t) behind) ok,
        read_entries-entries get_string path_bytes (λ p. p) (length paths) t.include_paths files
            (All-map path-IsRead t.include_paths ok.include_paths) (omega arith),
        map_same t.include_paths,
        read_entries-entries get_file_name entry_bytes file_name (length files) t.files behind
            (All-map file-IsRead t.files ok.files) (omega arith),
        size,
        fits,
        left,
        run_program-encode_all t.header (map file_name t.files) t.program rest ok.program
            ok.handled,
      )
      (checked (verify (meaning t).machine.file_names) (some (meaning t)))
