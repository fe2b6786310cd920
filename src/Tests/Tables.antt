-- ===== src/Tests/Tables.antt =====
-- The hash table, the numeric functions, and the ASSERTs of the emitters.
use pebil.Numeric.HashCode.{
  of_section, of_function, of_block, of_instruction, is_section, is_function, is_block,
  is_instruction,
}
use pebil.Numeric.HashCode.Laws.{constructors, getters}
use pebil.Numeric.Align.Mask.{next_align_address_lem}
use pebil.Hash.Sysv.File.{dump, read}
use pebil.Hash.Sysv.File.Laws.{read-dump, word, none_left}
use pebil.Hash.Sysv.File.Built.{build_table-read}
use pebil.Common.{
  ◌++◌, ℕ, zero, suc, ap, get_or, ◌+◌, ◌*◌, ◌^◌, ◌≤◌, ◌<◌, ◌≡◌, ◌↔◌, refl, some, true, [], ◌∷◌,
  length, arith,
}
use pebil.Hash.Name.{Name}
use pebil.Hash.Sysv.{SysvTable, ElfFile, build_table, find_symbol, add_entry}
use pebil.Hash.Sysv.Build.{Indexes}
use pebil.Hash.Sysv.Verify.{IsDistinct, IsSysv, Small, build_table-Indexes, build_table-find_symbol}
use pebil.Hash.Sysv.Find.{Says}
use pebil.Hash.Sysv.Grow.{Answers, add_entry-Answers}
use pebil.Numeric.Power.{log_base2, is_power_of_two}
use pebil.Numeric.Power.Laws.{log_base2-floor, is_power_of_two_iff}
use pebil.Numeric.Align.{next_align_address}
use pebil.Numeric.Align.Laws.{IsNextMultiple}

-- The null symbol, main and exit.
abbrev elf_file : ElfFile
elf_file = record {
  names = [] ∷ (109 ∷ 97 ∷ 105 ∷ 110 ∷ []) ∷ (101 ∷ 120 ∷ 105 ∷ 116 ∷ []) ∷ [];
  st_names = 0 ∷ 1 ∷ 6 ∷ [];
  sh_type = 5;
  sh_entsize = 4;
}

elf_file-IsSysv : IsSysv elf_file
elf_file-IsSysv = record { type = refl; entsize = refl }

-- The first characters tell the names apart.
elf_file-IsDistinct : IsDistinct elf_file
elf_file-IsDistinct zero j named l m e = absurd (omega arith)
elf_file-IsDistinct (suc zero) zero named l m e = absurd (omega arith)
elf_file-IsDistinct (suc zero) (suc zero) named l m e = absurd (omega arith)
elf_file-IsDistinct (suc zero) (suc (suc zero)) named l m e =
    let first : ◌≡◌ {A = ℕ} 101 109 = ap (λ s. get_or s 0 0) e in absurd (omega arith)
elf_file-IsDistinct (suc zero) (suc (suc (suc j))) named l m e = absurd (omega arith)
elf_file-IsDistinct (suc (suc i)) j named l m e = absurd (omega arith)

elf_file-Small : Small elf_file 3
elf_file-Small = record { symbols = omega arith; buckets = omega arith; bytes = omega arith }

abbrev old_table : SysvTable
old_table = record {
  number_of_buckets = 3;
  number_of_entries = 2;
  buckets = [];
  entries = [];
  size_in_bytes = 0;
}

build_table-find_symbol_example :
    (IsDistinct elf_file
      → (t : SysvTable) × (build_table elf_file 3 3 ≡ some t)
        × ((s : Name) → Says elf_file.names s (find_symbol elf_file.names t s)))
    × ((t : SysvTable) → build_table elf_file 3 3 ≡ some t → IsDistinct elf_file)
build_table-find_symbol_example = build_table-find_symbol elf_file 3 elf_file-IsSysv elf_file-Small

build_table-Indexes_example :
    (t : SysvTable) × (build_table elf_file 3 3 ≡ some t)
    × Indexes elf_file.names t
    × (t.number_of_buckets ≡ 3)
    × (t.size_in_bytes ≡ 4 * (2 + 3 + length elf_file.names))
build_table-Indexes_example =
    build_table-Indexes elf_file 3 elf_file-IsSysv elf_file-Small elf_file-IsDistinct

add_entry-Answers_example :
    (u : SysvTable) × (add_entry elf_file old_table ≡ some u) × Answers elf_file.names 2 u
add_entry-Answers_example =
    add_entry-Answers elf_file old_table elf_file-IsSysv elf_file-IsDistinct (omega arith)
      (omega arith) (omega arith)

log_base2-floor_example : (l : ℕ) × (log_base2 1000 ≡ some l) × (2 ^ l ≤ 1000) × (1000 < 2 ^ suc l)
log_base2-floor_example = log_base2-floor 1000 (omega arith) (omega arith)

is_power_of_two_iff_example : (is_power_of_two 4096 ≡ true) ↔ ((k : ℕ) × (k < 32) × (4096 ≡ 2 ^ k))
is_power_of_two_iff_example = is_power_of_two_iff 4096

constructors_example :
    (is_section (of_section 3) ≡ true)
    × (is_function (of_function 3 10) ≡ true)
    × (is_block (of_block 3 10 20) ≡ true)
    × (is_instruction (of_instruction 3 10 20 30) ≡ true)
    × (getters (of_section 3) ≡ (3, 0, 0, 0))
    × (getters (of_function 3 10) ≡ (3, 10, 0, 0))
    × (getters (of_block 3 10 20) ≡ (3, 10, 20, 0))
    × (getters (of_instruction 3 10 20 30) ≡ (3, 10, 20, 30))
constructors_example =
    constructors 3 10 20 30 (omega arith) (omega arith) (omega arith) (omega arith)

build_table-read_example :
    (t : SysvTable) × (build_table elf_file 3 3 ≡ some t)
    × (read t.size_in_bytes (dump t ++ 7 ∷ 8 ∷ []) ≡ some (t, 7 ∷ 8 ∷ []))
build_table-read_example =
    build_table-read elf_file 3 (7 ∷ 8 ∷ []) elf_file-IsSysv elf_file-Small elf_file-IsDistinct

abbrev stored_table : SysvTable
stored_table = record {
  number_of_buckets = 1;
  number_of_entries = 2;
  buckets = 1 ∷ [];
  entries = 0 ∷ 0 ∷ [];
  size_in_bytes = 20;
}

read-dump_example : read 20 (dump stored_table ++ 9 ∷ []) ≡ some (stored_table, 9 ∷ [])
read-dump_example = read-dump stored_table (9 ∷ []) (record {
  buckets_count = refl;
  entries_count = refl;
  buckets_words = word (omega arith) none_left;
  entries_words = word (omega arith) (word (omega arith) none_left);
  small = omega arith;
  size = refl;
})

next_align_address_lem_example :
    (r : ℕ) × (next_align_address 0x8049123 (2 ^ 12) ≡ some r) × IsNextMultiple (2 ^ 12) 0x8049123 r
next_align_address_lem_example = next_align_address_lem 0x8049123 12 (omega arith) (omega arith)
