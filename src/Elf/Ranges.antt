-- ===== src/Elf/Ranges.antt =====
-- src/ElfFile.C: the part of `ElfFile::verify` that looks for parts of the file which intersect. It
-- queues the ranges of the file by their offsets and compares each with the one before.
pub mod Counts
pub mod Accepted
pub mod Apart
use pebil.Common.{
  ℕ, zero, suc, ◌+◌, ◌-◌, ◌*◌, ◌/◌, ◌%◌, ◌^◌, ◌≤◌, ◌<◌, min, ◌≡◌, refl, sym, ap, ◌∙◌, subst, ◌≢◌,
  ◌↔◌, ◌⊎◌, inl, inr, Bool, true, false, not, ◌&&◌, ◌||◌, Option, none, some, List, [], ◌∷◌, ◌++◌,
  map, arith, ltb, leb, ◌==◌, if◌then◌else◌, ltb→lt, lt→ltb, leb→le, ==_iff, Bool-cases, lt_or_ge,
  length, get_or, set, replicate, length-set, length-map, ◌>>=◌, ◌>>◌, ensure, tabulate,
  tabulate_ext,
}
use pebil.Containers.PriorityQueue.{Entry, Queue, new, insert, delete_min}

-- The fields of the file header that the check reads, and of the section headers. SHT_NOBITS is 8.
pub record FileHeader : Type 0 where
  pub ehsize : ℕ
  pub phoff : ℕ
  pub phentsize : ℕ
  pub phnum : ℕ
  pub shoff : ℕ
  pub shentsize : ℕ
  pub shnum : ℕ

pub record SectionHeader : Type 0 where
  pub kind : ℕ
  pub offset : ℕ
  pub size : ℕ

-- A range is an entry of the queue: its offset is the priority, its size the value.
abbrev pub range : ℕ → ℕ → Entry
range offset size = record { prio = offset; value = size }

unfoldable pub section_ranges : List SectionHeader → List Entry
section_ranges [] = []
section_ranges (s ∷ ss) =
    let rest = section_ranges ss in if s.kind == 8 then rest else range s.offset s.size ∷ rest

-- `sections` is without the null section 0, at which the source's loop does not look.
unfoldable pub file_ranges : FileHeader → List SectionHeader → List Entry
unfolding section_ranges
file_ranges h sections =
    range 0 h.ehsize
    ∷ range h.phoff (h.phentsize * h.phnum)
    ∷ range h.shoff (h.shentsize * h.shnum)
    ∷ section_ranges sections

unfoldable pub insert_all : List Entry → Queue → Option Queue
insert_all [] q = some q
insert_all (e ∷ es) q = insert e.value e.prio q >>= insert_all es

-- The `while`, on fuel. The sum is a uint64_t. `some false` is the PRINT_ERROR, with which the program
-- ends, and `none` is a failed ASSERT, or no fuel.
unfoldable pub check_loop : ℕ → Entry → Queue → Option Bool
check_loop zero prev q = none
check_loop (suc fuel) prev q = elim (q.element_count == 0) [
  | true ↦ some true
  | false ↦ delete_min q >>= λ r.
      elim (ltb r.0.prio ((prev.prio + prev.value) % 2 ^ 64) && not (r.0.value == 0)) [
        | true ↦ some false
        | false ↦ check_loop fuel r.0 r.1
      ]
]

-- The whole check; getNumberOfSections counts the null section.
unfoldable pub check_ranges : FileHeader → List SectionHeader → Option Bool
check_ranges h sections = do
  q ← insert_all (file_ranges h sections) (new (suc (length sections) + 3))
  ensure (not (q.element_count == 0))
  r ← delete_min q
  check_loop (suc r.1.element_count) r.0 r.1
