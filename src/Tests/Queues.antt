-- ===== src/Tests/Queues.antt =====
-- The priority queue and the check of a file's ranges.
use pebil.Common.{◌↔◌, ◌/◌, ◌≤◌, ◌<◌, ◌≡◌, refl, subst, Bool, true, some, List, [], ◌∷◌, arith}
use pebil.Containers.PriorityQueue.{Entry, Queue, zeros, prio_at, insert, delete_min}
use pebil.Containers.PriorityQueue.Laws.{
  IsValid, Inserted, Removed, insert-Inserted, delete_min-Removed,
}
use pebil.Elf.Ranges.{FileHeader, SectionHeader, range, section_ranges, file_ranges, check_ranges}
use pebil.Elf.Ranges.Counts.{count_list}
use pebil.Elf.Ranges.Accepted.{intersects, same_range}
use pebil.Elf.Ranges.Apart.{check_ranges-apart}

-- A full queue of two entries.
abbrev two_entries : List Entry
two_entries = zeros ∷ range 10 1 ∷ range 20 2 ∷ []

abbrev full_queue : Queue
full_queue = record {
  buffer_count = 2;
  entries = two_entries;
  element_count = 2;
  minimum_priority = 20;
}

full_queue-IsValid : IsValid full_queue
full_queue-IsValid = record {
  positive = omega arith;
  within = omega arith;
  cells = refl;
  heap = record {
    edges = λ c p q.
        let e : 2 ≡ c = omega arith in
        subst (λ c. prio_at two_entries (c / 2) ≤ prio_at two_entries c) e (omega arith);
  };
}

insert-Inserted_example : (r : Queue) × (insert 3 5 full_queue ≡ some r) × Inserted 3 5 full_queue r
insert-Inserted_example = insert-Inserted 3 5 full_queue full_queue-IsValid

delete_min-Removed_example :
    (e : Entry) × (r : Queue) × (delete_min full_queue ≡ some (e, r)) × Removed full_queue e r
delete_min-Removed_example = delete_min-Removed full_queue full_queue-IsValid (omega arith)

-- A file with its text and a section that takes no place in it.
abbrev file_header : FileHeader
file_header = record {
  ehsize = 64;
  phoff = 64;
  phentsize = 56;
  phnum = 2;
  shoff = 400;
  shentsize = 64;
  shnum = 3;
}

abbrev sections : List SectionHeader
sections =
    record { kind = 1; offset = 176; size = 100 }
    ∷ record { kind = 8; offset = 276; size = 999 }
    ∷ []

check_ranges-apart_example :
    (b : Bool) × (check_ranges file_header sections ≡ some b)
    × ((b ≡ true) ↔ (
        (a : Entry)
        → 0 < count_list (same_range a) (file_ranges file_header sections)
        → count_list (intersects a) (file_ranges file_header sections) ≡ 1))
unfolding count_list file_ranges section_ranges
check_ranges-apart_example = check_ranges-apart file_header sections refl refl
