-- ===== src/Containers/PriorityQueue.antt =====
-- include/PriorityQueue.h: a binary heap in an array that grows. Priorities and data are unsigned
-- integers, as at each place of the program that has such a queue; minimumPriority, a double, holds
-- those below 2 ^ 53 exactly.
pub mod Cells
pub mod Order
pub mod Laws
use pebil.Common.{
  ℕ, zero, suc, ◌+◌, ◌-◌, ◌*◌, ◌/◌, Bool, true, false, ◌&&◌, Option, none, some, List, [], ◌∷◌,
  ◌++◌, ltb, leb, ◌==◌, not, if◌then◌else◌, ensure, ◌>>=◌, ◌>>◌, get_or, set, replicate, length,
}

-- entry_t. memset fills the array with the entry of zeros.
pub record Entry : Type 0 where
  pub prio : ℕ
  pub value : ℕ

abbrev pub zeros : Entry
zeros = record { prio = 0; value = 0 }

pub record Queue : Type 0 where
  pub buffer_count : ℕ
  pub entries : List Entry
  pub element_count : ℕ
  pub minimum_priority : ℕ

-- entries[i] and entries[i].prio
abbrev pub entry_at : List Entry → ℕ → Entry
entry_at es i = get_or es i zeros

abbrev pub prio_at : List Entry → ℕ → ℕ
prio_at es i = (entry_at es i).prio

-- The constructors: of a size, and the default of one entry. Cell 0 is not used.
unfoldable pub new : ℕ → Queue
new size = record {
  buffer_count = size;
  entries = replicate (size + 1) zeros;
  element_count = 0;
  minimum_priority = 0;
}

unfoldable pub double_size : Queue → Queue
double_size q = record q {
  buffer_count = q.element_count * 2;
  entries = q.entries ++ replicate (q.element_count * 2 - q.element_count) zeros;
}

unfoldable pub swap : List Entry → ℕ → ℕ → List Entry
swap es i j = set (set es i (entry_at es j)) j (entry_at es i)

-- `n` is elementCount.
unfoldable pub exchange : ℕ → List Entry → ℕ → ℕ → Option (List Entry)
unfolding swap
exchange n es i j = ensure (leb i n && leb j n) >> some (swap es i j)

-- The index that heapify finds: of `i` and its children inside, the one with the least priority.
unfoldable pub min_index : ℕ → List Entry → ℕ → ℕ
min_index n es i =
    let l = 2 * i in
    let r = 2 * i + 1 in
    let m = if leb l n && ltb (prio_at es l) (prio_at es i) then l else i in
    if leb r n && ltb (prio_at es r) (prio_at es m) then r else m

-- `none` is a failed ASSERT, or no fuel.
unfoldable pub heapify : ℕ → ℕ → List Entry → ℕ → Option (List Entry)
heapify zero n es i = none
heapify (suc fuel) n es i = elim (min_index n es i == i) [
  | true ↦ some es
  | false ↦ exchange n es i (min_index n es i) >>= λ es'. heapify fuel n es' (min_index n es i)
]

-- The `while` of insert.
unfoldable pub sift_up : ℕ → ℕ → List Entry → ℕ → Option (List Entry)
sift_up zero n es i = none
sift_up (suc fuel) n es i = elim (ltb 1 i && ltb (prio_at es i) (prio_at es (i / 2))) [
  | true ↦ exchange n es i (i / 2) >>= λ es'. sift_up fuel n es' (i / 2)
  | false ↦ some es
]

unfoldable pub is_empty : Queue → Bool
is_empty q = q.element_count == 0

unfoldable pub find_min : Queue → Option ℕ
unfolding is_empty
find_min q = ensure (not (is_empty q)) >> some (entry_at q.entries 1).value

-- The entry that was the least, and the queue without it. The fuel of the loops is one more than the
-- number of entries, which bounds the way from the root to a leaf.
unfoldable pub delete_min : Queue → Option (Entry × Queue)
delete_min q = do
  ensure (leb 1 q.element_count)
  let n = q.element_count - 1
  let moved = set q.entries 1 (entry_at q.entries q.element_count)
  es ← if n == 0 then some moved else heapify (suc n) n moved 1
  some (entry_at q.entries 1, record q { entries = es; element_count = n })

-- The buffer doubles where it is full.
unfoldable pub grown : Queue → Queue
unfolding double_size
grown q = if q.element_count == q.buffer_count then double_size q else q

unfoldable pub insert : ℕ → ℕ → Queue → Option Queue
insert value prio q = do
  let g = grown q
  ensure (ltb g.element_count g.buffer_count)
  let n = g.element_count + 1
  es ← sift_up (suc n) n (set g.entries n (record { prio = prio; value = value })) n
  some (record {
    buffer_count = g.buffer_count;
    entries = es;
    element_count = n;
    minimum_priority = if ltb g.minimum_priority prio then prio else g.minimum_priority;
  })
