-- ===== src/Containers/PriorityQueue/Laws.antt =====
-- include/PriorityQueue.h: the operations on the queue and on the bag of its entries.
use pebil.Common.{
  ℕ, zero, suc, ◌+◌, ◌-◌, ◌*◌, ◌/◌, ◌≤◌, ◌<◌, ◌≡◌, refl, ap, ◌∙◌, subst, inl, inr, true, some, List,
  [], ◌∷◌, ◌++◌, arith, ltb, leb, ◌==◌, if◌then◌else◌, lt→ltb, Bool-cases, length, set, replicate,
  length-set,
}
use pebil.Containers.PriorityQueue.{
  Entry, Queue, zeros, entry_at, prio_at, new, double_size, grown, insert, delete_min, is_empty,
}
use pebil.Containers.PriorityQueue.Cells.{
  entry_at-set, entry_at-append, total, total-ext, total-set, total-add_one,
}
use pebil.Containers.PriorityQueue.Order.{
  IsHeap, DownInv, sift_up_restores, heapify_restores, root_least,
}

pub record IsValid (q : Queue) : Type 0 where
  pub positive : 0 < q.buffer_count
  pub within : q.element_count ≤ q.buffer_count
  pub cells : length q.entries ≡ q.buffer_count + 1
  pub heap : IsHeap q.element_count q.entries

-- The abstract value: how much a weight of entries amounts to in the queue.
abbrev pub weight : (Entry → ℕ) → Queue → ℕ
weight f q = total f q.entries q.element_count

length-replicate : (n : ℕ) (e : Entry) → length (replicate n e) ≡ n
length-replicate zero e = refl
length-replicate (suc n) e = ap suc (length-replicate n e)

length-append : (es ds : List Entry) → length (es ++ ds) ≡ length es + length ds
length-append [] ds = omega arith
length-append (e ∷ es) ds = omega (arith, length-append es ds)

-- A new queue of a positive size is valid and empty.
pub new-IsValid : (size : ℕ) → 0 < size → IsValid (new size) × (is_empty (new size) ≡ true)
unfolding new is_empty
new-IsValid size h = (
  record {
    positive = h;
    within = omega arith;
    cells = length-replicate (size + 1) zeros;
    heap = record { edges = λ c p q. absurd (omega arith) };
  },
  refl,
)

-- The queue with room for one entry more, and the same contents.
record Grown (q g : Queue) : Type 0 where
  room : g.element_count < g.buffer_count
  cells : length g.entries ≡ g.buffer_count + 1
  kept : g.element_count ≡ q.element_count
  copied : (i : ℕ) → i ≤ q.element_count → entry_at g.entries i ≡ entry_at q.entries i

grown-Grown : (q : Queue) → IsValid q → Grown q (grown q)
unfolding grown double_size
grown-Grown q v = elim (Bool-cases (q.element_count == q.buffer_count)) [
  | inl full ↦ rw full (record {
    room = ground arith;
    cells = ground (
      arith,
      length-append q.entries (replicate (q.element_count * 2 - q.element_count) zeros),
      length-replicate (q.element_count * 2 - q.element_count) zeros,
    );
    kept = refl;
    copied = λ i h. entry_at-append q.entries _ i (ground arith);
  })
  | inr not_full ↦
      rw not_full
        (record { room = ground arith; cells = v.cells; kept = refl; copied = λ i h. refl })
]

-- What an insertion gives.
pub record Inserted (value prio : ℕ) (q r : Queue) : Type 0 where
  pub valid : IsValid r
  pub larger : r.element_count ≡ q.element_count + 1
  pub holds : (f : Entry → ℕ) → weight f r ≡ weight f q + f (record { prio = prio; value = value })

-- Into a valid queue each entry can be inserted: the result is valid, and holds the entries that the
-- queue held, and the new one.
pub insert-Inserted :
    (value prio : ℕ) (q : Queue)
    → IsValid q
    → (r : Queue) × (insert value prio q ≡ some r) × Inserted value prio q r
unfolding insert
insert-Inserted value prio q v =
    let g = grown q in
    let w = grown-Grown q v in
    let n = g.element_count + 1 in
    let e : Entry = record { prio = prio; value = value } in
    let es = set g.entries n e in
    let inside : n < length g.entries = omega (arith, w.room, w.cells) in
    let at = λ (i : ℕ). entry_at-set g.entries n i e inside in
    let wide : n < length es = omega (arith, length-set g.entries n e) in
    let (ds, run, s) =
      sift_up_restores (suc n) n es n wide (omega arith) (omega arith) (omega arith) (record {
        edges = λ c p r ne.
            ground (arith, at c, at (c / 2), v.heap.edges c, w.copied c, w.copied (c / 2), w.kept);
        bridged = λ c p r t u. absurd (omega arith);
      }) in
    let r : Queue = record {
      buffer_count = g.buffer_count;
      entries = ds;
      element_count = n;
      minimum_priority = if ltb g.minimum_priority prio then prio else g.minimum_priority;
    } in
    (
      r,
      rw (lt→ltb g.element_count g.buffer_count w.room, run) refl,
      record {
        valid = record {
          positive = omega (arith, w.room);
          within = omega (arith, w.room);
          cells = omega (arith, s.size, length-set g.entries n e, w.cells);
          heap = s.heap;
        };
        larger = omega (arith, w.kept);
        holds = λ f.
            let last : entry_at es n ≡ e = ground (arith, at n) in
            let old =
              total-ext f es q.entries g.element_count
                (λ i p r. ground (arith, at i, w.copied i, w.kept)) in
            let parts = total-add_one f es g.element_count in
            s.same f ∙ parts ∙ (rw (last, old, w.kept) refl);
      },
    )

-- What a removal gives: a least entry, and a valid queue of the others.
pub record Removed (q : Queue) (e : Entry) (r : Queue) : Type 0 where
  pub valid : IsValid r
  pub smaller : r.element_count + 1 ≡ q.element_count
  pub holds : (f : Entry → ℕ) → weight f q ≡ weight f r + f e
  pub least : (i : ℕ) → 0 < i → i ≤ q.element_count → e.prio ≤ prio_at q.entries i

-- From a valid queue that is not empty an entry is removed than which none in the queue has a lower
-- priority; the result is valid, and the queue held its entries and the one that was removed.
pub delete_min-Removed :
    (q : Queue)
    → IsValid q
    → 0 < q.element_count
    → (e : Entry) × (r : Queue) × (delete_min q ≡ some (e, r)) × Removed q e r
unfolding delete_min
delete_min-Removed q v pos = elim (Bool-cases (n == 0)) [
  | inl one ↦ (
    entry_at q.entries 1,
    rest moved,
    rw (lt→leb, one) refl,
    finish moved (record { edges = λ c p r. absurd (ground arith) }) refl
        (λ f.
          let e : q.element_count ≡ 1 = ground arith in
          rw (total-ext f moved q.entries n (λ i p r. absurd (ground arith)), e) refl),
  )
  | inr more ↦
      let (ds, run, s) =
        heapify_restores (suc n) n moved 1 wide (omega arith) (omega arith) (ground arith) down in
      (
        entry_at q.entries 1,
        rest ds,
        rw (lt→leb, more, run) refl,
        finish ds s.heap s.size (λ f. omega (
          arith,
          s.same f,
          total-set f q.entries n 1 lastly (omega arith) (ground arith)
              (omega (arith, v.within, v.cells)),
        )),
      )
]
  where
    n : ℕ
    n = q.element_count - 1

    lastly : Entry
    lastly = entry_at q.entries q.element_count

    moved : List Entry
    moved = set q.entries 1 lastly

    rest : List Entry → Queue
    rest es = record q { entries = es; element_count = q.element_count - 1 }

    lt→leb : leb 1 q.element_count ≡ true
    lt→leb = ground arith

    wide : n < length moved
    wide = omega (arith, v.within, v.cells, length-set q.entries 1 lastly)

    at : (i : ℕ) → entry_at moved i ≡ (if 1 == i then lastly else entry_at q.entries i)
    at i = entry_at-set q.entries 1 i lastly (omega (arith, v.within, v.cells))

    down : DownInv n moved 1
    down = record {
      edges = λ c p r ne. ground (arith, at c, at (c / 2), v.heap.edges c);
      bridged = λ c p r t u. absurd (omega arith);
    }

    finish :
        (ds : List Entry)
        → IsHeap n ds
        → length ds ≡ length moved
        → ((f : Entry → ℕ)
            → total f ds n + f (entry_at q.entries 1) ≡ total f q.entries n + f lastly)
        → Removed q (entry_at q.entries 1) (rest ds)
    finish ds heap size balance = record {
      valid = record {
        positive = v.positive;
        within = omega (arith, v.within);
        cells = omega (arith, size, length-set q.entries 1 lastly, v.cells);
        heap = heap;
      };
      smaller = omega arith;
      holds = λ f.
          let e : n + 1 ≡ q.element_count = omega arith in
          let all : total f q.entries q.element_count ≡ total f q.entries n + f lastly =
            subst (λ k. total f q.entries k ≡ total f q.entries n + f (entry_at q.entries k)) e
              (total-add_one f q.entries n) in
          omega (arith, all, balance f);
      least = λ i p r. root_least q.element_count q.entries i v.heap p r;
    }
