-- ===== src/Containers/PriorityQueue/Order.antt =====
-- The heap order, and the two loops that restore it.
use pebil.Common.{
  ℕ, zero, suc, ◌+◌, ◌*◌, ◌/◌, ◌≤◌, ◌<◌, ◌≡◌, refl, ◌∙◌, ◌≢◌, ◌⊎◌, inl, inr, true, false, ◌&&◌,
  some, List, arith, ltb, ◌==◌, if◌then◌else◌, Bool-cases, lt_or_ge, length,
}
use pebil.Containers.PriorityQueue.{Entry, prio_at, swap, exchange, sift_up, min_index, heapify}
use pebil.Containers.PriorityQueue.Cells.{entry_at-swap, length-swap, total, total-swap}

-- Each entry but the first has a priority that is not below its parent's.
pub record IsHeap (n : ℕ) (es : List Entry) : Type 0 where
  pub edges : (c : ℕ) → 1 < c → c ≤ n → prio_at es (c / 2) ≤ prio_at es c

-- `ds` holds the entries of `es`, in the heap order.
pub record Sifted (n : ℕ) (es ds : List Entry) : Type 0 where
  pub heap : IsHeap n ds
  pub size : length ds ≡ length es
  pub same : (f : Entry → ℕ) → total f ds n ≡ total f es n

-- All edges but the one above `i`, and those that go past `i`.
pub record UpInv (n : ℕ) (es : List Entry) (i : ℕ) : Type 0 where
  pub edges : (c : ℕ) → 1 < c → c ≤ n → c ≢ i → prio_at es (c / 2) ≤ prio_at es c
  pub bridged : (c : ℕ) → 1 < c → c ≤ n → c / 2 ≡ i → 1 < i → prio_at es (i / 2) ≤ prio_at es c

-- All edges but those below `i`, and those that go past `i`.
pub record DownInv (n : ℕ) (es : List Entry) (i : ℕ) : Type 0 where
  pub edges : (c : ℕ) → 1 < c → c ≤ n → c / 2 ≢ i → prio_at es (c / 2) ≤ prio_at es c
  pub bridged : (c : ℕ) → 1 < c → c ≤ n → c / 2 ≡ i → 1 < i → prio_at es (i / 2) ≤ prio_at es c

module _ (n : ℕ) (es : List Entry) (room : n < length es) where
  exchange-some : (i j : ℕ) → i ≤ n → j ≤ n → exchange n es i j ≡ some (swap es i j)
  unfolding exchange
  exchange-some i j h k = ground arith

  -- Two cells in use change places.
  prio_at-swap :
      (i j k : ℕ)
      → i ≤ n
      → j ≤ n
      → prio_at (swap es i j) k
        ≡ (if j == k then prio_at es i else if i == k then prio_at es j else prio_at es k)
  prio_at-swap i j k h l = ground (arith, entry_at-swap es i j k)

  swap-Sifted :
      (i j : ℕ) (ds : List Entry)
      → 0 < i
      → i ≤ n
      → 0 < j
      → j ≤ n
      → i ≢ j
      → Sifted n (swap es i j) ds
      → Sifted n es ds
  swap-Sifted i j ds pi qi pj qj ne s = record {
    heap = s.heap;
    size = s.size ∙ length-swap es i j;
    same = λ f. s.same f ∙ total-swap f es n i j pi qi pj qj ne room;
  }

  swap-UpInv :
      (i : ℕ)
      → 1 < i
      → i ≤ n
      → UpInv n es i
      → prio_at es i < prio_at es (i / 2)
      → UpInv n (swap es i (i / 2)) (i / 2)
  swap-UpInv i p q v below =
      let at = λ (k : ℕ). prio_at-swap i (i / 2) k q (omega arith) in
      record {
        edges = λ c r s t. ground (arith, at c, at (c / 2), v.edges c, v.bridged c);
        bridged = λ c r s t u. ground (arith, at c, at (i / 2 / 2), v.edges c, v.edges (i / 2));
      }

pub sift_up_restores :
    (fuel n : ℕ) (es : List Entry) (i : ℕ)
    → n < length es
    → i < fuel
    → 0 < i
    → i ≤ n
    → UpInv n es i
    → (ds : List Entry) × (sift_up fuel n es i ≡ some ds) × Sifted n es ds
unfolding sift_up
sift_up_restores zero n es i room h p q v = absurd (omega arith)
sift_up_restores (suc fuel) n es i room h p q v =
    elim (Bool-cases (ltb 1 i && ltb (prio_at es i) (prio_at es (i / 2)))) [
      | inl more ↦
          let (ds, run, s) =
            sift_up_restores fuel n (swap es i (i / 2)) (i / 2)
              (omega (arith, length-swap es i (i / 2))) (ground arith) (ground arith) (ground arith)
              (swap-UpInv n es room i (ground arith) q v (ground arith)) in
          (
            ds,
            rw (more, exchange-some n es room i (i / 2) q (omega arith), sift_up) run,
            swap-Sifted n es room i (i / 2) ds p q (ground arith) (omega arith) (ground arith) s,
          )
      | inr done ↦ (
        es,
        rw (done, sift_up) refl,
        record {
          heap = record { edges = λ c r s. ground (arith, v.edges c) };
          size = refl;
          same = λ f. refl;
        },
      )
    ]

-- The index that `heapify` finds.
record IsLeast (n : ℕ) (es : List Entry) (i m : ℕ) : Type 0 where
  place : (m ≡ i) ⊎ (((m ≡ 2 * i) ⊎ (m ≡ 2 * i + 1)) × (m ≤ n) × (prio_at es m < prio_at es i))
  least : (c : ℕ) → 1 < c → c ≤ n → c / 2 ≡ i → prio_at es m ≤ prio_at es c

min_index-IsLeast : (n : ℕ) (es : List Entry) (i : ℕ) → 0 < i → IsLeast n es i (min_index n es i)
unfolding min_index
min_index-IsLeast n es i p = record {
  place = ground arith;
  least = λ c r s t. elim (lt_or_ge (2 * i) c) [
    | inl right ↦ let e : c ≡ 2 * i + 1 = omega arith in rw e (ground arith)
    | inr left ↦ let e : c ≡ 2 * i = omega arith in rw e (ground arith)
  ];
}

swap-DownInv :
    (n : ℕ) (es : List Entry)
    → n < length es
    → (i m : ℕ) → 0 < i
    → i ≤ n
    → m ≤ n
    → (m ≡ 2 * i) ⊎ (m ≡ 2 * i + 1)
    → prio_at es m < prio_at es i
    → ((c : ℕ) → 1 < c → c ≤ n → c / 2 ≡ i → prio_at es m ≤ prio_at es c)
    → DownInv n es i
    → DownInv n (swap es i m) m
swap-DownInv n es room i m p q r child below least v =
    let at = λ (k : ℕ). prio_at-swap n es room i m k q r in
    record {
      edges = λ c s t u. ground (arith, at c, at (c / 2), v.edges c, v.bridged m, least c);
      bridged = λ c s t u w. ground (arith, at c, at (m / 2), v.edges c);
    }

pub heapify_restores :
    (fuel n : ℕ) (es : List Entry) (i : ℕ)
    → n < length es
    → n < fuel + i
    → 0 < i
    → i ≤ n
    → DownInv n es i
    → (ds : List Entry) × (heapify fuel n es i ≡ some ds) × Sifted n es ds
unfolding heapify
heapify_restores zero n es i room h p q v = absurd (omega arith)
heapify_restores (suc fuel) n es i room h p q v =
    let m = min_index n es i in
    let l = min_index-IsLeast n es i p in
    elim l.place [
      | inl stays ↦
          let e : (m == i) ≡ true = ground (arith, stays) in
          (
            es,
            rw (e, heapify) refl,
            record {
              heap = record { edges = λ c r s. ground (arith, v.edges c, l.least c) };
              size = refl;
              same = λ f. refl;
            },
          )
      | inr (child, inside, below) ↦
          let (ds, run, s) =
            heapify_restores fuel n (swap es i m) m (omega (arith, length-swap es i m))
              (ground arith) (ground arith) inside
              (swap-DownInv n es room i m p q inside child below l.least v) in
          let ne : (m == i) ≡ false = ground arith in
          (
            ds,
            rw (ne, exchange-some n es room i m q inside, heapify) run,
            swap-Sifted n es room i m ds p q (ground arith) inside (ground arith) s,
          )
    ]

root_below :
    (k n : ℕ) (es : List Entry) (i : ℕ)
    → IsHeap n es
    → i < k
    → 0 < i
    → i ≤ n
    → prio_at es 1 ≤ prio_at es i
root_below zero n es i h f p q = absurd (omega arith)
root_below (suc k) n es i h f p q = elim (lt_or_ge 1 i) [
  | inl more ↦ omega (
    arith,
    h.edges i more q,
    root_below k n es (i / 2) h (omega arith) (omega arith) (omega arith),
  )
  | inr one ↦ let e : i ≡ 1 = omega arith in rw e (omega arith)
]

-- The first entry of a heap has the least priority.
pub root_least :
    (n : ℕ) (es : List Entry) (i : ℕ) → IsHeap n es → 0 < i → i ≤ n → prio_at es 1 ≤ prio_at es i
root_least n es i h p q = root_below (suc i) n es i h (omega arith) p q
