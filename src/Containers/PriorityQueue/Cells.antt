-- ===== src/Containers/PriorityQueue/Cells.antt =====
-- The cells of the heap under writes: reading back, and the sum of a weight over the cells in use.
use pebil.Common.{
  get_or-set, ℕ, zero, suc, ◌+◌, ◌≤◌, ◌<◌, ◌≡◌, ◌≢◌, refl, List, [], ◌∷◌, ◌++◌, ◌==◌, if◌then◌else◌,
  set, length, length-set, lt_or_ge, inl, inr, arith,
}
use pebil.Containers.PriorityQueue.{Entry, zeros, entry_at, swap}

pub entry_at-set :
    (es : List Entry) (i j : ℕ) (e : Entry)
    → i < length es
    → entry_at (set es i e) j ≡ (if i == j then e else entry_at es j)
entry_at-set es i j e h = get_or-set es i j e zeros h

pub entry_at-swap :
    (es : List Entry) (i j k : ℕ)
    → i < length es
    → j < length es
    → entry_at (swap es i j) k
      ≡ (if j == k then entry_at es i else if i == k then entry_at es j else entry_at es k)
unfolding swap
entry_at-swap es i j k hi hj =
    rw
      (
        entry_at-set (set es i (entry_at es j)) j k (entry_at es i)
            (omega (arith, length-set es i (entry_at es j))),
        entry_at-set es i k (entry_at es j) hi,
      )
      refl

pub length-swap : (es : List Entry) (i j : ℕ) → length (swap es i j) ≡ length es
unfolding swap
length-swap es i j = omega (
  arith,
  length-set es i (entry_at es j),
  length-set (set es i (entry_at es j)) j (entry_at es i),
)

-- The sum of a weight over cells 1 to n. Two arrays hold the same entries, each as often, exactly if
-- the sums are equal for every weight.
unfoldable pub total : (Entry → ℕ) → List Entry → ℕ → ℕ
total f es zero = 0
total f es (suc n) = total f es n + f (entry_at es (suc n))

pub total-add_one :
    (f : Entry → ℕ) (es : List Entry) (n : ℕ)
    → total f es (n + 1) ≡ total f es n + f (entry_at es (n + 1))
unfolding total
total-add_one f es n = let e : n + 1 ≡ suc n = omega arith in rw e refl

pub total-ext :
    (f : Entry → ℕ) (es ds : List Entry) (n : ℕ)
    → ((i : ℕ) → 0 < i → i ≤ n → entry_at es i ≡ entry_at ds i)
    → total f es n ≡ total f ds n
unfolding total
total-ext f es ds zero h = refl
total-ext f es ds (suc n) h =
    rw (h (suc n) (omega arith) (omega arith), total-ext f es ds n (λ i p q. h i p (omega arith)))
      refl

pub total-set :
    (f : Entry → ℕ) (es : List Entry) (n i : ℕ) (e : Entry)
    → 0 < i
    → i ≤ n
    → n < length es
    → total f (set es i e) n + f (entry_at es i) ≡ total f es n + f e
unfolding total
total-set f es zero i e p q h = absurd (omega arith)
total-set f es (suc n) i e p q h = elim (lt_or_ge i (suc n)) [
  | inl below ↦
      let same : entry_at (set es i e) (suc n) ≡ entry_at es (suc n) =
        ground (arith, entry_at-set es i (suc n) e) in
      rw same (omega (arith, total-set f es n i e p (omega arith) (omega arith)))
  | inr at ↦
      let here : i ≡ suc n = omega arith in
      let new : entry_at (set es i e) (suc n) ≡ e = ground (arith, entry_at-set es i (suc n) e) in
      let old = total-ext f (set es i e) es n (λ j _ r. ground (arith, entry_at-set es i j e)) in
      rw (new, old, here) (omega arith)
]

pub total-swap :
    (f : Entry → ℕ) (es : List Entry) (n i j : ℕ)
    → 0 < i
    → i ≤ n
    → 0 < j
    → j ≤ n
    → i ≢ j
    → n < length es
    → total f (swap es i j) n ≡ total f es n
unfolding swap
total-swap f es n i j pi qi pj qj ne h =
    let first = total-set f es n i (entry_at es j) pi qi h in
    let second =
      total-set f (set es i (entry_at es j)) n j (entry_at es i) pj qj
        (omega (arith, length-set es i (entry_at es j))) in
    let kept : entry_at (set es i (entry_at es j)) j ≡ entry_at es j =
      ground (arith, entry_at-set es i j (entry_at es j)) in
    let second' = rw kept at second in omega (arith, first, second')

-- Appending cells behind those in use.
pub entry_at-append :
    (es ds : List Entry) (i : ℕ) → i < length es → entry_at (es ++ ds) i ≡ entry_at es i
entry_at-append [] ds i h = absurd (omega arith)
entry_at-append (x ∷ es) ds zero h = refl
entry_at-append (x ∷ es) ds (suc i) h = entry_at-append es ds i (omega arith)
