-- ===== src/Elf/Ranges/Counts.antt =====
-- How many entries of a queue pass a test.
use pebil.Common.{
  ◌||◌, ℕ, zero, suc, ◌+◌, ◌≤◌, ◌<◌, ◌≡◌, refl, Bool, true, false, List, [], ◌∷◌, arith, ltb,
  if◌then◌else◌,
}
use pebil.Containers.PriorityQueue.{Entry, Queue, entry_at}
use pebil.Containers.PriorityQueue.Cells.{total}
use pebil.Containers.PriorityQueue.Laws.{weight, Removed}

abbrev pub one_if : Bool → ℕ
one_if b = if b then 1 else 0

abbrev pub count : (Entry → Bool) → Queue → ℕ
count p q = weight (λ e. one_if (p e)) q

-- The same for a list.
unfoldable pub count_list : (Entry → Bool) → List Entry → ℕ
count_list p [] = 0
count_list p (e ∷ es) = one_if (p e) + count_list p es

one_if-le : (a b : Bool) → (a ≡ true → b ≡ true) → one_if a ≤ one_if b
one_if-le true b h = rw (h refl) (omega arith)
one_if-le false b h = omega arith

total-le :
    (p r : Entry → Bool) (es : List Entry) (n : ℕ)
    → ((e : Entry) → p e ≡ true → r e ≡ true)
    → total (λ e. one_if (p e)) es n ≤ total (λ e. one_if (r e)) es n
unfolding total
total-le p r es zero h = omega arith
total-le p r es (suc n) h = omega (
  arith,
  total-le p r es n h,
  one_if-le (p (entry_at es (suc n))) (r (entry_at es (suc n))) (h (entry_at es (suc n))),
)

-- A test that implies another passes no more often.
pub count-le :
    (p r : Entry → Bool) (q : Queue)
    → ((e : Entry) → p e ≡ true → r e ≡ true)
    → count p q ≤ count r q
count-le p r q h = total-le p r q.entries q.element_count h

total-zero :
    (p : Entry → Bool) (es : List Entry) (n : ℕ)
    → ((i : ℕ) → 0 < i → i ≤ n → p (entry_at es i) ≡ false)
    → total (λ e. one_if (p e)) es n ≡ 0
unfolding total
total-zero p es zero h = refl
total-zero p es (suc n) h =
    rw (h (suc n) (omega arith) (omega arith), total-zero p es n (λ i l m. h i l (omega arith)))
      refl

pub count-zero :
    (p : Entry → Bool) (q : Queue)
    → ((i : ℕ) → 0 < i → i ≤ q.element_count → p (entry_at q.entries i) ≡ false)
    → count p q ≡ 0
count-zero p q h = total-zero p q.entries q.element_count h

-- In an empty queue no entry passes.
pub count-empty : (p : Entry → Bool) (q : Queue) → q.element_count ≡ 0 → count p q ≡ 0
count-empty p q h = count-zero p q (λ i l m. absurd (omega arith))

pub count-Removed :
    {q r : Queue} {e : Entry} (p : Entry → Bool)
    → Removed q e r
    → count p q ≡ count p r + one_if (p e)
count-Removed p removed = removed.holds (λ e. one_if (p e))

-- No entry of the queue is below the one that was removed.
pub none_below : {q r : Queue} {e : Entry} → Removed q e r → count (λ x. ltb x.prio e.prio) q ≡ 0
none_below {q} {e = e} removed =
    count-zero (λ x. ltb x.prio e.prio) q (λ i l m. ground (arith, removed.least i))

one_if-or : (a b c : Bool) → (a ≡ true → (b || c) ≡ true) → one_if a ≤ one_if b + one_if c
one_if-or false b c h = omega arith
one_if-or true true c h = omega arith
one_if-or true false c h = rw (h refl) (omega arith)

total-or :
    (p r t : Entry → Bool) (es : List Entry) (n : ℕ)
    → ((e : Entry) → p e ≡ true → (r e || t e) ≡ true)
    → total (λ e. one_if (p e)) es n
      ≤ total (λ e. one_if (r e)) es n + total (λ e. one_if (t e)) es n
unfolding total
total-or p r t es zero h = omega arith
total-or p r t es (suc n) h = omega (
  arith,
  total-or p r t es n h,
  one_if-or (p (entry_at es (suc n))) (r (entry_at es (suc n))) (t (entry_at es (suc n)))
      (h (entry_at es (suc n))),
)

-- A test that implies one of two others passes no more often than both.
pub count-or :
    (p r t : Entry → Bool) (q : Queue)
    → ((e : Entry) → p e ≡ true → (r e || t e) ≡ true)
    → count p q ≤ count r q + count t q
count-or p r t q h = total-or p r t q.entries q.element_count h
