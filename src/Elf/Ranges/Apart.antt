-- ===== src/Elf/Ranges/Apart.antt =====
-- What the check establishes.
use pebil.Common.{
  ℕ, zero, suc, ◌+◌, ◌%◌, ◌^◌, ◌<◌, ◌≡◌, refl, ◌∙◌, ◌↔◌, inl, inr, Bool, true, false, not, ◌&&◌,
  some, List, [], ◌∷◌, arith, ltb, ◌==◌, Bool-cases, length,
}
use pebil.Containers.PriorityQueue.{Entry, Queue, new, delete_min}
use pebil.Containers.PriorityQueue.Laws.{IsValid, insert-Inserted, delete_min-Removed, new-IsValid}
use pebil.Elf.Ranges.{
  FileHeader, SectionHeader, file_ranges, insert_all, check_loop, check_ranges, range,
}
use pebil.Elf.Ranges.Counts.{count-zero, one_if, count, count_list, count-empty}
use pebil.Elf.Ranges.Accepted.{
  intersects, same_range, is_hollow, wraps, starts_below, IsProper, Removed-IsProper, Removed-solid,
  Removed-fits, Accepted, Accepted-step, Accepted-start, Accepted-rest,
}

module _ (fuel : ℕ) (prev : Entry) (q r : Queue) (e : Entry) (more : (q.element_count == 0) ≡ false)
    (run : delete_min q ≡ some (e, r)) where
  round :
      check_loop (suc fuel) prev q
      ≡ elim (ltb e.prio ((prev.prio + prev.value) % 2 ^ 64) && not (e.value == 0)) [
        | true ↦ some false
        | false ↦ check_loop fuel e r
      ]
  unfolding check_loop
  round = rw (more, run, check_loop) refl

  round_rejects :
      (ltb e.prio ((prev.prio + prev.value) % 2 ^ 64) && not (e.value == 0)) ≡ true
      → check_loop (suc fuel) prev q ≡ some false
  round_rejects bad = round ∙ (rw bad refl)

  round_goes_on :
      (ltb e.prio ((prev.prio + prev.value) % 2 ^ 64) && not (e.value == 0)) ≡ false
      → check_loop (suc fuel) prev q ≡ check_loop fuel e r
  round_goes_on good = round ∙ (rw good refl)

check_loop-Accepted :
    (fuel : ℕ) (prev : Entry) (q : Queue)
    → q.element_count < fuel
    → IsProper q
    → prev.prio + prev.value < 2 ^ 64
    → (b : Bool) × (check_loop fuel prev q ≡ some b) × ((b ≡ true) ↔ Accepted prev q)
unfolding check_loop
check_loop-Accepted zero prev q h p fits = absurd (omega arith)
check_loop-Accepted (suc fuel) prev q h p fits = elim (Bool-cases (q.element_count == 0)) [
  | inl done ↦ (
    true,
    at_end done,
    (
      (λ _. record {
        behind = count-empty (starts_below (prev.prio + prev.value)) q (ground arith);
        apart = λ a m. absurd (omega (arith, count-empty (same_range a) q (ground arith)));
      }),
      (λ _. refl),
    ),
  )
  | inr more ↦
      let pos : 0 < q.element_count = ground arith in
      let (e, r, run, removed) = delete_min-Removed q p.valid pos in
      let solid = Removed-solid removed p in
      let no_wrap = Removed-fits removed p in
      elim (Bool-cases (ltb e.prio ((prev.prio + prev.value) % 2 ^ 64) && not (e.value == 0))) [
        | inl bad ↦ (
          false,
          round_rejects fuel prev q r e more run bad,
          (
            (λ f. absurd cc),
            (λ acc. let starts = Accepted-start prev removed p acc in absurd (ground arith)),
          ),
        )
        | inr good ↦
            let (b, rest, accept) =
              check_loop-Accepted fuel e r (omega (arith, removed.smaller))
                (Removed-IsProper removed p) (ground arith) in
            (
              b,
              round_goes_on fuel prev q r e more run good ∙ rest,
              (
                (λ t. Accepted-step prev removed p (ground arith) (accept.0 t)),
                (λ acc. accept.1 (Accepted-rest prev removed p acc)),
              ),
            )
      ]
]
  where
    at_end : (q.element_count == 0) ≡ true → check_loop (suc fuel) prev q ≡ some true
    at_end done = rw (done, check_loop) refl

-- Inserting a list of ranges.
insert_all-count :
    (es : List Entry) (q : Queue)
    → IsValid q
    → (r : Queue) × (insert_all es q ≡ some r)
      × IsValid r
      × (r.element_count ≡ length es + q.element_count)
      × ((p : Entry → Bool) → count p r ≡ count_list p es + count p q)
unfolding insert_all count_list
insert_all-count [] q v = (q, refl, v, omega arith, λ p. omega arith)
insert_all-count (e ∷ es) q v =
    let (m, run, ins) = insert-Inserted e.value e.prio q v in
    let (r, rest, w, size, sums) = insert_all-count es m ins.valid in
    (
      r,
      rw run rest,
      w,
      omega (arith, size, ins.larger),
      λ p. omega (arith, sums p, ins.holds (λ x. one_if (p x))),
    )

count-new : (p : Entry → Bool) (size : ℕ) → count p (new size) ≡ 0
unfolding new
count-new p size = count-empty p (new size) refl

length-file_ranges :
    (h : FileHeader) (sections : List SectionHeader) → 0 < length (file_ranges h sections)
unfolding file_ranges
length-file_ranges h sections = omega arith

-- For a file none of whose ranges is empty and all of which end below 2 ^ 64, `ElfFile::verify`'s check of
-- the ranges ends with an answer, and it is yes exactly if each range of the file meets itself alone: no
-- two ranges, wherever they stand in the file, have a byte in common.
pub check_ranges-apart :
    (h : FileHeader) (sections : List SectionHeader)
    → count_list is_hollow (file_ranges h sections) ≡ 0
    → count_list wraps (file_ranges h sections) ≡ 0
    → (b : Bool) × (check_ranges h sections ≡ some b)
      × ((b ≡ true) ↔ (
          (a : Entry)
          → 0 < count_list (same_range a) (file_ranges h sections)
          → count_list (intersects a) (file_ranges h sections) ≡ 1))
unfolding check_ranges
check_ranges-apart h sections solid fits =
    let rs = file_ranges h sections in
    let (v, none_yet) = new-IsValid (suc (length sections) + 3) (omega arith) in
    let start = new (suc (length sections) + 3) in
    let (q, filled, w, size, sums) = insert_all-count rs start v in
    let fresh = λ (p : Entry → Bool). count-new p (suc (length sections) + 3) in
    let proper : IsProper q = record {
      valid = w;
      solid = omega (arith, sums is_hollow, fresh is_hollow);
      fits = omega (arith, sums wraps, fresh wraps);
    } in
    let pos : 0 < q.element_count = omega (arith, size, length-file_ranges h sections) in
    let more : (q.element_count == 0) ≡ false = ground arith in
    let (e, r, run, removed) = delete_min-Removed q w pos in
    let no_wrap = Removed-fits removed proper in
    let (b, rest, accept) =
      check_loop-Accepted (suc r.element_count) e r (omega arith) (Removed-IsProper removed proper)
        (ground arith) in
    (
      b,
      rw (filled, more, run) rest,
      (
        (λ t a m.
            let acc = Accepted-step (range 0 0) removed proper (omega arith) (accept.0 t) in
            let met = acc.apart a (omega (arith, m, sums (same_range a), fresh (same_range a))) in
            omega (arith, met, sums (intersects a), fresh (intersects a))),
        (λ apart.
            let acc : Accepted (range 0 0) q = record {
              behind = count-zero (starts_below 0) q (λ i l m. ground arith);
              apart = λ a m. omega (
                arith,
                apart a (omega (arith, m, sums (same_range a), fresh (same_range a))),
                sums (intersects a),
                fresh (intersects a),
              );
            } in
            accept.1 (Accepted-rest (range 0 0) removed proper acc)),
      ),
    )
