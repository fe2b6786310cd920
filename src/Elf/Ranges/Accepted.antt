-- ===== src/Elf/Ranges/Accepted.antt =====
-- What it means that the ranges of a queue are apart, and how that goes over to the queue without its
-- least range, and back.
use pebil.Common.{
  ℕ, ◌+◌, ◌^◌, ◌≤◌, ◌<◌, ◌≡◌, refl, inl, inr, Bool, true, false, ◌&&◌, ◌||◌, arith, ltb, leb, ◌==◌,
  Bool-cases,
}
use pebil.Containers.PriorityQueue.{Entry, Queue}
use pebil.Containers.PriorityQueue.Laws.{IsValid, Removed}
use pebil.Elf.Ranges.Counts.{count-or, none_below, one_if, count, count-le, count-Removed}

-- Two ranges have a byte in common.
abbrev pub intersects : Entry → Entry → Bool
intersects a b = ltb a.prio (b.prio + b.value) && ltb b.prio (a.prio + a.value)

abbrev pub same_range : Entry → Entry → Bool
same_range a b = a.prio == b.prio && a.value == b.value

-- Ranges with no byte, and ranges whose end is not a uint64_t.
abbrev pub is_hollow : Entry → Bool
is_hollow e = e.value == 0

abbrev pub wraps : Entry → Bool
wraps e = leb (2 ^ 64) (e.prio + e.value)

abbrev pub starts_below : ℕ → Entry → Bool
starts_below b e = ltb e.prio b

-- The queue holds proper ranges only.
pub record IsProper (q : Queue) : Type 0 where
  pub valid : IsValid q
  pub solid : count is_hollow q ≡ 0
  pub fits : count wraps q ≡ 0

one_if-zero : (b : Bool) → one_if b ≡ 0 → b ≡ false
one_if-zero true h = absurd (omega arith)
one_if-zero false h = refl

module _ {q r : Queue} {e : Entry} (removed : Removed q e r) where
  pub Removed-IsProper : IsProper q → IsProper r
  Removed-IsProper p = record {
    valid = removed.valid;
    solid = omega (arith, count-Removed is_hollow removed, p.solid);
    fits = omega (arith, count-Removed wraps removed, p.fits);
  }

  pub Removed-solid : IsProper q → is_hollow e ≡ false
  Removed-solid p =
      one_if-zero (is_hollow e) (omega (arith, count-Removed is_hollow removed, p.solid))

  pub Removed-fits : IsProper q → wraps e ≡ false
  Removed-fits p = one_if-zero (wraps e) (omega (arith, count-Removed wraps removed, p.fits))

-- Every range of `q` starts at the end of `prev` or behind, and meets no range of `q` but itself.
pub record Accepted (prev : Entry) (q : Queue) : Type 0 where
  pub behind : count (starts_below (prev.prio + prev.value)) q ≡ 0
  pub apart : (a : Entry) → 0 < count (same_range a) q → count (intersects a) q ≡ 1

module _ (prev : Entry) {q r : Queue} {e : Entry} (removed : Removed q e r) (proper : IsProper q)
    (ok : prev.prio + prev.value ≤ e.prio) (acc : Accepted e r) where
  nothing_below :
      (p : Entry → Bool)
      → ((x : Entry) → p x ≡ true → starts_below (e.prio + e.value) x ≡ true)
      → count p r ≡ 0
  nothing_below p h = omega (arith, count-le p (starts_below (e.prio + e.value)) r h, acc.behind)

  -- The range that was removed meets itself only.
  first_apart : (a : Entry) → same_range a e ≡ true → count (intersects a) q ≡ 1
  first_apart a same =
      let solid = Removed-solid removed proper in
      let self : intersects a e ≡ true = ground arith in
      let others = nothing_below (intersects a) (λ x t. ground arith) in
      rw (count-Removed (intersects a) removed, others, self) (omega arith)

  -- A range that is left does not meet the one that was removed.
  rest_apart : (a : Entry) → 0 < count (same_range a) r → count (intersects a) q ≡ 1
  rest_apart a m = elim (Bool-cases (intersects a e)) [
    | inl meets ↦ absurd (omega (arith, nothing_below (same_range a) (λ x t. ground arith)))
    | inr not_meets ↦
        rw (count-Removed (intersects a) removed, not_meets, acc.apart a m) (omega arith)
  ]

  pub Accepted-step : Accepted prev q
  Accepted-step = record {
    behind =
        let none_left =
          nothing_below (starts_below (prev.prio + prev.value)) (λ x t. ground arith) in
        let not_first : starts_below (prev.prio + prev.value) e ≡ false = ground arith in
        rw (count-Removed (starts_below (prev.prio + prev.value)) removed, none_left, not_first)
          (omega arith);
    apart = λ a m. elim (Bool-cases (same_range a e)) [
      | inl same ↦ first_apart a same
      | inr other ↦
          let split = count-Removed (same_range a) removed in
          let split' = rw other at split in rest_apart a (omega (arith, split'))
    ];
  }

-- Conversely, what is accepted before a removal is accepted after it.
module _ (prev : Entry) {q r : Queue} {e : Entry} (removed : Removed q e r) (proper : IsProper q)
    (acc : Accepted prev q) where
  pub Accepted-start : prev.prio + prev.value ≤ e.prio
  Accepted-start =
      let none_first = one_if-zero (starts_below (prev.prio + prev.value) e) (
        omega (arith, count-Removed (starts_below (prev.prio + prev.value)) removed, acc.behind)) in
      ground arith

  -- A range of the queue meets itself.
  meets_itself : (a : Entry) → count (same_range a) r ≤ count (intersects a) r
  meets_itself a = omega (
    arith,
    (Removed-IsProper removed proper).solid,
    count-or (same_range a) (intersects a) is_hollow r (λ x h. ground arith),
  )

  pub Accepted-rest : Accepted e r
  Accepted-rest =
      let solid = Removed-solid removed proper in
      let same : same_range e e ≡ true = ground arith in
      let self : intersects e e ≡ true = ground arith in
      let met = acc.apart e (
        let c = count-Removed (same_range e) removed in
        let c' = rw same at c in omega (arith, c')) in
      let rest = count-Removed (intersects e) removed in
      let rest' = rw self at rest in
      let lower = none_below removed in
      let near =
        count-or (starts_below (e.prio + e.value)) (λ x. intersects e x || is_hollow x)
          (λ x. ltb x.prio e.prio) r (λ x h. ground arith) in
      let near' =
        count-or (λ x. intersects e x || is_hollow x) (intersects e) is_hollow r (λ x h. h) in
      record {
        behind = omega (
          arith,
          near,
          near',
          met,
          rest',
          (Removed-IsProper removed proper).solid,
          lower,
          count-Removed (λ x. ltb x.prio e.prio) removed,
        );
        apart = λ a m. omega (
          arith,
          meets_itself a,
          m,
          acc.apart a (omega (arith, m, count-Removed (same_range a) removed)),
          count-Removed (intersects a) removed,
        );
      }
