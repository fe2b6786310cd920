-- ===== src/Sim/Ring/Age.antt =====
-- instcode/Simulation.cpp, `CacheLevel::MarkUsed` for true LRU: the ring gives each line an age.
use pebil.Common.{
  ℕ, suc, ◌-◌, ◌<◌, ◌≤◌, ◌≡◌, ◌≢◌, refl, ap, ◌∙◌, List, ◌==◌, ltb, if◌then◌else◌, length, arith,
  Bool-cases, inl, inr,
}
use pebil.Sim.Level.{History}
use pebil.Sim.Ring.{
  next_of, prev_of, Apart, newest, moved, prev_of-moved, next_of-moved, length-moved,
}

-- The next and the previous age, in a circle.
abbrev pub up : ℕ → ℕ → ℕ
up n r = if suc r == n then 0 else suc r

abbrev pub down : ℕ → ℕ → ℕ
down n r = if r == 0 then n - 1 else r - 1

-- The lines of a set by age: the oldest has age 0, the one that was used last age n - 1.
pub record Ring (n : ℕ) (h : List History) (oldest : ℕ) (age : ℕ → ℕ) : Type 0 where
  pub two : 2 ≤ n
  pub size : length h ≡ n
  pub oldest_in : oldest < n
  pub age-oldest : age oldest ≡ 0
  pub age_in : (k : ℕ) → k < n → age k < n
  pub distinct : (j k : ℕ) → j < n → k < n → age j ≡ age k → j ≡ k
  pub next_in : (k : ℕ) → k < n → next_of h k < n
  pub age-next : (k : ℕ) → k < n → age (next_of h k) ≡ up n (age k)
  pub prev_in : (k : ℕ) → k < n → prev_of h k < n
  pub age-prev : (k : ℕ) → k < n → age (prev_of h k) ≡ down n (age k)

-- What becomes of the age `b` when the line of age `a` is used.
abbrev pub renew : ℕ → ℕ → ℕ → ℕ
renew n a b = if b == a then n - 1 else if ltb a b then b - 1 else b

abbrev pub used : ℕ → (ℕ → ℕ) → ℕ → ℕ → ℕ
used n age line k = renew n (age line) (age k)

-- The age of the newest line once the line of age `a` is taken out.
abbrev newest_age : ℕ → ℕ → ℕ
newest_age n a = if suc a == n then n - 2 else n - 1

module _ (n a b : ℕ) (two : 2 ≤ n) (pos : 0 < a) (below : a < n) (inside : b < n) where
  renew-up :
      renew n a (
        if newest_age n a == b
        then a
        else if a == b
        then 0
        else if down n a == b
        then up n a
        else up n b)
      ≡ up n (renew n a b)
  renew-up = ground arith

  renew-down :
      renew n a (
        if 0 == b
        then a
        else if a == b
        then newest_age n a
        else if up n a == b
        then down n a
        else down n b)
      ≡ down n (renew n a b)
  renew-down = ground arith

  renew-lt : renew n a b < n
  renew-lt = ground arith

renew_injective : (n a b c : ℕ) → a < n → b < n → c < n → renew n a b ≡ renew n a c → b ≡ c
renew_injective n a b c ha hb hc e = ground arith

module _ {n : ℕ} {h : List History} {oldest : ℕ} {age : ℕ → ℕ} (r : Ring n h oldest age) where
  pub advance-Ring : Ring n h (next_of h oldest) (used n age oldest)
  advance-Ring = record {
    two = r.two;
    size = r.size;
    oldest_in = r.next_in oldest r.oldest_in;
    age-oldest = ground (arith, r.two, r.age-oldest, r.age-next oldest r.oldest_in);
    age_in = λ k i. ground (arith, r.two, r.age_in k i, r.age-oldest);
    distinct = λ j k i l e.
        r.distinct j k i l (ground (arith, r.two, r.age_in k l, r.age_in j i, r.age-oldest));
    next_in = r.next_in;
    age-next = λ k i. ground (arith, r.two, r.age_in k i, r.age-oldest, r.age-next k i);
    prev_in = r.prev_in;
    age-prev = λ k i. ground (arith, r.two, r.age_in k i, r.age-oldest, r.age-prev k i);
  }

  module _ (line : ℕ) (inside : line < n) (other : line ≢ oldest) where
    age_pos : 0 < age line
    age_pos = elim (Bool-cases (age line == 0)) [
      | inl e ↦
          absurd (other (r.distinct line oldest inside r.oldest_in (ground (arith, r.age-oldest))))
      | inr e ↦ ground arith
    ]

    pub ring-Apart : Apart h line oldest
    ring-Apart = record {
      inside = omega (arith, r.size);
      oldest_inside = omega (arith, r.size, r.oldest_in);
      next_inside = omega (arith, r.size, r.next_in line inside);
      prev_inside = omega (arith, r.size, r.prev_in line inside);
      last_inside = omega (arith, r.size, r.prev_in oldest r.oldest_in);
      other = other;
      next_other = λ e.
          let same : age (next_of h line) ≡ age line = ap age e in
          ground (arith, r.two, r.age-next line inside);
      prev_other = λ e.
          let same : age (prev_of h line) ≡ age line = ap age e in
          ground (arith, r.two, r.age_in line inside, r.age-prev line inside);
    }

    newest_in : newest h line oldest < n
    newest_in = ground (arith, r.prev_in line inside, r.prev_in oldest r.oldest_in)

    -- Links are compared by their ages.
    same_line : (j k : ℕ) → j < n → k < n → (j == k) ≡ (age j == age k)
    same_line j k hj hk = elim (Bool-cases (age j == age k)) [
      | inl e ↦ let same : j ≡ k = r.distinct j k hj hk (ground arith) in rw e (ground arith)
      | inr e ↦ elim (Bool-cases (j == k)) [
        | inl t ↦
            let same : j ≡ k = ground arith in
            let ages : age j ≡ age k = ap age same in ground arith
        | inr t ↦ rw (e, t) refl
      ]
    ]

    age-newest : age (newest h line oldest) ≡ newest_age n (age line)
    age-newest = elim (Bool-cases (next_of h line == oldest)) [
      | inl e ↦ rw e (
          ground (
            arith,
            r.two,
            age_pos,
            r.age_in line inside,
            r.age-oldest,
            r.age-next line inside,
            r.age-prev line inside,
            same_line (next_of h line) oldest (r.next_in line inside) r.oldest_in,
          ))
      | inr e ↦ rw e (
          ground (
            arith,
            r.two,
            age_pos,
            r.age_in line inside,
            r.age-oldest,
            r.age-next line inside,
            r.age-prev oldest r.oldest_in,
            same_line (next_of h line) oldest (r.next_in line inside) r.oldest_in,
          ))
    ]

    module _ (k : ℕ) (i : k < n) where
      age-next-moved : age (next_of (moved h line oldest) k) ≡ (
          if newest_age n (age line) == age k
          then age line
          else if age line == age k
          then 0
          else if down n (age line) == age k
          then up n (age line)
          else up n (age k))
      age-next-moved =
          rw
            (
              next_of-moved ring-Apart k,
              same_line _ k newest_in i,
              age-newest,
              same_line line k inside i,
              same_line (prev_of h line) k (r.prev_in line inside) i,
              r.age-prev line inside,
            )
            (ground (arith, r.age-oldest, r.age-next line inside, r.age-next k i))

      age-prev-moved : age (prev_of (moved h line oldest) k) ≡ (
          if 0 == age k
          then age line
          else if age line == age k
          then newest_age n (age line)
          else if up n (age line) == age k
          then down n (age line)
          else down n (age k))
      age-prev-moved =
          rw
            (
              prev_of-moved ring-Apart k,
              same_line oldest k r.oldest_in i,
              same_line line k inside i,
              same_line (next_of h line) k (r.next_in line inside) i,
              r.age-next line inside,
              r.age-oldest,
            )
            (ground (arith, age-newest, r.age-prev line inside, r.age-prev k i))

      next_in-moved : next_of (moved h line oldest) k < n
      next_in-moved =
          rw (next_of-moved ring-Apart k)
            (ground (arith, r.oldest_in, r.next_in line inside, r.next_in k i))

      prev_in-moved : prev_of (moved h line oldest) k < n
      prev_in-moved =
          rw (prev_of-moved ring-Apart k)
            (ground (arith, newest_in, r.prev_in line inside, r.prev_in k i))

    pub moved-Ring : Ring n (moved h line oldest) oldest (used n age line)
    moved-Ring = record {
      two = r.two;
      size = length-moved ring-Apart ∙ r.size;
      oldest_in = r.oldest_in;
      age-oldest = ground (arith, r.age-oldest, age_pos);
      age_in =
          λ k i. renew-lt n (age line) (age k) r.two age_pos (r.age_in line inside) (r.age_in k i);
      distinct = λ j k i l e. r.distinct j k i l (
          renew_injective n (age line) (age j) (age k) (r.age_in line inside) (r.age_in j i)
            (r.age_in k l) e);
      next_in = λ k i. next_in-moved k i;
      age-next = λ k i.
          ap (renew n (age line)) (age-next-moved k i)
          ∙ renew-up n (age line) (age k) r.two age_pos (r.age_in line inside) (r.age_in k i);
      prev_in = λ k i. prev_in-moved k i;
      age-prev = λ k i.
          ap (renew n (age line)) (age-prev-moved k i)
          ∙ renew-down n (age line) (age k) r.two age_pos (r.age_in line inside) (r.age_in k i);
    }
