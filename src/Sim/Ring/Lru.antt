-- ===== src/Sim/Ring/Lru.antt =====
-- instcode/Simulation.cpp, `CacheLevel` with the policy trulru: a set against a list of stores in the
-- order of their last use.
use pebil.Common.{
  ℕ, suc, zero, ◌+◌, ◌<◌, ◌≤◌, ◌≡◌, ◌≢◌, refl, ap, subst, ◌∙◌, some, ◌==◌, length, get_or,
  get_elem?-get_or, bind-some, arith, Bool-cases, inl, inr,
}
use native.Mathlib.Nat.{mod_self, mod-eq_of_lt}
use pebil.Sim.Level.{History, CacheSet, trulru, mark_used, history_entry, history_from}
use pebil.Sim.Ring.{blank, next_of, prev_of, moved, move_to_end_lem}
use pebil.Sim.Ring.Age.{Ring, up, down, used, ring-Apart, advance-Ring, moved-Ring}

-- MarkUsed succeeds for each line of a ring, and the ages change as they should.
module _ (n : ℕ) (age : ℕ → ℕ) (s : CacheSet) where
  abbrev pub Marks : ℕ → CacheSet → Type 0
  Marks line s' =
      (mark_used trulru s line ≡ some s')
      × (s'.contents ≡ s.contents)
      × Ring n s'.history_used s'.recently_used (used n age line)

  pub mark_used-Ring :
      (line : ℕ)
      → line < n
      → Ring n s.history_used s.recently_used age
      → (s' : CacheSet) × Marks line s'
  unfolding mark_used next_of
  mark_used-Ring line inside r = elim (Bool-cases (s.recently_used == line)) [
    | inl e ↦
        let same : s.recently_used ≡ line = ground arith in
        (
          record s { recently_used = next_of s.history_used line },
          (
            rw e (
                bind-some _ (get_elem?-get_or s.history_used line blank (omega (arith, r.size)))
                  refl),
            refl,
            subst (λ k. Ring n s.history_used (next_of s.history_used k) (used n age k)) same
                (advance-Ring r),
          ),
        )
    | inr e ↦
        let other : line ≢ s.recently_used = λ t. ground arith in
        (
          record s { history_used = moved s.history_used line s.recently_used },
          (
            rw e (bind-some _ (move_to_end_lem (ring-Apart r line inside other)) refl),
            refl,
            moved-Ring r line inside other,
          ),
        )
  ]

get_or-history_from :
    (assoc a left i : ℕ)
    → i < left
    → get_or (history_from assoc a left) i blank ≡ history_entry assoc (a + i)
unfolding history_from
get_or-history_from assoc a zero i h = absurd (omega arith)
get_or-history_from assoc a (suc left) zero h =
    let e : a ≡ a + 0 = omega arith in ap (history_entry assoc) e
get_or-history_from assoc a (suc left) (suc i) h =
    let e : suc a + i ≡ a + suc i = omega arith in
    get_or-history_from assoc (suc a) left i (omega arith) ∙ ap (history_entry assoc) e

length-history_from : (assoc a left : ℕ) → length (history_from assoc a left) ≡ left
unfolding history_from
length-history_from assoc a zero = refl
length-history_from assoc a (suc left) = ap suc (length-history_from assoc (suc a) left)

module _ (n : ℕ) (two : 2 ≤ n) where
  module _ (k : ℕ) (i : k < n) where
    next_of-history : next_of (history_from n 0 n) k ≡ up n k
    unfolding next_of history_entry
    next_of-history =
        ap (λ (e : History). e.next) (get_or-history_from n 0 n k i)
        ∙ elim (Bool-cases (suc k == n)) [
          | inl e ↦
              let last : 0 + k + 1 ≡ n = ground arith in rw (e, last) (ground (arith, mod_self n))
          | inr e ↦ let below : 0 + k + 1 < n = ground arith in ground (arith, mod-eq_of_lt below)
        ]

    prev_of-history : prev_of (history_from n 0 n) k ≡ down n k
    unfolding prev_of history_entry
    prev_of-history = ap (λ (e : History). e.prev) (get_or-history_from n 0 n k i) ∙ grind arith

  pub history-Ring : Ring n (history_from n 0 n) 0 (λ k. k)
  history-Ring = record {
    two = two;
    size = length-history_from n 0 n;
    oldest_in = omega arith;
    age-oldest = refl;
    age_in = λ k i. i;
    distinct = λ j k i l e. e;
    next_in = λ k i. ground (arith, next_of-history k i);
    age-next = λ k i. next_of-history k i;
    prev_in = λ k i. ground (arith, prev_of-history k i);
    age-prev = λ k i. prev_of-history k i;
  }
