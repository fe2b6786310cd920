-- ===== src/Sim/Ring/Single.antt =====
-- instcode/Simulation.cpp, `CacheLevel` with the policy trulru and one line in a set: Init links the
-- line to a line 1, which is not there.
use pebil.Common.{ℕ, ◌≡◌, ◌≢◌, refl, none, some, [], ◌∷◌, ◌==◌, arith, Bool-cases, inl, inr, false}
use pebil.Sim.Level.{
  CacheSet, trulru, initial_history, history_from, history_entry, access, search, search_from,
  mark_used, line_to_replace, replace,
}
use pebil.Sim.Level.Access.{access-miss}

abbrev pub single : ℕ → ℕ → CacheSet
single store oldest = record {
  contents = store ∷ [];
  recently_used = oldest;
  history_used = initial_history trulru 1;
}

other : (a b : ℕ) → b ≢ a → (a == b) ≡ false
other a b h = elim (Bool-cases (a == b)) [ inl e ↦ absurd (h (ground arith)) | inr e ↦ e ]

not_there : (held store oldest : ℕ) → store ≢ held → search 1 (single held oldest) store ≡ some none
unfolding search search_from
not_there held store oldest h = rw (other held store h) refl

-- The first miss goes well, and leaves line 1 as the oldest.
first_miss :
    (held store rand : ℕ)
    → store ≢ held
    → access trulru 1 rand (single held 0) store ≡ some (false, single store 1)
unfolding replace line_to_replace mark_used initial_history history_from history_entry
first_miss held store rand h =
    access-miss trulru 1 rand store (single held 0) (not_there held store 0 h) refl refl

-- The next miss writes to line 1.
second_miss :
    (held store rand : ℕ) → store ≢ held → access trulru 1 rand (single held 1) store ≡ none
unfolding access replace line_to_replace
second_miss held store rand h = rw (not_there held store 1 h) refl

-- A new set of one line with the policy trulru, as Init makes it, and two different stores, the first not
-- 0: the access of the first is a miss, which replaces line 0 and leaves the set with the store and with
-- line 1 as the line to replace, though it has one line only; the search for the second store finds
-- nothing, the line to replace is line 1, and its replacement, which reads and writes a line that is not
-- there, fails, and with it the access of the second store.
pub single_line-fails :
    (a b rand : ℕ)
    → a ≢ 0
    → b ≢ a
    → (access trulru 1 rand (single 0 0) a ≡ some (false, single a 1))
      × (search 1 (single a 1) b ≡ some none)
      × (line_to_replace trulru 1 rand (single a 1) ≡ some 1)
      × (replace trulru (single a 1) b 1 ≡ none)
      × (access trulru 1 rand (single a 1) b ≡ none)
unfolding line_to_replace replace
single_line-fails a b rand ha hb =
    (first_miss 0 a rand ha, not_there a b 1 hb, refl, refl, second_miss a b rand hb)
