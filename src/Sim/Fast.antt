-- ===== src/Sim/Fast.antt =====
-- instcode/Simulation.cpp, `HighlyAssociativeCacheLevel`: a set whose lines are found by a map. The map
-- fastcontents[setid] is a function; count(x) > 0 is `some`.
pub mod Same
use pebil.Common.{
  ℕ, Bool, true, false, Option, none, some, List, ◌==◌, if◌then◌else◌, get_elem?, set, ◌>>=◌,
}
use pebil.Sim.Level.{ReplacementPolicy, CacheSet, mark_used, line_to_replace}

abbrev pub FastMap : Type 0
FastMap = ℕ → Option ℕ

-- Init clears the maps.
abbrev pub no_lines : FastMap
no_lines store = none

unfoldable pub erase : FastMap → ℕ → FastMap
erase f store x = if x == store then none else f x

unfoldable pub insert : FastMap → ℕ → ℕ → FastMap
insert f store line x = if x == store then some line else f x

unfoldable pub fast_search : FastMap → ℕ → Option ℕ
fast_search f store = elim (f store) [ some line ↦ some line | none ↦ none ]

unfoldable pub fast_replace :
    ReplacementPolicy → CacheSet → FastMap → ℕ → ℕ → Option (ℕ × CacheSet × FastMap)
fast_replace pol s f store line = do
  prev ← get_elem? s.contents line
  let kept : FastMap = elim (f prev) [ some _ ↦ erase f prev | none ↦ f ]
  s' ← mark_used pol (record s { contents = set s.contents line store }) line
  some (prev, s', insert kept store line)

-- CacheLevel::Process with the Search and the Replace of this class.
unfoldable pub fast_access :
    ReplacementPolicy → ℕ → ℕ → CacheSet → FastMap → ℕ → Option (Bool × CacheSet × FastMap)
fast_access pol assoc rand s f store = elim (fast_search f store) [
  | some line ↦ mark_used pol s line >>= λ s'. some (true, s', f)
  | none ↦ line_to_replace pol assoc rand s >>= λ line.
      fast_replace pol s f store line >>= λ r. some (false, r.1, r.2)
]
