-- ===== src/Sim/Stats.antt =====
-- instcode/Simulation.cpp, `CacheStats`: the hits and misses of each memory instruction at each level.
-- Stats[memid] has LevelCount elements, so the loops over memid and over the levels go over the lists.
pub mod Consistent
use pebil.Common.{
  ℕ, zero, suc, ◌+◌, ◌%◌, ◌^◌, Bool, true, false, not, ◌&&◌, Option, none, some, List, [], ◌∷◌,
  ◌==◌, ltb, leb, if◌then◌else◌, get_elem?, set, replicate, ◌>>=◌, ◌>>◌, ensure, length,
}

pub record LevelStats : Type 0 where
  pub hit_count : ℕ
  pub miss_count : ℕ

pub record CacheStats : Type 0 where
  pub level_count : ℕ
  pub capacity : ℕ
  pub stats : List (List LevelStats)

-- Verify. Level 0 is read first; each level after it is compared with the misses of the one before.
unfoldable pub verify_levels : ℕ → List LevelStats → Bool
verify_levels prev_misses [] = true
verify_levels prev_misses (x ∷ rest) =
    (x.hit_count + x.miss_count) % 2 ^ 64 == prev_misses && verify_levels x.miss_count rest

unfoldable pub verify_mem : List LevelStats → Option Bool
unfolding verify_levels
verify_mem [] = none
verify_mem (x ∷ rest) = some (verify_levels x.miss_count rest)

unfoldable pub verify_rows : List (List LevelStats) → Option Bool
verify_rows [] = some true
verify_rows (row ∷ rows) =
    let rest = verify_rows rows in verify_mem row >>= λ good. if good then rest else some false

unfoldable pub verify : CacheStats → Option Bool
unfolding verify_rows verify_mem
verify s = verify_rows s.stats

-- The constructor, with NewMem for each memid.
unfoldable pub new : ℕ → ℕ → Option CacheStats
new lvl capacity = do
  let made : CacheStats = record {
    level_count = lvl;
    capacity = capacity;
    stats = replicate capacity (replicate lvl (record { hit_count = 0; miss_count = 0 }));
  }
  good ← verify made
  ensure good
  some made

module _ (change : LevelStats → LevelStats) where
  -- The counts of one instruction at one level are changed.
  unfoldable pub at_level : ℕ → ℕ → CacheStats → Option CacheStats
  at_level memid lvl s = do
    row ← get_elem? s.stats memid
    x ← get_elem? row lvl
    some (record s { stats = set s.stats memid (set row lvl (change x)) })

unfoldable pub hit : ℕ → ℕ → ℕ → CacheStats → Option CacheStats
unfolding at_level
hit memid lvl cnt s =
    at_level (λ x. record x { hit_count = (x.hit_count + cnt) % 2 ^ 64 }) memid lvl s

unfoldable pub miss : ℕ → ℕ → ℕ → CacheStats → Option CacheStats
unfolding at_level
miss memid lvl cnt s =
    at_level (λ x. record x { miss_count = (x.miss_count + cnt) % 2 ^ 64 }) memid lvl s
