-- ===== src/Tests/Caches.antt =====
-- The cache simulation at small caches.
use pebil.Common.{
  ℕ, zero, suc, ◌≡◌, refl, true, false, none, some, List, [], ◌∷◌, arith, replicate, get_or, length,
  ◌<◌, ◌≤◌,
}
use pebil.Sim.Level.{
  CacheSet, CacheLevel, ReplacementPolicy, trulru, nmru, direct, access, line_to_replace, replace,
  search,
}
use pebil.Sim.Ring.Recency.Refines.{Recent}
use pebil.Sim.Ring.Recency.Run.{
  accesses, recent_accesses, Used, used_none, used_more, new_set, zeros, accesses_lem,
}
use pebil.Sim.Ring.Single.{single, single_line-fails}
use pebil.Sim.Level.Safe.{SetOk}
use pebil.Sim.Stats.{CacheStats, verify}
use pebil.Sim.Structure.{Level, inclusive, exclusive, process}
use pebil.Sim.Structure.Cache.{CacheOk}
use pebil.Sim.Structure.Total.{level_at, Structured, Rows, process-verify}
use pebil.Sim.Structure.Init.{Made, init-CacheOk}
use pebil.Sim.Fast.{no_lines}
use pebil.Sim.Fast.Same.{Agree, Synced, no_lines-Synced, fast_access-access}
use pebil.Sim.Ranges.{RangeStats, new_ranges, process_ranges}
use pebil.Sim.Ranges.Extent.{known_none, known_more, Reports, addresses_of, process_ranges-Extent}

abbrev five_stores : List ℕ
five_stores = 5 ∷ 7 ∷ 5 ∷ 9 ∷ 7 ∷ []

five_stores-Used : Used five_stores
five_stores-Used = used_more _ _ (omega arith) (
    used_more _ _ (omega arith) (
      used_more _ _ (omega arith)
        (used_more _ _ (omega arith) (used_more _ _ (omega arith) used_none))))

accesses_lem_example :
    (s' : CacheSet) × (accesses trulru 2 0 five_stores (new_set 2 (omega arith))
      ≡ some ((recent_accesses (zeros 2) five_stores).0, s'))
    × Recent 2 s' (recent_accesses (zeros 2) five_stores).1
accesses_lem_example = accesses_lem 2 (omega arith) 0 five_stores five_stores-Used

-- The third access hits; 9 takes the place of 7, so the last one misses.
five_answers : (recent_accesses (zeros 2) five_stores).0 ≡ false ∷ false ∷ true ∷ false ∷ false ∷ []
unfolding recent_accesses
five_answers = refl

single_line-fails_example :
    (access trulru 1 0 (single 0 0) 5 ≡ some (false, single 5 1))
    × (search 1 (single 5 1) 7 ≡ some none)
    × (line_to_replace trulru 1 0 (single 5 1) ≡ some 1)
    × (replace trulru (single 5 1) 7 1 ≡ none)
    × (access trulru 1 0 (single 5 1) 7 ≡ none)
single_line-fails_example = single_line-fails 5 7 0 (omega arith) (omega arith)

init-CacheOk_example : (c : CacheLevel) × Made 0 128 2 16 4 trulru c
init-CacheOk_example =
    init-CacheOk 0 128 2 16 4 trulru (omega arith) (omega arith) (omega arith) (omega arith)
      (omega arith) (omega arith) (omega arith)

-- One set of two lines.
abbrev small_set : CacheSet
small_set = record { contents = 0 ∷ 0 ∷ []; recently_used = 0; history_used = [] }

abbrev small : ℕ → ReplacementPolicy → CacheLevel
small lvl pol = record {
  level = lvl;
  size = 32;
  associativity = 2;
  linesize = 16;
  replpolicy = pol;
  countsets = 1;
  linesize_bits = 4;
  sets = small_set ∷ [];
}

small-CacheOk : (lvl : ℕ) → CacheOk lvl (small lvl nmru)
small-CacheOk lvl = record {
  place = refl;
  some_set = omega arith;
  counted = refl;
  good = λ k h. good_at k h;
}
  where
    good_at :
        (k : ℕ)
        → k < 1
        → SetOk nmru 2 (
            get_or
              (small_set ∷ [])
              k
              (record { contents = []; recently_used = 0; history_used = [] }))
    good_at zero h = record { some_line = omega arith; lines = refl; ordered = tt }
    good_at (suc k) h = absurd (omega arith)

abbrev three_levels : List Level
three_levels =
    record { cache = small 0 nmru; kind = inclusive }
    ∷ record { cache = small 1 nmru; kind = exclusive 1 2 }
    ∷ record { cache = small 2 nmru; kind = exclusive 1 2 }
    ∷ []

three_levels-Structured : Structured 3 1 three_levels
three_levels-Structured = record {
  size = refl;
  few = omega arith;
  caches = λ i h. cache_at i h;
  upper = λ i h l. upper_at i h l;
  lower = λ i h l. lower_at i h l;
}
  where
    cache_at : (i : ℕ) → i < 3 → CacheOk i (level_at three_levels i).cache
    cache_at zero h = small-CacheOk 0
    cache_at (suc zero) h = small-CacheOk 1
    cache_at (suc (suc zero)) h = small-CacheOk 2
    cache_at (suc (suc (suc i))) h = absurd (omega arith)

    upper_at : (i : ℕ) → i < 3 → i < 1 → (level_at three_levels i).kind ≡ inclusive
    upper_at zero h l = refl
    upper_at (suc i) h l = absurd (omega arith)

    lower_at : (i : ℕ) → i < 3 → 1 ≤ i → (level_at three_levels i).kind ≡ exclusive 1 2
    lower_at zero h l = absurd (omega arith)
    lower_at (suc zero) h l = refl
    lower_at (suc (suc zero)) h l = refl
    lower_at (suc (suc (suc i))) h l = absurd (omega arith)

abbrev fresh_counts : CacheStats
fresh_counts = record {
  level_count = 3;
  capacity = 1;
  stats = replicate 3 (record { hit_count = 0; miss_count = 0 }) ∷ [];
}

fresh_counts-Rows : Rows 3 fresh_counts
fresh_counts-Rows = record { sizes = λ m h. size_at m h }
  where
    size_at : (m : ℕ) → m < 1 → length (get_or (fresh_counts.stats) m []) ≡ 3
    size_at zero h = refl
    size_at (suc m) h = absurd (omega arith)

fresh_counts-verify : verify fresh_counts ≡ some true
unfolding verify
fresh_counts-verify = refl

process-verify_example :
    (r : List Level × CacheStats) × (process (λ k. k) three_levels fresh_counts 0 0x1230 ≡ some r)
    × Structured 3 1 r.0
    × Rows 3 r.1
    × (verify r.1 ≡ some true)
process-verify_example =
    process-verify (λ k. k) 3 1 0 0x1230 three_levels fresh_counts (omega arith)
      three_levels-Structured fresh_counts-Rows (omega arith) fresh_counts-verify

small_set-SetOk : SetOk direct 2 small_set
small_set-SetOk = record { some_line = omega arith; lines = refl; ordered = tt }

small_set-Synced : Synced 2 (0 ∷ 0 ∷ []) no_lines
small_set-Synced = no_lines-Synced 2 (0 ∷ 0 ∷ []) λ i h. zero_at i
  where
    zero_at : (i : ℕ) → get_or (zeros 2) i 0 ≡ 0
    zero_at zero = refl
    zero_at (suc zero) = refl
    zero_at (suc (suc i)) = refl

fast_access-access_example : Agree direct 2 0 7 small_set no_lines
fast_access-access_example =
    fast_access-access direct 2 0 7 small_set no_lines small_set-SetOk small_set-Synced
      (omega arith)

abbrev buffer : List (ℕ × ℕ)
buffer = (0, 16) ∷ (1, 8) ∷ (0, 4) ∷ []

process_ranges-Extent_example :
    (s : RangeStats) × (process_ranges (new_ranges 2) buffer ≡ some s)
    × ((m : ℕ) → m < 2 → Reports s m (addresses_of m buffer))
process_ranges-Extent_example = process_ranges-Extent 2 buffer (omega arith) (
    known_more _ _ _ (omega arith) (omega arith) (
      known_more _ _ _ (omega arith) (omega arith)
        (known_more _ _ _ (omega arith) (omega arith) known_none)))
