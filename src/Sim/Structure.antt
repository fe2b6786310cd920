-- ===== src/Sim/Structure.antt =====
-- instcode/Simulation.cpp, `CacheLevel::Process`, `ExclusiveCacheLevel::Process` and
-- `CacheStructureHandler::Process`: an access on its way through the levels. The levels are those of low
-- associativity, whose Search looks at the lines. rand() gives `draw k` in the round with `k` more to
-- go at most; none of `next` counts on the 2^32 of INVALID_CACHE_LEVEL but as a level that is not
-- there.
pub mod Cache
pub mod Exclusive
pub mod Total
pub mod Init
use pebil.Common.{
  ℕ, zero, suc, ◌+◌, ◌*◌, ◌%◌, ◌&&◌, ◌^◌, Bool, true, false, Option, none, some, List, [], ◌∷◌,
  ◌==◌, ltb, if◌then◌else◌, get_elem?, set, length, ◌>>=◌, ◌>>◌, ensure,
}
use pebil.Sim.Level.{
  CacheSet, CacheLevel, get_storage, get_set, line_to_replace, replace, access, search, mark_used,
}
use pebil.Sim.Stats.{CacheStats, hit, miss}

-- INVALID_CACHE_LEVEL
abbrev pub invalid_level : ℕ
invalid_level = 0xffffffff

pub record EvictionInfo : Type 0 where
  pub level : ℕ
  pub addr : ℕ
  pub setid : ℕ
  pub lineid : ℕ

-- FirstExclusive and LastExclusive.
pub data Kind : Type 0 where
  inclusive : Kind
  exclusive : (first last : ℕ) → Kind

pub record Level : Type 0 where
  pub cache : CacheLevel
  pub kind : Kind

-- What a call of Process leaves: the level to go to, and the state.
pub record Visit : Type 0 where
  pub next : ℕ
  pub cache : CacheLevel
  pub stats : CacheStats
  pub evict : EvictionInfo

unfoldable pub put_set : CacheLevel → ℕ → CacheSet → CacheLevel
put_set c set_id s = record c { sets = set c.sets set_id s }

-- CacheLevel::Process
unfoldable pub process_inclusive : CacheLevel → ℕ → CacheStats → ℕ → ℕ → EvictionInfo → Option Visit
process_inclusive c rand stats memid addr e = do
  let store = get_storage c addr
  set_id ← get_set c store
  s ← get_elem? c.sets set_id
  (found, s') ← access c.replpolicy c.associativity rand s store
  stats ← if found then hit memid c.level 1 stats else miss memid c.level 1 stats
  some record {
    next = if found then invalid_level else (c.level + 1) % 2 ^ 32;
    cache = put_set c set_id s';
    stats = stats;
    evict = e;
  }

-- ExclusiveCacheLevel::Process, where an eviction is on its way.
unfoldable pub victimize : CacheLevel → ℕ → CacheStats → EvictionInfo → Option Visit
victimize c rand stats e = do
  set_id ← get_set c e.addr
  s ← get_elem? c.sets set_id
  line ← line_to_replace c.replpolicy c.associativity rand s
  let at = if c.level == e.level && e.setid == set_id then e.lineid else line
  (prev, s') ← replace c.replpolicy s e.addr at
  some record {
    next = if c.level == e.level then invalid_level else (c.level + 1) % 2 ^ 32;
    cache = put_set c set_id s';
    stats = stats;
    evict = record e { addr = prev };
  }

-- And where the store is still looked for.
unfoldable pub look_up : ℕ → ℕ → CacheLevel → CacheStats → ℕ → ℕ → EvictionInfo → Option Visit
look_up first last c stats memid addr e = do
  let store = get_storage c addr
  set_id ← get_set c store
  s ← get_elem? c.sets set_id
  found ← search c.associativity s store
  elim found [
    | some line ↦ do
      stats ← hit memid c.level 1 stats
      s' ← mark_used c.replpolicy s line
      some record {
        next = if c.level == first then invalid_level else first;
        cache = put_set c set_id s';
        stats = stats;
        evict = record { level = c.level; addr = store; setid = set_id; lineid = line };
      }
    | none ↦ do
      stats ← miss memid c.level 1 stats
      some record {
        next = if c.level == last then first else (c.level + 1) % 2 ^ 32;
        cache = c;
        stats = stats;
        evict =
            if c.level == last then record e { level = (last + 1) % 2 ^ 32; addr = store } else e;
      }
  ]

unfoldable pub process_level : Level → ℕ → CacheStats → ℕ → ℕ → EvictionInfo → Option Visit
process_level lvl rand stats memid addr e = elim lvl.kind [
  | inclusive ↦ process_inclusive lvl.cache rand stats memid addr e
  | exclusive first last ↦
      if e.level == invalid_level
      then look_up first last lvl.cache stats memid addr e
      else victimize lvl.cache rand stats e
]

-- The loop of CacheStructureHandler::Process; levelCount is the length of the list.
unfoldable pub process_loop :
    (ℕ → ℕ)
    → ℕ
    → ℕ
    → List Level
    → CacheStats
    → ℕ
    → ℕ
    → EvictionInfo
    → Option (List Level × CacheStats)
process_loop draw zero next levels stats memid addr e = none
process_loop draw (suc fuel) next levels stats memid addr e =
    let round = get_elem? levels next >>= λ lvl.
    process_level lvl (draw fuel) stats memid addr e >>= λ v.
    process_loop draw fuel v.next (set levels next (record lvl { cache = v.cache })) v.stats memid
      addr v.evict in
    if ltb next (length levels) then round else some (levels, stats)

-- A round leads down a level, and at most once back to the first exclusive one.
unfoldable pub process :
    (ℕ → ℕ) → List Level → CacheStats → ℕ → ℕ → Option (List Level × CacheStats)
process draw levels stats memid addr =
    process_loop draw (2 * length levels + 2) 0 levels stats memid addr
      record { level = invalid_level; addr = 0; setid = 0; lineid = 0 }
