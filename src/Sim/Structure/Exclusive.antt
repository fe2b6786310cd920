-- ===== src/Sim/Structure/Exclusive.antt =====
-- instcode/Simulation.cpp, `ExclusiveCacheLevel::Process`: it ends, and leaves a good level.
use pebil.Common.{
  ℕ, suc, ◌+◌, ◌%◌, ◌^◌, ◌<◌, ◌≡◌, ◌≢◌, refl, Option, none, some, ◌==◌, if◌then◌else◌, ◌&&◌,
  bind-some, arith, Bool-cases, inl, inr, true, false,
}
use pebil.Sim.Level.{CacheLevel, get_storage, search}
use pebil.Sim.Level.Safe.{search-in, mark_used-SetOk, line_to_replace-in, replace-SetOk}
use pebil.Sim.Ring.Recency.{Finds}
use pebil.Sim.Stats.{CacheStats}
use pebil.Sim.Stats.Consistent.{Counts}
use pebil.Sim.Structure.{invalid_level, EvictionInfo, Visit, put_set, victimize, look_up}
use pebil.Sim.Structure.Cache.{
  CacheOk, id_of, set_of, get_set_lem, set_at, set_of-SetOk, put_set-CacheOk, next_level, hit_here,
  miss_here,
}

-- A good level, and as many lines in its sets as before.
pub record Kept (i : ℕ) (c c' : CacheLevel) : Type 0 where
  pub good : CacheOk i c'
  pub lines : c'.associativity ≡ c.associativity

module _ {i : ℕ} (c : CacheLevel) (ok : CacheOk i c) (few : suc i < 2 ^ 32) (rand : ℕ)
    (stats : CacheStats) (e : EvictionInfo) (at : e.level ≡ i → e.lineid < c.associativity) where
  -- A level that an eviction goes through.
  abbrev pub Passed : Visit → Type 0
  Passed v =
      (v.next ≡ (if i == e.level then invalid_level else suc i))
      × (v.stats ≡ stats)
      × (v.evict.level ≡ e.level)
      × (v.evict.lineid ≡ e.lineid)
      × Kept i c v.cache

  next_of_level :
      (if c.level == e.level then invalid_level else (c.level + 1) % 2 ^ 32)
      ≡ (if i == e.level then invalid_level else suc i)
  next_of_level = ground (arith, ok.place)

  chosen_in :
      (line : ℕ)
      → line < c.associativity
      → (if c.level == e.level && e.setid == id_of c ok e.addr then e.lineid else line)
        < c.associativity
  chosen_in line h = elim (Bool-cases (c.level == e.level)) [
    | inl t ↦
        let here : e.lineid < c.associativity = at (ground (arith, ok.place)) in
        rw t
          (elim (e.setid == id_of c ok e.addr)
            as (λ b. (if b then e.lineid else line) < c.associativity) [ true ↦ here | false ↦ h ])
    | inr t ↦ rw t h
  ]

  pub victimize-Passed : (v : Visit) × (victimize c rand stats e ≡ some v) × Passed v
  unfolding victimize put_set
  victimize-Passed =
      let (line, chosen, inside) =
        line_to_replace-in c.replpolicy c.associativity (set_of c ok e.addr) rand
          (set_of-SetOk c ok e.addr) in
      let (r, did, good) =
        replace-SetOk c.replpolicy c.associativity (set_of c ok e.addr) e.addr _
          (chosen_in line inside) (set_of-SetOk c ok e.addr) in
      (
        _,
        bind-some _ (get_set_lem c ok e.addr)
            (bind-some _ (set_at c ok e.addr) (bind-some _ chosen (bind-some _ did refl))),
        (
          next_of_level,
          refl,
          refl,
          refl,
          record { good = put_set-CacheOk c ok e.addr r.1 good; lines = refl },
        ),
      )

pub data Looked (n memid first last i : ℕ) (lines : ℕ) (e : EvictionInfo) (v : Visit) : Type 0 where
  over : v.next ≡ invalid_level → Counts n memid 0 v.stats → Looked n memid first last i lines e v
  found :
      v.next ≡ first
      → v.evict.level ≡ i
      → v.evict.lineid < lines
      → Counts n memid 0 v.stats
      → Looked n memid first last i lines e v
  missed :
      v.next ≡ first
      → v.evict.level ≡ suc last
      → i ≡ last
      → Counts n memid (suc i) v.stats
      → Looked n memid first last i lines e v
  lower :
      v.next ≡ suc i
      → v.evict ≡ e
      → i ≢ last
      → Counts n memid (suc i) v.stats
      → Looked n memid first last i lines e v

module _ {n memid i : ℕ} (first last : ℕ) (c : CacheLevel) (ok : CacheOk i c) (stats : CacheStats)
    (below : i < n) (few : n < 2 ^ 32) (counts : Counts n memid i stats) (addr : ℕ)
    (e : EvictionInfo) (last_in : last < n) where
  abbrev store : ℕ
  store = get_storage c addr

  abbrev LookedUp : Type 0
  LookedUp =
      (v : Visit) × (look_up first last c stats memid addr e ≡ some v)
      × Kept i c v.cache
      × Looked n memid first last i c.associativity e v

  by_search :
      (r : Option ℕ)
      → search c.associativity (set_of c ok store) store ≡ some r
      → Finds store c.associativity (set_of c ok store).contents r
      → LookedUp
  unfolding look_up put_set
  by_search (some line) did finds =
      let (stats', hits, after) = hit_here c ok stats below few counts in
      let (s', marked, good, same) =
        mark_used-SetOk c.replpolicy c.associativity (set_of c ok store) line finds.0
          (set_of-SetOk c ok store) in
      (
        _,
        bind-some _ (get_set_lem c ok store) (
            bind-some _ (set_at c ok store)
              (bind-some _ did (bind-some _ hits (bind-some _ marked refl)))),
        record { good = put_set-CacheOk c ok store s' good; lines = refl },
        elim (Bool-cases (c.level == first)) [
          | inl t ↦ over (rw t refl) after
          | inr t ↦ found (rw t refl) ok.place finds.0 after
        ],
      )
  by_search none did finds =
      let (stats', misses, after) = miss_here c ok stats below few counts in
      (
        _,
        bind-some _ (get_set_lem c ok store)
            (bind-some _ (set_at c ok store) (bind-some _ did (bind-some _ misses refl))),
        record { good = ok; lines = refl },
        elim (Bool-cases (c.level == last)) [
          | inl t ↦ missed (rw t refl) (rw t (omega arith)) (ground (arith, ok.place)) after
          | inr t ↦
              lower (rw t (next_level c ok stats below few counts)) (rw t refl)
                (λ o. ground (arith, ok.place)) after
        ],
      )

  pub look_up-Looked : LookedUp
  look_up-Looked =
      let (r, did, finds) =
        search-in c.replpolicy c.associativity (set_of c ok store) store
          (set_of-SetOk c ok store) in
      by_search r did finds
