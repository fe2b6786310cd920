-- ===== src/Sim/Structure/Cache.antt =====
-- instcode/Simulation.cpp, Process of one level: it ends, and leaves a good level.
use pebil.Common.{
  ℕ, suc, ◌+◌, ◌%◌, ◌^◌, ◌<◌, ◌≡◌, refl, sym, ap, subst, ◌∙◌, some, [], length, ◌==◌, if◌then◌else◌,
  get_elem?, get_or, get_elem?-get_or, get_or-set, length-set, bind-some, arith, Bool, true, false,
  lt→ltb,
}
use native.Mathlib.Nat.{mod-lt}
use pebil.Sim.Level.{CacheSet, CacheLevel, get_set, get_storage, access}
use pebil.Sim.Level.Safe.{SetOk, access-SetOk}
use pebil.Sim.Stats.{CacheStats, hit, miss}
use pebil.Sim.Stats.Consistent.{Counts, hit-Counts, miss-Counts}
use pebil.Sim.Structure.{invalid_level, EvictionInfo, Visit, put_set, process_inclusive}

abbrev pub no_set : CacheSet
no_set = record { contents = []; recently_used = 0; history_used = [] }

pub record CacheOk (i : ℕ) (c : CacheLevel) : Type 0 where
  pub place : c.level ≡ i
  pub some_set : 0 < c.countsets
  pub counted : length c.sets ≡ c.countsets
  pub good : (k : ℕ) → k < c.countsets → SetOk c.replpolicy c.associativity (get_or c.sets k no_set)

module _ {i : ℕ} (c : CacheLevel) (ok : CacheOk i c) (store : ℕ) where
  -- The set of a store.
  abbrev pub id_of : ℕ
  id_of = store % c.countsets

  abbrev pub set_of : CacheSet
  set_of = get_or c.sets id_of no_set

  id_in : id_of < c.countsets
  id_in = mod-lt store ok.some_set

  pub get_set_lem : get_set c store ≡ some id_of
  unfolding get_set
  get_set_lem = rw (lt→ltb 0 c.countsets ok.some_set) refl

  pub set_at : get_elem? c.sets id_of ≡ some set_of
  set_at = get_elem?-get_or c.sets id_of no_set (omega (arith, id_in, ok.counted))

  pub set_of-SetOk : SetOk c.replpolicy c.associativity set_of
  set_of-SetOk = ok.good id_of id_in

  pub put_set-CacheOk :
      (s : CacheSet) → SetOk c.replpolicy c.associativity s → CacheOk i (put_set c id_of s)
  unfolding put_set
  put_set-CacheOk s good = record {
    place = ok.place;
    some_set = ok.some_set;
    counted = length-set c.sets id_of s ∙ ok.counted;
    good = λ k h.
        subst (SetOk c.replpolicy c.associativity)
          (sym (get_or-set c.sets id_of k s no_set (omega (arith, id_in, ok.counted))))
          (either k h);
  }
    where
      either :
          (k : ℕ)
          → k < c.countsets
          → SetOk c.replpolicy c.associativity (if id_of == k then s else get_or c.sets k no_set)
      either k h =
          elim (id_of == k)
            as (λ b. SetOk c.replpolicy c.associativity (if b then s else get_or c.sets k no_set)) [
              | true ↦ good
              | false ↦ ok.good k h
            ]

-- What Process of an inclusive level leaves.
pub data Outcome (n memid i : ℕ) (e : EvictionInfo) (v : Visit) : Type 0 where
  over : v.next ≡ invalid_level → Counts n memid 0 v.stats → Outcome n memid i e v
  down : v.next ≡ suc i → v.evict ≡ e → Counts n memid (suc i) v.stats → Outcome n memid i e v

module _ {n memid i : ℕ} (c : CacheLevel) (ok : CacheOk i c) (stats : CacheStats) (below : i < n)
    (few : n < 2 ^ 32) (counts : Counts n memid i stats) where
  pub next_level : (c.level + 1) % 2 ^ 32 ≡ suc i
  next_level = omega (arith, ok.place)

  -- The counts at the level's own place.
  pub hit_here :
      (stats' : CacheStats) × (hit memid c.level 1 stats ≡ some stats') × Counts n memid 0 stats'
  hit_here =
      let (stats', did, after) = hit-Counts stats counts below in
      (stats', ap (λ (l : ℕ). hit memid l 1 stats) ok.place ∙ did, after)

  pub miss_here :
      (stats' : CacheStats) × (miss memid c.level 1 stats ≡ some stats')
      × Counts n memid (suc i) stats'
  miss_here =
      let (stats', did, after) = miss-Counts stats counts below in
      (stats', ap (λ (l : ℕ). miss memid l 1 stats) ok.place ∙ did, after)

  module _ (rand addr : ℕ) (e : EvictionInfo) where
    abbrev Included : Type 0
    Included =
        (v : Visit) × (process_inclusive c rand stats memid addr e ≡ some v)
        × CacheOk i v.cache
        × Outcome n memid i e v

    by_access :
        (found : Bool) (s' : CacheSet)
        → access c.replpolicy c.associativity rand
            (set_of c ok (get_storage c addr))
            (get_storage c addr)
          ≡ some (found, s')
        → SetOk c.replpolicy c.associativity s'
        → Included
    unfolding process_inclusive
    by_access true s' did good =
        let (stats', hits, after) = hit_here in
        (
          _,
          bind-some _ (get_set_lem c ok (get_storage c addr)) (
              bind-some _ (set_at c ok (get_storage c addr))
                (bind-some _ did (bind-some _ hits refl))),
          put_set-CacheOk c ok (get_storage c addr) s' good,
          over refl after,
        )
    by_access false s' did good =
        let (stats', misses, after) = miss_here in
        (
          _,
          bind-some _ (get_set_lem c ok (get_storage c addr)) (
              bind-some _ (set_at c ok (get_storage c addr))
                (bind-some _ did (bind-some _ misses refl))),
          put_set-CacheOk c ok (get_storage c addr) s' good,
          down next_level refl after,
        )

    pub process_inclusive-Outcome : Included
    process_inclusive-Outcome =
        let (r, did, good) =
          access-SetOk c.replpolicy c.associativity (set_of c ok (get_storage c addr)) rand
            (get_storage c addr) (set_of-SetOk c ok (get_storage c addr)) in
        by_access r.0 r.1 did good
