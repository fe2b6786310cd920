-- ===== src/Sim/Structure/Total.antt =====
-- instcode/Simulation.cpp, `CacheStructureHandler::Process`: each access ends, and the counts of the
-- levels still agree.
use pebil.Common.{
  ℕ, suc, zero, ◌+◌, ◌-◌, ◌*◌, ◌<◌, ◌≤◌, ◌≡◌, refl, sym, ap, subst, ◌∙◌, some, List, [], length,
  set, ◌==◌, if◌then◌else◌, ltb, get_or, get_elem?-get_or, get_or-set, length-set, bind-some, arith,
  Bool-cases, inl, inr, true, false, lt_or_ge,
}
use pebil.Sim.Level.{CacheLevel, undefined}
use pebil.Sim.Stats.{CacheStats, verify}
use pebil.Sim.Stats.Consistent.{Counts, verify-Counts, Counts-verify, Counts-end}
use pebil.Sim.Structure.{
  invalid_level, EvictionInfo, Visit, inclusive, exclusive, Level, process_inclusive, victimize,
  look_up, process_level, process_loop, process,
}
use pebil.Sim.Structure.Cache.{CacheOk, Outcome, process_inclusive-Outcome}
use pebil.Sim.Structure.Exclusive.{Kept, victimize-Passed, Looked, look_up-Looked}

abbrev pub no_level : Level
no_level = record {
  cache = record {
    level = 0;
    size = 0;
    associativity = 0;
    linesize = 0;
    replpolicy = undefined;
    countsets = 0;
    linesize_bits = 0;
    sets = [];
  };
  kind = inclusive;
}

abbrev pub level_at : List Level → ℕ → Level
level_at levels i = get_or levels i no_level

-- As Init makes it: from the level `first` on, all are exclusive and know the first and the last.
pub record Structured (n first : ℕ) (levels : List Level) : Type 0 where
  pub size : length levels ≡ n
  pub few : n < invalid_level
  pub caches : (i : ℕ) → i < n → CacheOk i (level_at levels i).cache
  pub upper : (i : ℕ) → i < n → i < first → (level_at levels i).kind ≡ inclusive
  pub lower : (i : ℕ) → i < n → first ≤ i → (level_at levels i).kind ≡ exclusive first (n - 1)

-- A level is replaced by one that is as good.
module _ {n first : ℕ} (levels : List Level) (s : Structured n first levels) (i : ℕ)
    (inside : i < n) where
  abbrev changed : CacheLevel → List Level
  changed c = set levels i (record (level_at levels i) { cache = c })

  changed_at :
      (c : CacheLevel) (j : ℕ)
      → level_at (changed c) j
        ≡ (if i == j then record (level_at levels i) { cache = c } else level_at levels j)
  changed_at c j = get_or-set levels i j _ no_level (omega (arith, s.size))

  kind_at : (c : CacheLevel) (j : ℕ) → (level_at (changed c) j).kind ≡ (level_at levels j).kind
  kind_at c j = ap (λ (l : Level). l.kind) (changed_at c j) ∙ ground arith

  changed-Structured : (c : CacheLevel) → CacheOk i c → Structured n first (changed c)
  changed-Structured c ok = record {
    size = length-set levels i _ ∙ s.size;
    few = s.few;
    caches = λ j h. cache_ok j h;
    upper = λ j h l. kind_at c j ∙ s.upper j h l;
    lower = λ j h l. kind_at c j ∙ s.lower j h l;
  }
    where
      cache_ok : (j : ℕ) → j < n → CacheOk j (level_at (changed c) j).cache
      cache_ok j h = elim (Bool-cases (i == j)) [
        | inl e ↦
            let same : i ≡ j = ground arith in
            let here : (level_at (changed c) j).cache ≡ c =
              ap (λ (l : Level). l.cache) (changed_at c j) ∙ rw e refl in
            subst (CacheOk j) (sym here) (subst (λ k. CacheOk k c) same ok)
        | inr e ↦
            let here : (level_at (changed c) j).cache ≡ (level_at levels j).cache =
              ap (λ (l : Level). l.cache) (changed_at c j) ∙ rw e refl in
            subst (CacheOk j) (sym here) (s.caches j h)
      ]

  lines_at :
      (c : CacheLevel)
      → c.associativity ≡ (level_at levels i).cache.associativity
      → (j : ℕ)
      → (level_at (changed c) j).cache.associativity ≡ (level_at levels j).cache.associativity
  lines_at c e j = ap (λ (l : Level). l.cache.associativity) (changed_at c j) ∙ ground arith

module _ (draw : ℕ → ℕ) (n first memid addr : ℕ) where
  -- What the rest of the access gives.
  Ends : ℕ → ℕ → List Level → CacheStats → EvictionInfo → Type 0
  Ends fuel next levels stats e =
      (r : List Level × CacheStats) × (process_loop draw fuel next levels stats memid addr e
        ≡ some r)
      × Structured n first r.0
      × Counts n memid 0 r.1

  stop :
      (fuel next : ℕ) (levels : List Level) (stats : CacheStats) (e : EvictionInfo)
      → n ≤ next
      → Structured n first levels
      → Counts n memid 0 stats
      → Ends (suc fuel) next levels stats e
  unfolding Ends process_loop
  stop fuel next levels stats e h s c =
      let out : ltb next (length levels) ≡ false = ground (arith, s.size) in
      ((levels, stats), rw out refl, s, c)

  module _ (fuel next : ℕ) (levels : List Level) (stats : CacheStats) (e : EvictionInfo)
      (inside : next < n) (s : Structured n first levels) where
    -- One round.
    round :
        {v : Visit}
        → process_level (level_at levels next) (draw fuel) stats memid addr e ≡ some v
        → Ends fuel v.next (changed levels s next inside v.cache) v.stats v.evict
        → Ends (suc fuel) next levels stats e
    unfolding Ends process_loop
    round did (r, rest, good, counts) =
        let test : ltb next (length levels) ≡ true = ground (arith, s.size) in
        (
          r,
          rw test (
              bind-some _ (get_elem?-get_or levels next no_level (omega (arith, s.size)))
                (bind-some _ did rest)),
          good,
          counts,
        )

    passing :
        (lvl : Level) (v : Visit)
        → lvl.kind ≡ exclusive first (n - 1)
        → (e.level == invalid_level) ≡ false
        → victimize lvl.cache (draw fuel) stats e ≡ some v
        → process_level lvl (draw fuel) stats memid addr e ≡ some v
    unfolding process_level
    passing lvl v k o did = rw (k, process_level) (rw o did)

    looking :
        (lvl : Level) (v : Visit)
        → lvl.kind ≡ exclusive first (n - 1)
        → (e.level == invalid_level) ≡ true
        → look_up first (n - 1) lvl.cache stats memid addr e ≡ some v
        → process_level lvl (draw fuel) stats memid addr e ≡ some v
    unfolding process_level
    looking lvl v k o did = rw (k, process_level) (rw o did)

    including :
        (lvl : Level) (v : Visit)
        → lvl.kind ≡ inclusive
        → process_inclusive lvl.cache (draw fuel) stats memid addr e ≡ some v
        → process_level lvl (draw fuel) stats memid addr e ≡ some v
    unfolding process_level
    including lvl v k did = rw (k, process_level) did

  -- The line of an eviction is one of the level that it came from.
  Fits : List Level → EvictionInfo → Type 0
  Fits levels e = (i : ℕ) → i < n → e.level ≡ i → e.lineid < (level_at levels i).cache.associativity

  -- Enough fuel to pass the levels from `next` on.
  abbrev Moving : ℕ → Type 0
  Moving fuel =
      (next : ℕ) (levels : List Level) (stats : CacheStats) (e : EvictionInfo)
      → n - next < fuel
      → first ≤ next
      → (e.level == invalid_level) ≡ false
      → Fits levels e
      → Structured n first levels
      → Counts n memid 0 stats
      → Ends fuel next levels stats e

  module _ (fuel next : ℕ) (levels : List Level) (stats : CacheStats) (e : EvictionInfo)
      (inside : next < n) (lo : first ≤ next) (s : Structured n first levels) where
    next_Fits :
        (v : Visit)
        → (fits : Fits levels e) → v.evict.level ≡ e.level
        → v.evict.lineid ≡ e.lineid
        → v.cache.associativity ≡ (level_at levels next).cache.associativity
        → Fits (changed levels s next inside v.cache) v.evict
    unfolding Fits
    next_Fits v fits l k same i h here =
        omega (arith, k, fits i h (sym l ∙ here), lines_at levels s next inside v.cache same i)

    next-Moving :
        Moving fuel
        → n - next < suc fuel
        → (e.level == invalid_level) ≡ false
        → Fits levels e
        → Counts n memid 0 stats
        → (v : Visit) → victimize (level_at levels next).cache (draw fuel) stats e ≡ some v
        → v.next ≡ (if next == e.level then invalid_level else suc next)
        → v.stats ≡ stats
        → v.evict.level ≡ e.level
        → v.evict.lineid ≡ e.lineid
        → Kept next (level_at levels next).cache v.cache
        → Ends (suc fuel) next levels stats e
    next-Moving rest enough o fits c v did to same l k kept =
        round fuel next levels stats e inside s
          (passing fuel next levels stats e inside s (level_at levels next) v
            (s.lower next inside lo) o did)
          (rest v.next _ v.stats v.evict (ground (arith, s.few)) (ground (arith, s.few))
            (ground arith) (next_Fits v fits l k kept.lines)
            (changed-Structured levels s next inside v.cache kept.good)
            (subst (Counts n memid 0) (sym same) c))

  levels-Moving : (fuel : ℕ) → Moving fuel
  unfolding Fits
  levels-Moving zero next levels stats e enough lo o fits s c = absurd (omega arith)
  levels-Moving (suc fuel) next levels stats e enough lo o fits s c = elim (lt_or_ge next n) [
    | inr out ↦ stop fuel next levels stats e out s c
    | inl inside ↦
        let (v, did, passed) =
          victimize-Passed (level_at levels next).cache (s.caches next inside)
            (omega (arith, s.few)) (draw fuel) stats e (fits next inside) in
        next-Moving fuel next levels stats e inside lo s (levels-Moving fuel) enough o fits c v did
          passed.0 passed.1 passed.2 passed.3 passed.4
  ]

  leave :
      (fuel next : ℕ) (levels : List Level) (stats : CacheStats) (e : EvictionInfo)
      → 0 < fuel
      → n ≤ next
      → Structured n first levels
      → Counts n memid 0 stats
      → Ends fuel next levels stats e
  leave zero next levels stats e some_fuel out s c = absurd (omega arith)
  leave (suc fuel) next levels stats e some_fuel out s c = stop fuel next levels stats e out s c

  -- Enough fuel to ask the levels from `next` on, and to go through them once more.
  abbrev Asking : ℕ → Type 0
  Asking fuel =
      (next : ℕ) (levels : List Level) (stats : CacheStats) (e : EvictionInfo)
      → n - next + n + 1 < fuel
      → next ≤ n
      → e.level ≡ invalid_level
      → Structured n first levels
      → Counts n memid next stats
      → Ends fuel next levels stats e

  module _ (fuel next : ℕ) (levels : List Level) (stats : CacheStats) (e : EvictionInfo)
      (inside : next < n) (s : Structured n first levels) (rest : Asking fuel)
      (enough : n - next + n + 1 < suc fuel) (none_yet : e.level ≡ invalid_level) where
    after_inclusive :
        (v : Visit)
        → next < first
        → process_inclusive (level_at levels next).cache (draw fuel) stats memid addr e ≡ some v
        → CacheOk next v.cache
        → Outcome n memid next e v
        → Ends (suc fuel) next levels stats e
    after_inclusive v up did ok (Outcome.over to c) =
        round fuel next levels stats e inside s
          (including fuel next levels stats e inside s (level_at levels next) v
            (s.upper next inside up) did)
          (leave fuel v.next _ v.stats v.evict (omega arith) (omega (arith, s.few))
            (changed-Structured levels s next inside v.cache ok) c)
    after_inclusive v up did ok (Outcome.down to same c) =
        round fuel next levels stats e inside s
          (including fuel next levels stats e inside s (level_at levels next) v
            (s.upper next inside up) did)
          (rest v.next _ v.stats v.evict (omega arith) (omega arith)
            (ap (λ (x : EvictionInfo). x.level) same ∙ none_yet)
            (changed-Structured levels s next inside v.cache ok)
            (subst (λ k. Counts n memid k v.stats) (sym to) c))

    module _ (v : Visit) (low : first ≤ next)
        (did : look_up first (n - 1) (level_at levels next).cache stats memid addr e ≡ some v)
        (kept : Kept next (level_at levels next).cache v.cache) where
      looked :
          Ends fuel v.next (changed levels s next inside v.cache) v.stats v.evict
          → Ends (suc fuel) next levels stats e
      looked = round fuel next levels stats e inside s (
          looking fuel next levels stats e inside s (level_at levels next) v
            (s.lower next inside low) (ground arith) did)

      good : Structured n first (changed levels s next inside v.cache)
      good = changed-Structured levels s next inside v.cache kept.good

      -- The line where the store was found is one of its set.
      found_Fits :
          v.evict.level ≡ next
          → v.evict.lineid < (level_at levels next).cache.associativity
          → Fits (changed levels s next inside v.cache) v.evict
      unfolding Fits
      found_Fits l line i h here =
          let same : next ≡ i = sym l ∙ here in
          subst
            (λ k.
              v.evict.lineid
              < (level_at (changed levels s next inside v.cache) k).cache.associativity)
            same (omega (arith, line, lines_at levels s next inside v.cache kept.lines next))

      -- There is no level behind the last.
      missed_Fits :
          v.evict.level ≡ suc (n - 1) → Fits (changed levels s next inside v.cache) v.evict
      unfolding Fits
      missed_Fits l i h here = absurd (omega arith)

      after_exclusive :
          Looked n memid first (n - 1) next (level_at levels next).cache.associativity e v
          → Ends (suc fuel) next levels stats e
      after_exclusive (Looked.over to c) =
          looked (leave fuel v.next _ v.stats v.evict (omega arith) (omega (arith, s.few)) good c)
      after_exclusive (Looked.found to l line c) = looked (
          levels-Moving fuel v.next _ v.stats v.evict (omega arith) (omega arith)
            (ground (arith, s.few)) (found_Fits l line) good c)
      after_exclusive (Looked.missed to l is_last c) = looked (
          levels-Moving fuel v.next _ v.stats v.evict (omega arith) (omega arith)
            (ground (arith, s.few)) (missed_Fits l) good (Counts-end v.stats (omega arith) c))
      after_exclusive (Looked.lower to same not_last c) = looked (
          rest v.next _ v.stats v.evict (omega arith) (omega arith)
            (ap (λ (x : EvictionInfo). x.level) same ∙ none_yet) good
            (subst (λ k. Counts n memid k v.stats) (sym to) c))

  asking : (fuel : ℕ) → Asking fuel
  asking zero next levels stats e enough le z s c = absurd (omega arith)
  asking (suc fuel) next levels stats e enough le z s c = elim (lt_or_ge next n) [
    | inr out ↦ stop fuel next levels stats e out s (Counts-end stats out c)
    | inl inside ↦ elim (lt_or_ge next first) [
      | inl up ↦
          let (v, did, ok, outcome) =
            process_inclusive-Outcome (level_at levels next).cache (s.caches next inside) stats
              inside (omega (arith, s.few)) c (draw fuel) addr e in
          after_inclusive fuel next levels stats e inside s (asking fuel) enough z v up did ok
            outcome
      | inr low ↦
          let (v, did, kept, outcome) =
            look_up-Looked first (n - 1) (level_at levels next).cache (s.caches next inside) stats
              inside (omega (arith, s.few)) c addr e (omega arith) in
          after_exclusive fuel next levels stats e inside s (asking fuel) enough z v low did kept
            outcome
    ]
  ]

-- Each row of the counts has one for each level.
pub record Rows (n : ℕ) (s : CacheStats) : Type 0 where
  pub sizes : (m : ℕ) → m < length s.stats → length (get_or s.stats m []) ≡ n

-- An access by an instruction that has a row of the counts, to one or more levels that are Structured:
-- searched linearly, each with one set or more in which the lines and the links fit its policy, trulru
-- only with two lines or more, inclusive levels first and behind them exclusive ones that know the
-- first and the last of them, fewer in all than the number that stands for no level.
-- It ends, whatever rand() returns; the levels are Structured after it, and counts with an entry for
-- each level that Verify accepts before it are accepted after it.
pub process-verify :
    (draw : ℕ → ℕ) (n first memid addr : ℕ) (levels : List Level) (stats : CacheStats)
    → 0 < n
    → Structured n first levels
    → Rows n stats
    → memid < length stats.stats
    → verify stats ≡ some true
    → (r : List Level × CacheStats) × (process draw levels stats memid addr ≡ some r)
      × Structured n first r.0
      × Rows n r.1
      × (verify r.1 ≡ some true)
unfolding process Ends
process-verify draw n first memid addr levels stats some_level s rows known good =
    let (r, did, after, counts) =
      asking draw n first memid addr (2 * length levels + 2) 0 levels stats
        (record { level = invalid_level; addr = 0; setid = 0; lineid = 0 }) (omega (arith, s.size))
        (omega arith) refl s (verify-Counts stats good known rows.sizes) in
    (r, did, after, record { sizes = counts.sizes }, Counts-verify r.1 some_level counts)
