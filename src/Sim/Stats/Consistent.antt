-- ===== src/Sim/Stats/Consistent.antt =====
-- instcode/Simulation.cpp, `CacheStats::Verify`: what its loops say, and how the counts of an access
-- keep it.
use pebil.Common.{
  ℕ, suc, zero, ◌+◌, ◌%◌, ◌^◌, ◌<◌, ◌≤◌, ◌≡◌, ◌≢◌, refl, sym, ap, subst, ◌∙◌, some, List, [], ◌∷◌,
  length, set, ◌==◌, if◌then◌else◌, get_or, get_elem?-get_or, get_or-set, length-set, bind-some,
  arith, Bool-cases, inl, inr, true, false,
}
use pebil.Sim.Stats.{
  LevelStats, CacheStats, verify_levels, verify_mem, verify_rows, verify, at_level, hit, miss,
}

abbrev pub no_counts : LevelStats
no_counts = record { hit_count = 0; miss_count = 0 }

abbrev pub hits_at : List LevelStats → ℕ → ℕ
hits_at row l = (get_or row l no_counts).hit_count

abbrev pub misses_at : List LevelStats → ℕ → ℕ
misses_at row l = (get_or row l no_counts).miss_count

-- Each level but the first has been asked as often as the one before has missed.
pub Settled : List LevelStats → Type 0
Settled row =
    (l : ℕ)
    → suc l < length row
    → (hits_at row (suc l) + misses_at row (suc l)) % 2 ^ 64 ≡ misses_at row l

-- The same, but the level `pending` is still to be asked.
pub Asked : ℕ → List LevelStats → Type 0
Asked pending row =
    (l : ℕ)
    → suc l < length row
    → (hits_at row (suc l) + misses_at row (suc l) + (if suc l == pending then 1 else 0)) % 2 ^ 64
      ≡ misses_at row l

Asked-Settled : (row : List LevelStats) (p : ℕ) → length row ≤ p → Asked p row → Settled row
unfolding Asked Settled
Asked-Settled row p h a l i = ground (arith, a l i)

pub Settled-Asked : (row : List LevelStats) → Settled row → Asked 0 row
unfolding Asked Settled
Settled-Asked row a l i = ground (arith, a l i)

pub Asked-first : (row : List LevelStats) → Asked 0 row → Settled row
unfolding Asked Settled
Asked-first row a l i = ground (arith, a l i)

-- The loop of Verify over the levels says so.
verify_levels-Settled :
    (x : LevelStats) (rest : List LevelStats)
    → verify_levels x.miss_count rest ≡ true
    → Settled (x ∷ rest)
unfolding verify_levels Settled
verify_levels-Settled x [] e l h = absurd (omega arith)
verify_levels-Settled x (y ∷ rest) e zero h = ground arith
verify_levels-Settled x (y ∷ rest) e (suc l) h =
    verify_levels-Settled y rest (ground arith) l (omega arith)

Settled-verify_levels :
    (x : LevelStats) (rest : List LevelStats)
    → Settled (x ∷ rest)
    → verify_levels x.miss_count rest ≡ true
unfolding verify_levels Settled
Settled-verify_levels x [] a = refl
Settled-verify_levels x (y ∷ rest) a =
    ground (arith, a 0 (omega arith), Settled-verify_levels y rest (λ l h. a (suc l) (omega arith)))

module _ (row : List LevelStats) (p : ℕ) (inside : p < length row) (asked : Asked p row) where
  hits_at-set :
      (v : LevelStats) (j : ℕ)
      → hits_at (set row p v) j ≡ (if p == j then v.hit_count else hits_at row j)
  hits_at-set v j =
      ap (λ (x : LevelStats). x.hit_count) (get_or-set row p j v no_counts inside) ∙ ground arith

  misses_at-set :
      (v : LevelStats) (j : ℕ)
      → misses_at (set row p v) j ≡ (if p == j then v.miss_count else misses_at row j)
  misses_at-set v j =
      ap (λ (x : LevelStats). x.miss_count) (get_or-set row p j v no_counts inside) ∙ ground arith

  abbrev hit_here : LevelStats
  hit_here = record (get_or row p no_counts) { hit_count = (hits_at row p + 1) % 2 ^ 64 }

  abbrev miss_here : LevelStats
  miss_here = record (get_or row p no_counts) { miss_count = (misses_at row p + 1) % 2 ^ 64 }

  hit_row : Asked 0 (set row p hit_here)
  unfolding Asked
  hit_row l i =
      rw (hits_at-set hit_here (suc l), misses_at-set hit_here (suc l), misses_at-set hit_here l)
        (ground (arith, asked l (omega (arith, length-set row p hit_here))))

  miss_row : Asked (suc p) (set row p miss_here)
  unfolding Asked
  miss_row l i =
      rw (hits_at-set miss_here (suc l), misses_at-set miss_here (suc l), misses_at-set miss_here l)
        (ground (arith, asked l (omega (arith, length-set row p miss_here))))

-- Each row has a count for each level; those of the other instructions are settled.
pub record Counts (levels memid pending : ℕ) (s : CacheStats) : Type 0 where
  pub here : memid < length s.stats
  pub sizes : (m : ℕ) → m < length s.stats → length (get_or s.stats m []) ≡ levels
  pub others : (m : ℕ) → m < length s.stats → m ≢ memid → Settled (get_or s.stats m [])
  pub asked : Asked pending (get_or s.stats memid [])

module _ {levels memid pending : ℕ} (s : CacheStats) (c : Counts levels memid pending s) where
  abbrev own : List LevelStats
  own = get_or s.stats memid []

  -- The row of the instruction is changed.
  module _ (row : List LevelStats) (size : length row ≡ levels) (next : ℕ)
      (asked : Asked next row) where
    abbrev with_row : CacheStats
    with_row = record s { stats = set s.stats memid row }

    row_at :
        (m : ℕ)
        → get_or (set s.stats memid row) m [] ≡ (if memid == m then row else get_or s.stats m [])
    row_at m = get_or-set s.stats memid m row [] c.here

    itself : get_or (set s.stats memid row) memid [] ≡ row
    itself = let same : (memid == memid) ≡ true = ground arith in row_at memid ∙ rw same refl

    kept : (m : ℕ) → m ≢ memid → get_or (set s.stats memid row) m [] ≡ get_or s.stats m []
    kept m o = let other : (memid == m) ≡ false = ground arith in row_at m ∙ rw other refl

    size_at : (m : ℕ) → m < length s.stats → length (get_or (set s.stats memid row) m []) ≡ levels
    size_at m h = elim (Bool-cases (memid == m)) [
      | inl e ↦ ap length (row_at m ∙ rw e refl) ∙ size
      | inr e ↦ ap length (row_at m ∙ rw e refl) ∙ c.sizes m h
    ]

    with_row-Counts : Counts levels memid next with_row
    with_row-Counts = record {
      here = omega (arith, c.here, length-set s.stats memid row);
      sizes = λ m h. size_at m (omega (arith, h, length-set s.stats memid row));
      others = λ m h o.
          subst Settled (sym (kept m o))
            (c.others m (omega (arith, h, length-set s.stats memid row)) o);
      asked = subst (Asked next) (sym itself) asked;
    }

  module _ (lvl : pending < levels) where
    inside : pending < length own
    inside = omega (arith, lvl, c.sizes memid c.here)

    at_level_lem :
        (change : LevelStats → LevelStats)
        → at_level change memid pending s
          ≡ some (record s {
            stats = set s.stats memid (set own pending (change (get_or own pending no_counts)));
          })
    unfolding at_level
    at_level_lem change =
        bind-some _ (get_elem?-get_or s.stats memid [] c.here)
          (bind-some _ (get_elem?-get_or own pending no_counts inside) refl)

    -- A hit at the level that is asked settles the row; a miss asks the next level.
    pub hit-Counts :
        (s' : CacheStats) × (hit memid pending 1 s ≡ some s') × Counts levels memid 0 s'
    unfolding hit
    hit-Counts = (
      _,
      at_level_lem _,
      with_row-Counts _ (length-set own pending _ ∙ c.sizes memid c.here) 0
          (hit_row own pending inside c.asked),
    )

    pub miss-Counts :
        (s' : CacheStats) × (miss memid pending 1 s ≡ some s')
        × Counts levels memid (suc pending) s'
    unfolding miss
    miss-Counts = (
      _,
      at_level_lem _,
      with_row-Counts _ (length-set own pending _ ∙ c.sizes memid c.here) (suc pending)
          (miss_row own pending inside c.asked),
    )

-- Verify looks at each row.
verify_rows-Settled :
    (rows : List (List LevelStats))
    → verify_rows rows ≡ some true
    → (m : ℕ) → m < length rows
    → Settled (get_or rows m [])
unfolding verify_rows verify_mem
verify_rows-Settled [] e m h = absurd (omega arith)
verify_rows-Settled ([] ∷ rows) e m h = absurd cc
verify_rows-Settled ((x ∷ rest) ∷ rows) e zero h = verify_levels-Settled x rest (ground arith)
verify_rows-Settled ((x ∷ rest) ∷ rows) e (suc m) h =
    verify_rows-Settled rows (ground arith) m (omega arith)

Settled-verify_rows :
    (rows : List (List LevelStats))
    → ((m : ℕ) → m < length rows → (0 < length (get_or rows m [])) × Settled (get_or rows m []))
    → verify_rows rows ≡ some true
unfolding verify_rows verify_mem
Settled-verify_rows [] h = refl
Settled-verify_rows ([] ∷ rows) h = absurd (omega (arith, (h 0 (omega arith)).0))
Settled-verify_rows ((x ∷ rest) ∷ rows) h =
    rw (Settled-verify_levels x rest (h 0 (omega arith)).1)
      (Settled-verify_rows rows (λ m i. h (suc m) (omega arith)))

module _ {levels memid : ℕ} (s : CacheStats) where
  pub verify-Counts :
      verify s ≡ some true
      → memid < length s.stats
      → ((m : ℕ) → m < length s.stats → length (get_or s.stats m []) ≡ levels)
      → Counts levels memid 0 s
  unfolding verify
  verify-Counts e here sizes = record {
    here = here;
    sizes = sizes;
    others = λ m h o. verify_rows-Settled s.stats e m h;
    asked = Settled-Asked _ (verify_rows-Settled s.stats e memid here);
  }

  pub Counts-verify : 0 < levels → Counts levels memid 0 s → verify s ≡ some true
  unfolding verify
  Counts-verify some_level c =
      Settled-verify_rows s.stats λ m h. (omega (arith, c.sizes m h), settled m h)
    where
      settled : (m : ℕ) → m < length s.stats → Settled (get_or s.stats m [])
      settled m h = elim (Bool-cases (m == memid)) [
        | inl e ↦
            let same : memid ≡ m = ground arith in
            subst (λ k. Settled (get_or s.stats k [])) same (Asked-first _ c.asked)
        | inr e ↦ c.others m h (λ t. ground arith)
      ]

  -- What is left to ask behind the last level is nothing.
  pub Counts-end :
      {pending : ℕ} → levels ≤ pending → Counts levels memid pending s → Counts levels memid 0 s
  Counts-end {pending} h c = record {
    here = c.here;
    sizes = c.sizes;
    others = c.others;
    asked = Settled-Asked _ (Asked-Settled _ pending (omega (arith, c.sizes memid c.here)) c.asked);
  }
