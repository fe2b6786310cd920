-- ===== src/Sim/Fast/Same.antt =====
-- instcode/Simulation.cpp, `HighlyAssociativeCacheLevel` against `CacheLevel`.
use pebil.Common.{
  ℕ, ◌<◌, ◌≡◌, ◌≢◌, refl, sym, ap, subst, ◌∙◌, Option, none, some, List, length, set, ◌==◌,
  if◌then◌else◌, get_elem?, get_or, get_elem?-get_or, get_or-set, arith, Bool, Bool-cases, inl, inr,
  true, false,
}
use pebil.Sim.Level.{
  ReplacementPolicy, CacheSet, search, mark_used, line_to_replace, replace, access,
}
use pebil.Sim.Level.Access.{access-hit, access-miss}
use pebil.Sim.Level.Safe.{written-SetOk, SetOk, mark_used-SetOk, line_to_replace-in, search-in}
use pebil.Sim.Ring.Recency.{Finds}
use pebil.Sim.Fast.{no_lines, FastMap, erase, insert, fast_search, fast_replace, fast_access}

-- The map knows the line of each store in the set, and no other.
pub record Synced (n : ℕ) (contents : List ℕ) (f : FastMap) : Type 0 where
  pub free : f 0 ≡ none
  pub holds : (store i : ℕ) → f store ≡ some i → (i < n) × (get_or contents i 0 ≡ store)
  pub covers : (i : ℕ) → i < n → get_or contents i 0 ≢ 0 → f (get_or contents i 0) ≡ some i

-- What erase(prev) leaves, if it is called where the key is there only.
kept-at :
    (f : FastMap) (prev x : ℕ)
    → (elim (f prev) as (λ _. FastMap) [ some _ ↦ erase f prev | none ↦ f ]) x
      ≡ (if x == prev then none else f x)
unfolding erase
kept-at f prev x = by_key (f prev) refl
  where
    by_key :
        (r : Option ℕ)
        → f prev ≡ r
        → (elim r as (λ _. FastMap) [ some _ ↦ erase f prev | none ↦ f ]) x
          ≡ (if x == prev then none else f x)
    by_key (some i) e = refl
    by_key none e = elim (Bool-cases (x == prev)) [
      | inl t ↦ let same : prev ≡ x = ground arith in rw t (ap f (sym same) ∙ e)
      | inr t ↦ rw t refl
    ]

module _ (n line store : ℕ) (contents : List ℕ) (f : FastMap) (inside : line < n)
    (size : length contents ≡ n) (s : Synced n contents f) (nonzero : store ≢ 0)
    (absent : f store ≡ none) where
  abbrev prev : ℕ
  prev = get_or contents line 0

  abbrev kept : FastMap
  kept = elim (f prev) as (λ _. FastMap) [ some _ ↦ erase f prev | none ↦ f ]

  inserted :
      (x : ℕ)
      → insert kept store line x
        ≡ (if x == store then some line else if x == prev then none else f x)
  unfolding insert
  inserted x = rw (kept-at f prev x) refl

  after :
      (i : ℕ)
      → get_or (set contents line store) i 0 ≡ (if line == i then store else get_or contents i 0)
  after i = get_or-set contents line i store 0 (omega (arith, size))

  holds_after :
      (x i : ℕ)
      → (if x == store then some line else if x == prev then none else f x) ≡ some i
      → (i < n) × ((if line == i then store else get_or contents i 0) ≡ x)
  holds_after x i e = elim (Bool-cases (x == store)) [
    | inl t ↦ let here : line ≡ i = ground arith in (omega (arith, here, inside), ground arith)
    | inr t ↦ elim (Bool-cases (x == prev)) [
      | inl u ↦ absurd (ground arith)
      | inr u ↦
          let old : (i < n) × (get_or contents i 0 ≡ x) = s.holds x i (ground arith) in
          (
            old.0,
            elim (Bool-cases (line == i)) [
              | inl v ↦
                  let here : get_or contents line 0 ≡ get_or contents i 0 =
                    ap (λ (j : ℕ). get_or contents j 0) (ground arith) in
                  absurd (ground (arith, old.1))
              | inr v ↦ rw v old.1
            ],
          )
    ]
  ]

  covers_after :
      (i : ℕ)
      → i < n
      → (line == i) ≡ false
      → get_or contents i 0 ≢ 0
      → (if get_or contents i 0 == store
          then some line
          else if get_or contents i 0 == prev
          then none
          else f (get_or contents i 0))
        ≡ some i
  covers_after i h other z = elim (Bool-cases (get_or contents i 0 == store)) [
    | inl t ↦
        let known : f (get_or contents i 0) ≡ f store = ap f (ground arith) in
        let clash : some i ≡ none = sym (s.covers i h z) ∙ known ∙ absent in absurd cc
    | inr t ↦ elim (Bool-cases (get_or contents i 0 == prev)) [
      | inl u ↦
          let known : f (get_or contents i 0) ≡ f prev = ap f (ground arith) in
          let clash : some i ≡ some line =
            sym (s.covers i h z) ∙ known ∙ s.covers line inside (λ p. z (ground arith)) in
          absurd (ground arith)
      | inr u ↦ rw (t, u) (s.covers i h z)
    ]
  ]

  insert-Synced : Synced n (set contents line store) (insert kept store line)
  insert-Synced = record {
    free = inserted 0 ∙ ground (arith, s.free);
    holds =
        λ x i e. let good = holds_after x i (sym (inserted x) ∙ e) in (good.0, after i ∙ good.1);
    covers = λ i h z. elim (Bool-cases (line == i)) [
      | inl t ↦
          let same : get_or (set contents line store) i 0 ≡ store = after i ∙ rw t refl in
          ap (insert kept store line) same ∙ inserted store ∙ ground arith
      | inr t ↦
          let same : get_or (set contents line store) i 0 ≡ get_or contents i 0 =
            after i ∙ rw t refl in
          ap (insert kept store line) same
          ∙ inserted (get_or contents i 0)
          ∙ covers_after i h t (λ e. z (same ∙ e))
    ];
  }

fast_search_lem : (f : FastMap) (store : ℕ) → fast_search f store ≡ f store
unfolding fast_search
fast_search_lem f store = by_key (f store)
  where
    by_key :
        (r : Option ℕ) → (elim r as (λ _. Option ℕ) [ some line ↦ some line | none ↦ none ]) ≡ r
    by_key (some line) = refl
    by_key none = refl

-- The two ways of Process.
module _ (pol : ReplacementPolicy) (n rand store : ℕ) (s : CacheSet) (f : FastMap) where
  fast_access-hit :
      {line : ℕ} {s' : CacheSet}
      → f store ≡ some line
      → mark_used pol s line ≡ some s'
      → fast_access pol n rand s f store ≡ some (true, s', f)
  unfolding fast_access
  fast_access-hit known did = rw (fast_search_lem f store ∙ known, fast_access) (rw did refl)

  fast_access-miss :
      {line : ℕ} {r : ℕ × CacheSet × FastMap}
      → f store ≡ none
      → line_to_replace pol n rand s ≡ some line
      → fast_replace pol s f store line ≡ some r
      → fast_access pol n rand s f store ≡ some (false, r.1, r.2)
  unfolding fast_access
  fast_access-miss unknown chosen did =
      rw (fast_search_lem f store ∙ unknown, fast_access) (rw chosen (rw did refl))

-- A new set, whose lines all hold 0.
pub no_lines-Synced :
    (n : ℕ) (contents : List ℕ)
    → ((i : ℕ) → i < n → get_or contents i 0 ≡ 0)
    → Synced n contents no_lines
no_lines-Synced n contents zero_at = record {
  free = refl;
  holds = λ store i e. absurd cc;
  covers = λ i h z. absurd (z (zero_at i h));
}

-- Both kinds of level answer the same and leave the same set, and the map is in step with it.
abbrev pub Agree : ReplacementPolicy → ℕ → ℕ → ℕ → CacheSet → FastMap → Type 0
Agree pol n rand store s f =
    (r : Bool × CacheSet × FastMap) × (fast_access pol n rand s f store ≡ some r)
    × (access pol n rand s store ≡ some (r.0, r.1))
    × SetOk pol n r.1
    × Synced n r.1.contents r.2

module _ (pol : ReplacementPolicy) (n rand store : ℕ) (s : CacheSet) (f : FastMap)
    (ok : SetOk pol n s) (synced : Synced n s.contents f) (nonzero : store ≢ 0) where
  -- What the map says is what the search over the lines finds.
  same_line : (i : ℕ) → f store ≡ some i → search n s store ≡ some (some i)
  same_line i e = let (r, found, finds) = search-in pol n s store ok in by_search r found finds
    where
      by_search :
          (r : Option ℕ)
          → search n s store ≡ some r
          → Finds store n s.contents r
          → search n s store ≡ some (some i)
      by_search none found finds = let old = synced.holds store i e in absurd (finds i old.0 old.1)
      by_search (some j) found finds =
          let known : f store ≡ some j =
            ap f (sym finds.1) ∙ synced.covers j finds.0 (λ z. nonzero (sym finds.1 ∙ z)) in
          found ∙ ap some (sym known ∙ e)

  same_none : f store ≡ none → search n s store ≡ some none
  same_none e = let (r, found, finds) = search-in pol n s store ok in by_search r found finds
    where
      by_search :
          (r : Option ℕ)
          → search n s store ≡ some r
          → Finds store n s.contents r
          → search n s store ≡ some none
      by_search none found finds = found
      by_search (some j) found finds =
          let known : f store ≡ some j =
            ap f (sym finds.1) ∙ synced.covers j finds.0 (λ z. nonzero (sym finds.1 ∙ z)) in
          let clash : some j ≡ none = sym known ∙ e in absurd cc

  by_map : (r : Option ℕ) → f store ≡ r → Agree pol n rand store s f
  unfolding fast_replace replace
  by_map (some i) e =
      let (s', did, good, same) = mark_used-SetOk pol n s i (synced.holds store i e).0 ok in
      (
        (true, s', f),
        fast_access-hit pol n rand store s f e did,
        access-hit pol n rand store s (same_line i e) did,
        good,
        subst (λ c. Synced n c f) (sym same) synced,
      )
  by_map none e =
      let (line, chosen, inside) = line_to_replace-in pol n s rand ok in
      let (s', did, good, same) =
        mark_used-SetOk pol n (record s { contents = set s.contents line store }) line inside
          (written line) in
      let read : get_elem? s.contents line ≡ some (get_or s.contents line 0) =
        get_elem?-get_or s.contents line 0 (omega (arith, ok.lines)) in
      let next_map : FastMap =
        insert
          (elim (f (get_or s.contents line 0)) as (λ _. FastMap) [
            | some _ ↦ erase f (get_or s.contents line 0)
            | none ↦ f
          ])
          store line in
      let put : fast_replace pol s f store line ≡ some (get_or s.contents line 0, s', next_map) =
        rw read (rw did refl) in
      let put_slow : replace pol s store line ≡ some (get_or s.contents line 0, s') =
        rw read (rw did refl) in
      (
        (false, s', next_map),
        fast_access-miss pol n rand store s f e chosen put,
        access-miss pol n rand store s (same_none e) chosen put_slow,
        good,
        subst (λ c. Synced n c next_map) (sym same)
            (insert-Synced n line store s.contents f inside ok.lines synced nonzero e),
      )
    where
      written : (line : ℕ) → SetOk pol n (record s { contents = set s.contents line store })
      written line = written-SetOk pol n s store line ok

  -- For a store other than 0, the map and the lines in step, and a policy that fits the set: both
  -- kinds of level answer the same and leave the same set, and the map is in step with it.
  pub fast_access-access : Agree pol n rand store s f
  fast_access-access = by_map (f store) refl
