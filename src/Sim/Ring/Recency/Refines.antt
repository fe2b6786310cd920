-- ===== src/Sim/Ring/Recency/Refines.antt =====
-- instcode/Simulation.cpp, `CacheLevel::Process` with the policy trulru: the refinement.
use pebil.Common.{
  ℕ, suc, zero, ◌-◌, ◌<◌, ◌≡◌, ◌≢◌, refl, sym, ap, subst, ◌∙◌, Option, none, some, List, ◌∷◌, ◌==◌,
  ltb, if◌then◌else◌, length, set, get_or, get_elem?-get_or, get_or-set, length-set, bind-some,
  arith, Bool, Bool-cases, inl, inr, true, false,
}
use pebil.Sim.Level.{History, CacheSet, trulru, mark_used, search, line_to_replace, replace, access}
use pebil.Sim.Level.Access.{access-hit, access-miss}
use pebil.Sim.Ring.{next_of}
use pebil.Sim.Ring.Age.{Ring, used}
use pebil.Sim.Ring.Lru.{mark_used-Ring}
use pebil.Sim.Ring.Recency.{
  shift-zero, recent_access, index_of, erase_at, Finds, index_of-Finds, search_from-Finds,
  get_or-erase_at, length-erase_at,
}

-- The stores of the set, by the age of their lines; only the lines that were never used hold the
-- same, which is 0.
pub record Recent (n : ℕ) (s : CacheSet) (xs : List ℕ) : Type 0 where
  pub age : ℕ → ℕ
  pub ring : Ring n s.history_used s.recently_used age
  pub lines : length s.contents ≡ n
  pub stores : length xs ≡ n
  pub same : (k : ℕ) → k < n → get_or s.contents k 0 ≡ get_or xs (n - 1 - age k) 0
  pub once : (i j : ℕ) → i < n → j < n → get_or xs i 0 ≡ get_or xs j 0 → get_or xs i 0 ≢ 0 → i ≡ j

-- Each age is that of a line: the links lead there from the oldest.
at_age :
    {n : ℕ} {h : List History} {oldest : ℕ} {age : ℕ → ℕ}
    → Ring n h oldest age
    → (a : ℕ) → a < n
    → (k : ℕ) × (k < n) × (age k ≡ a)
at_age {oldest} r zero l = (oldest, r.oldest_in, r.age-oldest)
at_age {h} r (suc a) l =
    let (k, i, e) = at_age r a (omega arith) in
    (next_of h k, r.next_in k i, ground (arith, r.age-next k i))

module _ (n store : ℕ) (xs : List ℕ) (p : ℕ) (inside : p < n) (size : length xs ≡ n) where
  abbrev place : ℕ → ℕ
  place i = if ltb i p then i else suc i

  abbrev fronted : List ℕ
  fronted = store ∷ erase_at p xs

  length-fronted : length fronted ≡ n
  length-fronted = omega (arith, length-erase_at p xs (omega arith))

  get_or-fronted : (i : ℕ) → get_or fronted (suc i) 0 ≡ get_or xs (place i) 0
  get_or-fronted i = get_or-erase_at p i xs (omega arith) ∙ ground arith

  module _ (only : (j : ℕ) → j < n → get_or xs j 0 ≡ store → j ≡ p)
      (once : (i j : ℕ)
        → i < n
        → j < n
        → get_or xs i 0 ≡ get_or xs j 0
        → get_or xs i 0 ≢ 0
        → i ≡ j) where
    fronted_once :
        (i j : ℕ)
        → i < n
        → j < n
        → get_or fronted i 0 ≡ get_or fronted j 0
        → get_or fronted i 0 ≢ 0
        → i ≡ j
    fronted_once zero zero hi hj e z = refl
    fronted_once zero (suc j) hi hj e z =
        let there : place j ≡ p = only (place j) (ground arith) (sym (e ∙ get_or-fronted j)) in
        absurd (ground arith)
    fronted_once (suc i) zero hi hj e z =
        let there : place i ≡ p = only (place i) (ground arith) (sym (get_or-fronted i) ∙ e) in
        absurd (ground arith)
    fronted_once (suc i) (suc j) hi hj e z =
        let there : place i ≡ place j =
          once (place i) (place j) (ground arith) (ground arith)
            (sym (get_or-fronted i) ∙ e ∙ get_or-fronted j) (λ t. z (get_or-fronted i ∙ t)) in
        ground arith

-- A line of age n - 1 - p takes the store.
module _ {n : ℕ} {s : CacheSet} {xs : List ℕ} (r : Recent n s xs) (store line : ℕ)
    (inside : line < n) (contents : List ℕ) (size : length contents ≡ n)
    (written : (k : ℕ)
      → k < n
      → get_or contents k 0 ≡ (if line == k then store else get_or s.contents k 0))
    (only : (j : ℕ) → j < n → get_or xs j 0 ≡ store → j ≡ n - 1 - r.age line) where
  position_in : n - 1 - r.age line < n
  position_in = omega (arith, r.ring.two)

  abbrev front : List ℕ
  front = store ∷ erase_at (n - 1 - r.age line) xs

  -- Where the store of another line stands.
  module _ (k : ℕ) (i : k < n) (other : (r.age k == r.age line) ≡ false) where
    other_line : (line == k) ≡ false
    other_line = elim (Bool-cases (line == k)) [
      | inl e ↦
          let here : line ≡ k = ground arith in
          let ages : r.age line ≡ r.age k = ap r.age here in ground arith
      | inr e ↦ e
    ]

    kept : get_or contents k 0 ≡ get_or xs (n - 1 - r.age k) 0
    kept = written k i ∙ rw other_line (r.same k i)

    moved_to :
        (q : ℕ)
        → n - 1 - used n r.age line k ≡ suc q
        → place n store xs (n - 1 - r.age line) position_in r.stores q ≡ n - 1 - r.age k
        → get_or contents k 0 ≡ get_or front (n - 1 - used n r.age line k) 0
    moved_to q e f =
        kept
        ∙ sym (
            ap (λ (t : ℕ). get_or front t 0) e
            ∙ get_or-fronted n store xs (n - 1 - r.age line) position_in r.stores q
            ∙ ap (λ (t : ℕ). get_or xs t 0) f)

  same_after : (k : ℕ) → k < n → get_or contents k 0 ≡ get_or front (n - 1 - used n r.age line k) 0
  same_after k i = elim (Bool-cases (r.age k == r.age line)) [
    | inl e ↦
        let here : line ≡ k = r.ring.distinct line k inside i (ground arith) in
        let first : n - 1 - used n r.age line k ≡ 0 = ground arith in
        written k i ∙ ground (arith, ap (λ (t : ℕ). get_or front t 0) first)
    | inr e ↦ elim (Bool-cases (ltb (r.age line) (r.age k))) [
      | inl l ↦
          moved_to k i e (n - 1 - r.age k) (ground (arith, r.ring.age_in k i))
            (ground (arith, r.ring.age_in k i))
      | inr l ↦
          moved_to k i e (n - 2 - r.age k)
            (ground (arith, r.ring.age_in k i, r.ring.age_in line inside))
            (ground (arith, r.ring.age_in k i, r.ring.age_in line inside))
    ]
  ]

  marked :
      (s' : CacheSet) × (mark_used trulru (record s { contents = contents }) line ≡ some s')
      × Recent n s' front
  marked =
      let (s', marks) =
        mark_used-Ring n r.age (record s { contents = contents }) line inside r.ring in
      (
        s',
        marks.0,
        record {
          age = used n r.age line;
          ring = marks.2;
          lines = ap length marks.1 ∙ size;
          stores = length-fronted n store xs (n - 1 - r.age line) position_in r.stores;
          same = λ k i. ap (λ (c : List ℕ). get_or c k 0) marks.1 ∙ same_after k i;
          once = fronted_once n store xs (n - 1 - r.age line) position_in r.stores only r.once;
        },
      )

store_kept :
    (xs : List ℕ) (i k : ℕ) {store : ℕ}
    → get_or xs i 0 ≡ store
    → get_or xs k 0 ≡ (if i == k then store else get_or xs k 0)
store_kept xs i k e = elim (Bool-cases (i == k)) [
  | inl t ↦ let here : i ≡ k = ground arith in rw t (ap (λ (j : ℕ). get_or xs j 0) (sym here) ∙ e)
  | inr t ↦ rw t refl
]

module _ {n : ℕ} {s : CacheSet} {xs : List ℕ} (r : Recent n s xs) (store rand : ℕ) where
  abbrev Accessed : Bool × List ℕ → Type 0
  Accessed spec =
      (s' : CacheSet) × (access trulru n rand s store ≡ some (spec.0, s')) × Recent n s' spec.1

  hit-Recent :
      (i p : ℕ)
      → search n s store ≡ some (some i)
      → Finds store n s.contents (some i)
      → Finds store n xs (some p)
      → store ≢ 0
      → Accessed (true, store ∷ erase_at p xs)
  unfolding access
  hit-Recent i p found (inside, there) (p_inside, p_there) used_store =
      let only : (j : ℕ) → j < n → get_or xs j 0 ≡ store → j ≡ n - 1 - r.age i = λ j l e.
        r.once j (n - 1 - r.age i) l (omega (arith, r.ring.two)) (e ∙ sym there ∙ r.same i inside)
          (λ z. used_store (sym e ∙ z)) in
      let written : (k : ℕ)
          → k < n
          → get_or s.contents k 0 ≡ (if i == k then store else get_or s.contents k 0) =
        λ k l. store_kept s.contents i k there in
      let (s', did, recent) = marked r store i inside s.contents r.lines written only in
      (
        s',
        access-hit trulru n rand store s found did,
        subst (λ q. Recent n s' (store ∷ erase_at q xs)) (sym (only p p_inside p_there)) recent,
      )

  miss-Recent :
      search n s store ≡ some none
      → Finds store n xs none
      → Accessed (false, store ∷ erase_at (n - 1) xs)
  unfolding line_to_replace replace
  miss-Recent found nowhere =
      let line : ℕ = s.recently_used in
      let inside : line < n = r.ring.oldest_in in
      let last : n - 1 - r.age line ≡ n - 1 = omega (arith, r.ring.age-oldest) in
      let (s', did, recent) =
        marked r store line inside (set s.contents line store)
          (length-set s.contents line store ∙ r.lines)
          (λ k l. get_or-set s.contents line k store 0 (omega (arith, r.lines)))
          (λ j l e. absurd (nowhere j l e)) in
      let chosen : line_to_replace trulru n rand s ≡ some line = refl in
      let replaced : replace trulru s store line ≡ some (get_or s.contents line 0, s') =
        bind-some _ (get_elem?-get_or s.contents line 0 (omega (arith, r.lines)))
          (bind-some _ did refl) in
      (
        s',
        access-miss trulru n rand store s found chosen replaced,
        subst (λ q. Recent n s' (store ∷ erase_at q xs)) last recent,
      )

  -- Both sides search, and agree.
  both :
      (i p : Option ℕ)
      → search n s store ≡ some i
      → Finds store n s.contents i
      → index_of store xs ≡ p
      → Finds store n xs p
      → store ≢ 0
      → Accessed (recent_access xs store)
  unfolding recent_access
  both (some i) (some p) found f index g u = rw (index, recent_access) (hit-Recent i p found f g u)
  both none none found f index g u = rw (index, recent_access) (rw r.stores (miss-Recent found g))
  both (some i) none found f index g u =
      absurd (g (n - 1 - r.age i) (omega (arith, r.ring.two)) (sym (r.same i f.0) ∙ f.1))
  both none (some p) found f index g u =
      let (k, inside, e) = at_age r.ring (n - 1 - p) (omega (arith, g.0)) in
      let there : n - 1 - r.age k ≡ p = omega (arith, e, g.0) in
      absurd (f k inside (r.same k inside ∙ ap (λ (t : ℕ). get_or xs t 0) there ∙ g.1))

  -- An access of a store other than 0, to a set that holds the `n` stores of the list, succeeds; it
  -- is a hit exactly if the reference finds the store, and the set holds the stores of the
  -- reference after it: with a miss, the one that was used last longest ago is gone.
  pub access-Recent : store ≢ 0 → Accessed (recent_access xs store)
  unfolding search
  access-Recent u =
      let (i, found, finds) = search_from-Finds store 0 n s.contents (omega (arith, r.lines)) in
      both i (index_of store xs) (found ∙ ap some (shift-zero i)) finds refl
        (subst (λ k. Finds store k xs (index_of store xs)) r.stores (index_of-Finds store xs)) u
