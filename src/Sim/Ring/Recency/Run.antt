-- ===== src/Sim/Ring/Recency/Run.antt =====
-- instcode/Simulation.cpp, `CacheLevel::Process` with the policy trulru: a sequence of accesses to a set
-- of a new level.
use pebil.Common.{
  ℕ, suc, zero, ◌-◌, ◌≤◌, ◌≡◌, ◌≢◌, refl, ap, ◌∙◌, Option, some, List, [], ◌∷◌, length, get_or,
  arith, Bool, replicate, ◌>>=◌,
}
use pebil.Sim.Level.{CacheSet, ReplacementPolicy, trulru, initial_history, access}
use pebil.Sim.Ring.Lru.{history-Ring}
use pebil.Sim.Ring.Recency.{recent_access}
use pebil.Sim.Ring.Recency.Refines.{Recent, access-Recent}

-- The answers to the accesses of the stores, in their order, and the set in the end.
unfoldable pub accesses :
    ReplacementPolicy → ℕ → ℕ → List ℕ → CacheSet → Option (List Bool × CacheSet)
accesses pol n rand [] s = some ([], s)
accesses pol n rand (store ∷ stores) s = access pol n rand s store >>= λ r.
    accesses pol n rand stores r.1 >>= λ rest. some (r.0 ∷ rest.0, rest.1)

unfoldable pub recent_accesses : List ℕ → List ℕ → List Bool × List ℕ
unfolding recent_access
recent_accesses xs [] = ([], xs)
recent_accesses xs (store ∷ stores) =
    let r = recent_access xs store in
    let rest = recent_accesses r.1 stores in (r.0 ∷ rest.0, rest.1)

pub data Used : List ℕ → Type 0 where
  used_none : Used []
  used_more : (store : ℕ) (stores : List ℕ) → store ≢ 0 → Used stores → Used (store ∷ stores)

accesses-Recent :
    (n rand : ℕ) (stores : List ℕ) (s : CacheSet) (xs : List ℕ)
    → Recent n s xs
    → Used stores
    → (s' : CacheSet) × (accesses trulru n rand stores s ≡ some ((recent_accesses xs stores).0, s'))
      × Recent n s' (recent_accesses xs stores).1
unfolding accesses recent_accesses
accesses-Recent n rand [] s xs r u = (s, refl, r)
accesses-Recent n rand (store ∷ stores) s xs r (used_more _ _ nonzero u) =
    let (s', did, r') = access-Recent r store rand nonzero in
    let (s'', rest, r'') = accesses-Recent n rand stores s' _ r' u in
    (s'', rw did (rw rest refl), r'')

abbrev pub zeros : ℕ → List ℕ
zeros n = replicate n 0

get_or-zeros : (n i : ℕ) → get_or (zeros n) i 0 ≡ 0
get_or-zeros zero i = refl
get_or-zeros (suc n) zero = refl
get_or-zeros (suc n) (suc i) = get_or-zeros n i

length-zeros : (n : ℕ) → length (zeros n) ≡ n
length-zeros zero = refl
length-zeros (suc n) = ap suc (length-zeros n)

module _ (n : ℕ) (two : 2 ≤ n) where
  -- A set as Init makes it.
  abbrev pub new_set : CacheSet
  new_set = record {
    contents = zeros n;
    recently_used = 0;
    history_used = initial_history trulru n;
  }

  new_set-Recent : Recent n new_set (zeros n)
  unfolding initial_history
  new_set-Recent = record {
    age = λ k. k;
    ring = history-Ring n two;
    lines = length-zeros n;
    stores = length-zeros n;
    same = λ k h. get_or-zeros n k ∙ ground (arith, get_or-zeros n (n - 1 - k));
    once = λ i j hi hj e nonzero. absurd (nonzero (get_or-zeros n i));
  }

  -- For at least two lines and any sequence of stores other than 0: a new set with the policy trulru
  -- takes each access, and answers hit or miss as a list of `n` stores in the order of their last use
  -- does, from which each miss removes the one that was used last longest ago.
  pub accesses_lem :
      (rand : ℕ) (stores : List ℕ)
      → Used stores
      → (s' : CacheSet) × (accesses trulru n rand stores new_set
          ≡ some ((recent_accesses (zeros n) stores).0, s'))
        × Recent n s' (recent_accesses (zeros n) stores).1
  accesses_lem rand stores u = accesses-Recent n rand stores new_set (zeros n) new_set-Recent u
