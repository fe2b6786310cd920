-- ===== src/Sim/Ring/Recency.antt =====
-- instcode/Simulation.cpp, `CacheLevel::Process` with the policy trulru: a set against the list of its
-- stores in the order of their last use, the latest first.
pub mod Refines
pub mod Run
use pebil.Common.{
  ℕ, suc, zero, ◌+◌, ◌-◌, ◌%◌, ◌<◌, ◌≤◌, ◌≡◌, ◌≢◌, refl, sym, ap, subst, ◌∙◌, Option, none, some,
  List, [], ◌∷◌, ◌==◌, ltb, if◌then◌else◌, length, get_elem?, set, get_or, get_elem?-get_or,
  get_or-set, length-set, bind-some, arith, Bool, Bool-cases, inl, inr, true, false, ==_iff,
  replicate, ◌>>=◌,
}
use pebil.Sim.Level.{
  History, CacheSet, trulru, mark_used, history_from, search_from, search, line_to_replace, replace,
  access,
}
use pebil.Sim.Ring.{blank, next_of}
use pebil.Sim.Ring.Age.{Ring, up, used, renew}
use pebil.Sim.Ring.Lru.{Marks, mark_used-Ring, history-Ring}

-- The reference: an access puts the store in front. It takes the place of itself, if it is there,
-- and else of the store that was used last longest ago.
abbrev pub shift : ℕ → Option ℕ → Option ℕ
shift a none = none
shift a (some i) = some (a + i)

shift-suc : (a : ℕ) (r : Option ℕ) → shift (suc a) r ≡ shift a (shift 1 r)
shift-suc a none = refl
shift-suc a (some i) = ap some (omega arith)

pub shift-zero : (r : Option ℕ) → shift 0 r ≡ r
shift-zero none = refl
shift-zero (some i) = ap some (omega arith)

index_of : ℕ → List ℕ → Option ℕ
index_of x [] = none
index_of x (y ∷ ys) = if y == x then some 0 else shift 1 (index_of x ys)

erase_at : ℕ → List ℕ → List ℕ
erase_at i [] = []
erase_at zero (y ∷ ys) = ys
erase_at (suc i) (y ∷ ys) = y ∷ erase_at i ys

unfoldable pub recent_access : List ℕ → ℕ → Bool × List ℕ
unfolding index_of erase_at
recent_access xs store = elim (index_of store xs) [
  | some i ↦ (true, store ∷ erase_at i xs)
  | none ↦ (false, store ∷ erase_at (length xs - 1) xs)
]

-- What a search of both sides finds among the first `n`.
abbrev pub Finds : ℕ → ℕ → List ℕ → Option ℕ → Type 0
Finds store n xs none = (i : ℕ) → i < n → get_or xs i 0 ≢ store
Finds store n xs (some i) = (i < n) × (get_or xs i 0 ≡ store)

module _ (store n y : ℕ) (ys : List ℕ) (other : (y == store) ≡ false) where
  none-cons : Finds store n ys none → Finds store (suc n) (y ∷ ys) none
  none-cons f zero h e = ground arith
  none-cons f (suc i) h e = f i (omega arith) e

  Finds-cons : (r : Option ℕ) → Finds store n ys r → Finds store (suc n) (y ∷ ys) (shift 1 r)
  Finds-cons none f = none-cons f
  Finds-cons (some i) f = let e : 1 + i ≡ suc i = omega arith in rw e (omega (arith, f.0), f.1)

index_of-Finds : (store : ℕ) (xs : List ℕ) → Finds store (length xs) xs (index_of store xs)
unfolding index_of
index_of-Finds store [] = λ i h. absurd (omega arith)
index_of-Finds store (y ∷ ys) = elim (Bool-cases (y == store)) [
  | inl e ↦ rw e (omega arith, ground arith)
  | inr e ↦ rw e (Finds-cons store (length ys) y ys e _ (index_of-Finds store ys))
]

pub search_from-Finds :
    (store a n : ℕ) (xs : List ℕ)
    → n ≤ length xs
    → (r : Option ℕ) × (search_from store a n xs ≡ some (shift a r)) × Finds store n xs r
unfolding search_from
search_from-Finds store a zero xs h = (none, refl, λ i l. absurd (omega arith))
search_from-Finds store a (suc n) [] h = absurd (omega arith)
search_from-Finds store a (suc n) (x ∷ xs) h = elim (Bool-cases (x == store)) [
  | inl e ↦
      (some 0, rw e (ap (λ (i : ℕ). some (some i)) (omega arith)), (omega arith, ground arith))
  | inr e ↦
      let (r, found, finds) = search_from-Finds store (suc a) n xs (omega arith) in
      (shift 1 r, rw e (found ∙ ap some (shift-suc a r)), Finds-cons store n x xs e r finds)
]

get_or-erase_at :
    (i j : ℕ) (xs : List ℕ)
    → i < length xs
    → get_or (erase_at i xs) j 0 ≡ (if ltb j i then get_or xs j 0 else get_or xs (suc j) 0)
unfolding erase_at
get_or-erase_at i j [] h = absurd (omega arith)
get_or-erase_at zero j (x ∷ xs) h = ground arith
get_or-erase_at (suc i) zero (x ∷ xs) h = ground arith
get_or-erase_at (suc i) (suc j) (x ∷ xs) h = ground (arith, get_or-erase_at i j xs)

length-erase_at : (i : ℕ) (xs : List ℕ) → i < length xs → suc (length (erase_at i xs)) ≡ length xs
unfolding erase_at
length-erase_at i [] h = absurd (omega arith)
length-erase_at zero (x ∷ xs) h = refl
length-erase_at (suc i) (x ∷ xs) h = ap suc (length-erase_at i xs (omega arith))
