-- ===== src/Hash/Sysv/Search.antt =====
-- The two searches of `build_table`, which run downwards and stop at the first match.
use pebil.Common.{
  ℕ, zero, suc, ◌≤◌, ◌<◌, ◌≡◌, ◌≢◌, ◌⊎◌, inl, inr, refl, sym, Bool-cases, List, [], ◌∷◌, ◌==◌,
  subst, length, length-set, ap, get_or, set, arith, ◌∙◌,
}
use pebil.Hash.Sysv.{search_bucket, search_previous, chain_loop}

-- `r` is the greatest index below `k` at which `es` holds `v`.
pub record IsLast (es : List ℕ) (v k r : ℕ) : Type 0 where
  pub below : r < k
  pub holds : get_or es r 0 ≡ v
  pub greatest : (j : ℕ) → r < j → j < k → get_or es j 0 ≢ v

-- `es` holds `v` nowhere below `k`.
abbrev pub Nowhere : List ℕ → ℕ → ℕ → Type 0
Nowhere es v k = (j : ℕ) → j < k → get_or es j 0 ≢ v

lt-suc : (j k : ℕ) → j < suc k → (j ≡ k) ⊎ (j < k)
lt-suc j k h = ground arith

IsLast-suc : (es : List ℕ) (v k r : ℕ) → get_or es k 0 ≢ v → IsLast es v k r → IsLast es v (suc k) r
IsLast-suc es v k r ne l = record {
  below = omega (arith, l.below);
  holds = l.holds;
  greatest = λ j h h'. elim (lt-suc j k h') [
    | inl e ↦ λ q. ne (subst (λ i. get_or es i 0 ≡ v) e q)
    | inr b ↦ l.greatest j h b
  ];
}

Nowhere-suc : (es : List ℕ) (v k : ℕ) → get_or es k 0 ≢ v → Nowhere es v k → Nowhere es v (suc k)
Nowhere-suc es v k ne n j h = elim (lt-suc j k h) [
  | inl e ↦ λ q. ne (subst (λ i. get_or es i 0 ≡ v) e q)
  | inr b ↦ n j b
]

IsLast-here : (es : List ℕ) (v k : ℕ) → get_or es k 0 ≡ v → IsLast es v (suc k) k
IsLast-here es v k e = record {
  below = omega arith;
  holds = e;
  greatest = λ j h h'. absurd (omega arith);
}

pub search_bucket_lem :
    (es : List ℕ) (i n k : ℕ)
    → IsLast es i k (search_bucket es i n k) ⊎ ((search_bucket es i n k ≡ n) × Nowhere es i k)
unfolding search_bucket
search_bucket_lem es i n zero = inr (refl, λ j h. absurd (omega arith))
search_bucket_lem es i n (suc k) = elim (Bool-cases (get_or es k 0 == i)) [
  | inl e ↦ rw (e, search_bucket) (inl (IsLast-here es i k (ground arith)))
  | inr e ↦
      let ne : get_or es k 0 ≢ i = ground arith in
      rw (e, search_bucket)
        (elim (search_bucket_lem es i n k) [
          | inl l ↦ inl (IsLast-suc es i k _ ne l)
          | inr p ↦ inr (p.0, Nowhere-suc es i k ne p.1)
        ])
]

pub search_previous_lem :
    (es : List ℕ) (i k : ℕ)
    → IsLast es (get_or es i 0) k (search_previous es i k)
      ⊎ ((search_previous es i k ≡ 0) × Nowhere es (get_or es i 0) k)
unfolding search_previous
search_previous_lem es i zero = inr (refl, λ j h. absurd (omega arith))
search_previous_lem es i (suc k) = elim (Bool-cases (get_or es i 0 == get_or es k 0)) [
  | inl e ↦ rw (e, search_previous) (inl (IsLast-here es (get_or es i 0) k (ground arith)))
  | inr e ↦
      let ne : get_or es k 0 ≢ get_or es i 0 = ground arith in
      rw (e, search_previous)
        (elim (search_previous_lem es i k) [
          | inl l ↦ inl (IsLast-suc es (get_or es i 0) k _ ne l)
          | inr p ↦ inr (p.0, Nowhere-suc es (get_or es i 0) k ne p.1)
        ])
]

-- A write at or above the searched part changes nothing.
get_or-set_ne : (xs : List ℕ) (i j v : ℕ) → i ≢ j → get_or (set xs i v) j 0 ≡ get_or xs j 0
get_or-set_ne [] i j v h = refl
get_or-set_ne (x ∷ xs) zero zero v h = absurd (h refl)
get_or-set_ne (x ∷ xs) zero (suc j) v h = refl
get_or-set_ne (x ∷ xs) (suc i) zero v h = refl
get_or-set_ne (x ∷ xs) (suc i) (suc j) v h = get_or-set_ne xs i j v (λ e. h (ap suc e))

get_or-set_self : (xs : List ℕ) (i v : ℕ) → i < length xs → get_or (set xs i v) i 0 ≡ v
get_or-set_self [] i v h = absurd (omega arith)
get_or-set_self (x ∷ xs) zero v h = refl
get_or-set_self (x ∷ xs) (suc i) v h = get_or-set_self xs i v (omega arith)

search_previous-set :
    (es : List ℕ) (i v j k : ℕ)
    → j < i
    → k ≤ i
    → search_previous (set es i v) j k ≡ search_previous es j k
unfolding search_previous
search_previous-set es i v j zero hj hk = refl
search_previous-set es i v j (suc k) hj hk = ground (
  arith,
  get_or-set_ne es i j v (omega arith),
  get_or-set_ne es i k v (omega arith),
  search_previous-set es i v j k hj (omega arith),
)

-- Entries at or above the start stay.
chain_loop_above :
    (k : ℕ) (es : List ℕ) (i : ℕ) → k ≤ i → get_or (chain_loop k es) i 0 ≡ get_or es i 0
unfolding chain_loop
chain_loop_above zero es i h = refl
chain_loop_above (suc k) es i h =
    chain_loop_above k (set es k (search_previous es k k)) i (omega arith)
    ∙ get_or-set_ne es k i _ (omega arith)

-- After the loop each entry below its start is what the search found in the array before it.
pub chain_loop_lem :
    (k : ℕ) (es : List ℕ) (i : ℕ)
    → k ≤ length es
    → i < k
    → get_or (chain_loop k es) i 0 ≡ search_previous es i i
unfolding chain_loop
chain_loop_lem zero es i hk hi = absurd (omega arith)
chain_loop_lem (suc k) es i hk hi = elim (lt-suc i k hi) [
  | inl e ↦
      chain_loop_above k (set es k (search_previous es k k)) i (omega arith)
      ∙ subst (λ x. get_or (set es k (search_previous es k k)) x 0 ≡ search_previous es x x) (sym e)
          (get_or-set_self es k _ (omega arith))
  | inr b ↦
      chain_loop_lem k (set es k (search_previous es k k)) i
        (omega (arith, length-set es k (search_previous es k k))) b
      ∙ search_previous-set es k _ i i b (omega arith)
]
