-- ===== src/Sim/Structure/Init.antt =====
-- instcode/Simulation.cpp, `CacheLevel::Init`: the level that it makes.
use native.Mathlib.Nat.{pow-suc, pow-zero, mod-add-div, mod-lt}
use pebil.Common.{
  ℕ, suc, zero, ◌+◌, ◌-◌, ◌*◌, ◌/◌, ◌%◌, ◌^◌, ◌<◌, ◌≤◌, ◌≡◌, refl, sym, ap, subst, ◌∙◌, some,
  length, ◌==◌, ltb, get_or, bind-some, arith, Bool-cases, inl, inr, true, false, lt→ltb, replicate,
}
use pebil.Sim.Level.{
  ReplacementPolicy, undefined, trulru, nmru, random, direct, CacheSet, CacheLevel, bits_loop, init,
  initial_history, get_storage,
}
use pebil.Sim.Level.Safe.{SetOk}
use pebil.Sim.Ring.Lru.{history-Ring}
use pebil.Sim.Structure.Cache.{CacheOk, no_set}

pow_pos : (k : ℕ) → 0 < 2 ^ k
pow_pos zero = omega (arith, pow-zero 2)
pow_pos (suc k) = omega (arith, pow-suc 2 k, pow_pos k)

-- The rounds of the loop are the bits of the number.
bits_loop_lem :
    (k fuel n bits : ℕ)
    → k < fuel
    → 2 ^ k ≤ n
    → n < 2 ^ suc k
    → bits_loop (suc fuel) n bits ≡ some (bits + suc k)
unfolding bits_loop
bits_loop_lem zero zero n bits h lo hi = absurd (omega arith)
bits_loop_lem zero (suc fuel) n bits h lo hi =
    let pos : ltb 0 n ≡ true = ground (arith, pow-zero 2) in
    let half : n / 2 ≡ 0 = omega (arith, pow-suc 2 0, pow-zero 2) in
    let done : ltb 0 (n / 2) ≡ false = ground arith in rw pos (rw done refl)
bits_loop_lem (suc k) zero n bits h lo hi = absurd (omega arith)
bits_loop_lem (suc k) (suc fuel) n bits h lo hi =
    let pos : ltb 0 n ≡ true = lt→ltb 0 n (omega (arith, pow_pos (suc k))) in
    let half : 2 ^ k ≤ n / 2 = omega (arith, pow-suc 2 k) in
    let below : n / 2 < 2 ^ suc k = omega (arith, pow-suc 2 (suc k)) in
    let count : bits + 1 + suc k ≡ bits + suc (suc k) = omega arith in
    rw pos (bits_loop_lem k fuel (n / 2) (bits + 1) (omega arith) half below ∙ ap some count)

-- A policy that a level can keep with so many lines in a set.
abbrev pub Usable : ReplacementPolicy → ℕ → Type 0
Usable undefined n = ⊥
Usable trulru n = 2 ≤ n
Usable nmru n = 0 < n
Usable random n = 0 < n
Usable direct n = 0 < n

get_or-replicate {ℓ} : {A : Type ℓ} (n i : ℕ) (a d : A) → i < n → get_or (replicate n a) i d ≡ a
get_or-replicate zero i a d h = absurd (omega arith)
get_or-replicate (suc n) zero a d h = refl
get_or-replicate (suc n) (suc i) a d h = get_or-replicate n i a d (omega arith)

length-replicate {ℓ} : {A : Type ℓ} (n : ℕ) (a : A) → length (replicate n a) ≡ n
length-replicate zero a = refl
length-replicate (suc n) a = ap suc (length-replicate n a)

abbrev pub first_set : ReplacementPolicy → ℕ → CacheSet
first_set pol n = record {
  contents = replicate n 0;
  recently_used = 0;
  history_used = initial_history pol n;
}

first_set-SetOk : (pol : ReplacementPolicy) (n : ℕ) → Usable pol n → SetOk pol n (first_set pol n)
unfolding initial_history
first_set-SetOk undefined n u = absurd u
first_set-SetOk trulru n u = record {
  some_line = omega arith;
  lines = length-replicate n 0;
  ordered = ((λ k. k), history-Ring n u);
}
first_set-SetOk nmru n u = record { some_line = u; lines = length-replicate n 0; ordered = tt }
first_set-SetOk random n u = record { some_line = u; lines = length-replicate n 0; ordered = tt }
first_set-SetOk direct n u = record { some_line = u; lines = length-replicate n 0; ordered = tt }

div_pos : (n m : ℕ) → 0 < m → m ≤ n → 0 < n / m
div_pos n m pos le = elim (Bool-cases (n / m == 0)) [
  | inl e ↦
      let zero_div : n / m ≡ 0 = ground arith in
      let product : m * (n / m) ≡ m * 0 = ap (λ (q : ℕ). m * q) zero_div in
      absurd (omega (arith, mod-add-div n m, mod-lt n pos))
  | inr e ↦ ground arith
]

module _ (lvl size assoc line_sz k : ℕ) (pol : ReplacementPolicy) where
  abbrev made : CacheLevel
  made = record {
    level = lvl;
    size = size;
    associativity = assoc;
    linesize = line_sz;
    replpolicy = pol;
    countsets = size / (line_sz * assoc);
    linesize_bits = (0 + suc k + 2 ^ 32 - 1) % 2 ^ 32;
    sets = replicate (size / (line_sz * assoc)) (first_set pol assoc);
  }

  abbrev pub Made : CacheLevel → Type 0
  Made c =
      (init lvl size assoc line_sz pol ≡ some c)
      × CacheOk lvl c
      × (c.countsets ≡ size / (line_sz * assoc))
      × (c.sets ≡ replicate c.countsets (first_set pol assoc))
      × ((addr : ℕ) → get_storage c addr ≡ addr / 2 ^ k)

  -- For a line of at least 2 ^ k bytes and less than twice as many, with k below 32, lines whose bytes
  -- in a set are not 0, less than 2 ^ 32 and at most the size of the cache, and a policy that Usable
  -- admits (a policy that Init knows, trulru only with two lines or more): Init succeeds, the level is
  -- CacheOk, it has as many sets as the size holds, each the first set of the policy, whose lines all
  -- hold store 0, and the store of an address is its number by 2 ^ k.
  pub init-CacheOk :
      k < 32
      → 2 ^ k ≤ line_sz
      → line_sz < 2 ^ suc k
      → line_sz * assoc < 2 ^ 32
      → 0 < line_sz * assoc
      → line_sz * assoc ≤ size
      → Usable pol assoc
      → (c : CacheLevel) × Made c
  unfolding init get_storage
  init-CacheOk few lo hi small pos fits u =
      let bytes : line_sz * assoc % 2 ^ 32 ≡ line_sz * assoc = omega arith in
      let some_bytes : ltb 0 (line_sz * assoc) ≡ true = lt→ltb 0 _ pos in
      let bits : 0 + suc k + 2 ^ 32 - 1 ≡ 2 ^ 32 + k = omega arith in
      let count : (0 + suc k + 2 ^ 32 - 1) % 2 ^ 32 ≡ k = omega arith in
      (
        made,
        (
          rw bytes (rw some_bytes (bind-some _ (bits_loop_lem k 32 line_sz 0 few lo hi) refl)),
          record {
            place = refl;
            some_set = div_pos size (line_sz * assoc) pos fits;
            counted = length-replicate _ (first_set pol assoc);
            good = λ i h.
                subst (SetOk pol assoc) (sym (get_or-replicate _ i (first_set pol assoc) no_set h))
                  (first_set-SetOk pol assoc u);
          },
          refl,
          refl,
          λ addr. ap (λ (b : ℕ). addr / 2 ^ b) count,
        ),
      )
